-- ===== src/Serialization/WatchReq.antt =====
-- src/serialization.rs: `merge_from`, `compute_size` and `write_to_with_cached_sizes` of `WatchReq`.
use rasputin.Prelude.{
  ℕ, Bytes, some, [], refl, arith, length, eqb, if◌then◌else◌, ◌^◌, ◌≡◌, ◌<◌, ◌∷◌,
}
use rasputin.Messages.WatchReq.{WatchReq, new}
use rasputin.Protobuf.{Coding, CodingLaws, WireType, varint, ProtobufResult, done}
use rasputin.Protobuf.Merging.{on_uint64, on_bool, on_bytes, on_unknown, merge_all}
use rasputin.Protobuf.Sizes.{
  iter, size_each, write_each, in_order, Counts, Adds-nothing, Adds-unknown, add32, ◌then_adds◌,
  Adds-Counts, Adds-uint64, Adds-bool, Adds-bytes,
}
use rasputin.Protobuf.Ends.{
  CodingEnds, Leaves, NotSpent, Leaves-if, Leaves-uint64, Leaves-bool, Leaves-bytes, Leaves-unknown,
  merge_all-NotSpent,
}
use rasputin.Protobuf.Rounds.{OptAll}
use rasputin.Protobuf.Fields.{
  Reads-nothing, Reads-unknown, ◌then_reads◌, Reads-merge_all, Reads-uint64, Reads-bool,
  Reads-bytes,
}

module _ ⦃C : Coding⦄ where
  unfoldable pub merge_field : WatchReq → ℕ → WireType → Bytes → ProtobufResult (WatchReq × Bytes)
  merge_field m field_number wire_type is =
      if eqb field_number 1
      then on_bytes wire_type is (λ v. record m { key = some v })
      else if eqb field_number 2
      then on_uint64 wire_type is (λ v. record m { last_txid = some v })
      else if eqb field_number 3
      then on_bool wire_type is (λ v. record m { recursive = some v })
      else if eqb field_number 4
      then on_bool wire_type is (λ v. record m { historical = some v })
      else on_unknown field_number wire_type is m.unknown_fields
          (λ fields. record m { unknown_fields = fields })

  unfoldable pub merge_from : WatchReq → Bytes → ProtobufResult WatchReq
  merge_from m is = merge_all merge_field m is

  unfoldable pub compute_size : WatchReq → ℕ
  compute_size m =
      let after_key = size_each 0 (iter m.key) (C.bytes_size 1) in
      let after_last_txid = size_each after_key (iter m.last_txid) (λ v. C.value_size 2 v varint) in
      let after_recursive = size_each after_last_txid (iter m.recursive) (λ v. 2) in
      let after_historical = size_each after_recursive (iter m.historical) (λ v. 2) in
      add32 after_historical (C.unknown_fields_size m.unknown_fields)

  unfoldable pub write_to_with_cached_sizes : WatchReq → Bytes
  write_to_with_cached_sizes m = in_order (
      write_each (iter m.key) (C.write_bytes 1)
      ∷ write_each (iter m.last_txid) (C.write_uint64 2)
      ∷ write_each (iter m.recursive) (C.write_bool 3)
      ∷ write_each (iter m.historical) (C.write_bool 4)
      ∷ C.write_unknown_fields m.unknown_fields
      ∷ [])

-- The numbers are machine words, and no field is unknown, in the messages inside too.
abbrev pub Fits : WatchReq → Type 0
Fits m = (OptAll (λ v. v < 2 ^ 64) m.last_txid) × (m.unknown_fields ≡ [])

module _ ⦃C : Coding⦄ (laws : CodingLaws C) where
  pub compute_size-write_to_with_cached_sizes :
      (m : WatchReq) → Counts (compute_size m) (write_to_with_cached_sizes m)
  unfolding compute_size write_to_with_cached_sizes
  compute_size-write_to_with_cached_sizes m = Adds-Counts (
      Adds-bytes laws 1 m.key
      then_adds Adds-uint64 laws 2 m.last_txid
      then_adds Adds-bool laws 3 m.recursive (omega arith, omega arith)
      then_adds Adds-bool laws 4 m.historical (omega arith, omega arith)
      then_adds Adds-unknown laws m.unknown_fields
      then_adds Adds-nothing)

  pub merge_from-write_to_with_cached_sizes :
      (m : WatchReq)
      → Fits m
      → length (write_to_with_cached_sizes m) < 2 ^ 32
      → merge_from new (write_to_with_cached_sizes m) ≡ done m
  unfolding merge_field merge_from write_to_with_cached_sizes
  merge_from-write_to_with_cached_sizes m fits =
      let with_key : WatchReq = record new { key = m.key } in
      let with_last_txid : WatchReq = record with_key { last_txid = m.last_txid } in
      let with_recursive : WatchReq = record with_last_txid { recursive = m.recursive } in
      let with_historical : WatchReq = record with_recursive { historical = m.historical } in
      Reads-merge_all merge_field new m (write_to_with_cached_sizes m) (
        Reads-bytes laws merge_field 1 m.key (λ o. record new { key = o })
          (omega arith, omega arith) (λ _. refl)
        then_reads Reads-uint64 laws merge_field 2 m.last_txid
            (λ o. record with_key { last_txid = o }) (omega arith, omega arith) (λ _. refl) fits.0
        then_reads Reads-bool laws merge_field 3 m.recursive
            (λ o. record with_last_txid { recursive = o }) (omega arith, omega arith) (λ _. refl)
        then_reads Reads-bool laws merge_field 4 m.historical
            (λ o. record with_recursive { historical = o }) (omega arith, omega arith) (λ _. refl)
        then_reads Reads-unknown laws merge_field m.unknown_fields
            (λ o. record with_historical { unknown_fields = o }) fits.1
        then_reads Reads-nothing merge_field m)

module _ ⦃C : Coding⦄ (ends : CodingEnds C) where
  merge_field-Leaves :
      (m : WatchReq) (field_number : ℕ) (t : WireType) (is : Bytes)
      → Leaves (length is) (merge_field m field_number t is)
  unfolding merge_field
  merge_field-Leaves m k t is =
      Leaves-if (length is) (eqb k 1) _ _ (Leaves-bytes ends t is (λ v. record m { key = some v }))
        (Leaves-if (length is) (eqb k 2) _ _
          (Leaves-uint64 ends t is (λ v. record m { last_txid = some v }))
          (Leaves-if (length is) (eqb k 3) _ _
            (Leaves-bool ends t is (λ v. record m { recursive = some v }))
            (Leaves-if (length is) (eqb k 4) _ _
              (Leaves-bool ends t is (λ v. record m { historical = some v }))
              (Leaves-unknown ends k t is m.unknown_fields
                (λ fields. record m { unknown_fields = fields })))))

  pub merge_from-NotSpent : (m : WatchReq) (is : Bytes) → NotSpent (merge_from m is)
  unfolding merge_from
  merge_from-NotSpent m is = merge_all-NotSpent ends merge_field m is merge_field-Leaves
