-- ===== src/Serialization/GetRes.antt =====
-- src/serialization.rs: `merge_from`, `compute_size` and `write_to_with_cached_sizes` of `GetRes`.
use rasputin.Prelude.{
  ℕ, Bytes, some, [], refl, arith, length, eqb, if◌then◌else◌, ◌^◌, ◌≡◌, ◌<◌, ◌∷◌,
}
use rasputin.Messages.GetRes.{GetRes, new}
use rasputin.Protobuf.{Coding, CodingLaws, WireType, varint, ProtobufResult, done}
use rasputin.Protobuf.Merging.{on_uint64, on_bool, on_bytes, on_string, on_unknown, merge_all}
use rasputin.Protobuf.Sizes.{
  iter, size_each, write_each, in_order, Counts, Adds-nothing, Adds-unknown, add32, ◌then_adds◌,
  Adds-Counts, Adds-uint64, Adds-bool, Adds-bytes, Adds-string,
}
use rasputin.Protobuf.Ends.{
  CodingEnds, Leaves, NotSpent, Leaves-if, Leaves-uint64, Leaves-bool, Leaves-bytes, Leaves-string,
  Leaves-unknown, merge_all-NotSpent,
}
use rasputin.Protobuf.Rounds.{OptAll}
use rasputin.Protobuf.Fields.{
  Reads-nothing, Reads-unknown, ◌then_reads◌, Reads-merge_all, Reads-uint64, Reads-bool,
  Reads-bytes, Reads-string,
}

module _ ⦃C : Coding⦄ where
  unfoldable pub merge_field : GetRes → ℕ → WireType → Bytes → ProtobufResult (GetRes × Bytes)
  merge_field m field_number wire_type is =
      if eqb field_number 1
      then on_bool wire_type is (λ v. record m { success = some v })
      else if eqb field_number 2
      then on_uint64 wire_type is (λ v. record m { txid = some v })
      else if eqb field_number 3
      then on_bytes wire_type is (λ v. record m { value = some v })
      else if eqb field_number 4
      then on_string wire_type is (λ v. record m { err = some v })
      else on_unknown field_number wire_type is m.unknown_fields
          (λ fields. record m { unknown_fields = fields })

  unfoldable pub merge_from : GetRes → Bytes → ProtobufResult GetRes
  merge_from m is = merge_all merge_field m is

  unfoldable pub compute_size : GetRes → ℕ
  compute_size m =
      let after_success = size_each 0 (iter m.success) (λ v. 2) in
      let after_txid = size_each after_success (iter m.txid) (λ v. C.value_size 2 v varint) in
      let after_value = size_each after_txid (iter m.value) (C.bytes_size 3) in
      let after_err = size_each after_value (iter m.err) (C.string_size 4) in
      add32 after_err (C.unknown_fields_size m.unknown_fields)

  unfoldable pub write_to_with_cached_sizes : GetRes → Bytes
  write_to_with_cached_sizes m = in_order (
      write_each (iter m.success) (C.write_bool 1)
      ∷ write_each (iter m.txid) (C.write_uint64 2)
      ∷ write_each (iter m.value) (C.write_bytes 3)
      ∷ write_each (iter m.err) (C.write_string 4)
      ∷ C.write_unknown_fields m.unknown_fields
      ∷ [])

-- The numbers are machine words, and no field is unknown, in the messages inside too.
abbrev pub Fits : GetRes → Type 0
Fits m = (OptAll (λ v. v < 2 ^ 64) m.txid) × (m.unknown_fields ≡ [])

module _ ⦃C : Coding⦄ (laws : CodingLaws C) where
  pub compute_size-write_to_with_cached_sizes :
      (m : GetRes) → Counts (compute_size m) (write_to_with_cached_sizes m)
  unfolding compute_size write_to_with_cached_sizes
  compute_size-write_to_with_cached_sizes m = Adds-Counts (
      Adds-bool laws 1 m.success (omega arith, omega arith)
      then_adds Adds-uint64 laws 2 m.txid
      then_adds Adds-bytes laws 3 m.value
      then_adds Adds-string laws 4 m.err
      then_adds Adds-unknown laws m.unknown_fields
      then_adds Adds-nothing)

  pub merge_from-write_to_with_cached_sizes :
      (m : GetRes)
      → Fits m
      → length (write_to_with_cached_sizes m) < 2 ^ 32
      → merge_from new (write_to_with_cached_sizes m) ≡ done m
  unfolding merge_field merge_from write_to_with_cached_sizes
  merge_from-write_to_with_cached_sizes m fits =
      let with_success : GetRes = record new { success = m.success } in
      let with_txid : GetRes = record with_success { txid = m.txid } in
      let with_value : GetRes = record with_txid { value = m.value } in
      let with_err : GetRes = record with_value { err = m.err } in
      Reads-merge_all merge_field new m (write_to_with_cached_sizes m) (
        Reads-bool laws merge_field 1 m.success (λ o. record new { success = o })
          (omega arith, omega arith) (λ _. refl)
        then_reads Reads-uint64 laws merge_field 2 m.txid (λ o. record with_success { txid = o })
            (omega arith, omega arith) (λ _. refl) fits.0
        then_reads Reads-bytes laws merge_field 3 m.value (λ o. record with_txid { value = o })
            (omega arith, omega arith) (λ _. refl)
        then_reads Reads-string laws merge_field 4 m.err (λ o. record with_value { err = o })
            (omega arith, omega arith) (λ _. refl)
        then_reads Reads-unknown laws merge_field m.unknown_fields
            (λ o. record with_err { unknown_fields = o }) fits.1
        then_reads Reads-nothing merge_field m)

module _ ⦃C : Coding⦄ (ends : CodingEnds C) where
  merge_field-Leaves :
      (m : GetRes) (field_number : ℕ) (t : WireType) (is : Bytes)
      → Leaves (length is) (merge_field m field_number t is)
  unfolding merge_field
  merge_field-Leaves m k t is =
      Leaves-if (length is) (eqb k 1) _ _
        (Leaves-bool ends t is (λ v. record m { success = some v }))
        (Leaves-if (length is) (eqb k 2) _ _
          (Leaves-uint64 ends t is (λ v. record m { txid = some v }))
          (Leaves-if (length is) (eqb k 3) _ _
            (Leaves-bytes ends t is (λ v. record m { value = some v }))
            (Leaves-if (length is) (eqb k 4) _ _
              (Leaves-string ends t is (λ v. record m { err = some v }))
              (Leaves-unknown ends k t is m.unknown_fields
                (λ fields. record m { unknown_fields = fields })))))

  pub merge_from-NotSpent : (m : GetRes) (is : Bytes) → NotSpent (merge_from m is)
  unfolding merge_from
  merge_from-NotSpent m is = merge_all-NotSpent ends merge_field m is merge_field-Leaves
