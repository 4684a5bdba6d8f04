-- ===== src/Serialization/AppendRes.antt =====
-- src/serialization.rs: `merge_from`, `compute_size` and `write_to_with_cached_sizes` of `AppendRes`.
use rasputin.Prelude.{
  ℕ, Bytes, some, [], refl, arith, length, eqb, if◌then◌else◌, ◌^◌, ◌≡◌, ◌<◌, ◌∷◌,
}
use rasputin.Messages.AppendRes.{AppendRes, new}
use rasputin.Protobuf.{Coding, CodingLaws, WireType, varint, ProtobufResult, done}
use rasputin.Protobuf.Merging.{on_uint64, on_bool, on_unknown, merge_all}
use rasputin.Protobuf.Sizes.{
  iter, size_each, write_each, in_order, Counts, Adds-nothing, Adds-unknown, add32, ◌then_adds◌,
  Adds-Counts, Adds-uint64, Adds-bool,
}
use rasputin.Protobuf.Ends.{
  CodingEnds, Leaves, NotSpent, Leaves-if, Leaves-uint64, Leaves-bool, Leaves-unknown,
  merge_all-NotSpent,
}
use rasputin.Protobuf.Rounds.{OptAll}
use rasputin.Protobuf.Fields.{
  Reads-nothing, Reads-unknown, ◌then_reads◌, Reads-merge_all, Reads-uint64, Reads-bool,
}

module _ ⦃C : Coding⦄ where
  unfoldable pub merge_field : AppendRes → ℕ → WireType → Bytes → ProtobufResult (AppendRes × Bytes)
  merge_field m field_number wire_type is =
      if eqb field_number 1
      then on_bool wire_type is (λ v. record m { accepted = some v })
      else if eqb field_number 2
      then on_uint64 wire_type is (λ v. record m { last_accepted_txid = some v })
      else if eqb field_number 3
      then on_uint64 wire_type is (λ v. record m { last_accepted_term = some v })
      else on_unknown field_number wire_type is m.unknown_fields
          (λ fields. record m { unknown_fields = fields })

  unfoldable pub merge_from : AppendRes → Bytes → ProtobufResult AppendRes
  merge_from m is = merge_all merge_field m is

  unfoldable pub compute_size : AppendRes → ℕ
  compute_size m =
      let after_accepted = size_each 0 (iter m.accepted) (λ v. 2) in
      let after_last_accepted_txid =
        size_each after_accepted (iter m.last_accepted_txid) (λ v. C.value_size 2 v varint) in
      let after_last_accepted_term =
        size_each after_last_accepted_txid (iter m.last_accepted_term)
          (λ v. C.value_size 3 v varint) in
      add32 after_last_accepted_term (C.unknown_fields_size m.unknown_fields)

  unfoldable pub write_to_with_cached_sizes : AppendRes → Bytes
  write_to_with_cached_sizes m = in_order (
      write_each (iter m.accepted) (C.write_bool 1)
      ∷ write_each (iter m.last_accepted_txid) (C.write_uint64 2)
      ∷ write_each (iter m.last_accepted_term) (C.write_uint64 3)
      ∷ C.write_unknown_fields m.unknown_fields
      ∷ [])

-- The numbers are machine words, and no field is unknown, in the messages inside too.
abbrev pub Fits : AppendRes → Type 0
Fits m =
    (OptAll (λ v. v < 2 ^ 64) m.last_accepted_txid)
    × (OptAll (λ v. v < 2 ^ 64) m.last_accepted_term)
    × (m.unknown_fields ≡ [])

module _ ⦃C : Coding⦄ (laws : CodingLaws C) where
  pub compute_size-write_to_with_cached_sizes :
      (m : AppendRes) → Counts (compute_size m) (write_to_with_cached_sizes m)
  unfolding compute_size write_to_with_cached_sizes
  compute_size-write_to_with_cached_sizes m = Adds-Counts (
      Adds-bool laws 1 m.accepted (omega arith, omega arith)
      then_adds Adds-uint64 laws 2 m.last_accepted_txid
      then_adds Adds-uint64 laws 3 m.last_accepted_term
      then_adds Adds-unknown laws m.unknown_fields
      then_adds Adds-nothing)

  pub merge_from-write_to_with_cached_sizes :
      (m : AppendRes)
      → Fits m
      → length (write_to_with_cached_sizes m) < 2 ^ 32
      → merge_from new (write_to_with_cached_sizes m) ≡ done m
  unfolding merge_field merge_from write_to_with_cached_sizes
  merge_from-write_to_with_cached_sizes m fits =
      let with_accepted : AppendRes = record new { accepted = m.accepted } in
      let with_last_accepted_txid : AppendRes = record with_accepted {
        last_accepted_txid = m.last_accepted_txid;
      } in
      let with_last_accepted_term : AppendRes = record with_last_accepted_txid {
        last_accepted_term = m.last_accepted_term;
      } in
      Reads-merge_all merge_field new m (write_to_with_cached_sizes m) (
        Reads-bool laws merge_field 1 m.accepted (λ o. record new { accepted = o })
          (omega arith, omega arith) (λ _. refl)
        then_reads Reads-uint64 laws merge_field 2 m.last_accepted_txid
            (λ o. record with_accepted { last_accepted_txid = o }) (omega arith, omega arith)
            (λ _. refl) fits.0
        then_reads Reads-uint64 laws merge_field 3 m.last_accepted_term
            (λ o. record with_last_accepted_txid { last_accepted_term = o })
            (omega arith, omega arith) (λ _. refl) fits.1
        then_reads Reads-unknown laws merge_field m.unknown_fields
            (λ o. record with_last_accepted_term { unknown_fields = o }) fits.2
        then_reads Reads-nothing merge_field m)

module _ ⦃C : Coding⦄ (ends : CodingEnds C) where
  merge_field-Leaves :
      (m : AppendRes) (field_number : ℕ) (t : WireType) (is : Bytes)
      → Leaves (length is) (merge_field m field_number t is)
  unfolding merge_field
  merge_field-Leaves m k t is =
      Leaves-if (length is) (eqb k 1) _ _
        (Leaves-bool ends t is (λ v. record m { accepted = some v }))
        (Leaves-if (length is) (eqb k 2) _ _
          (Leaves-uint64 ends t is (λ v. record m { last_accepted_txid = some v }))
          (Leaves-if (length is) (eqb k 3) _ _
            (Leaves-uint64 ends t is (λ v. record m { last_accepted_term = some v }))
            (Leaves-unknown ends k t is m.unknown_fields
              (λ fields. record m { unknown_fields = fields }))))

  pub merge_from-NotSpent : (m : AppendRes) (is : Bytes) → NotSpent (merge_from m is)
  unfolding merge_from
  merge_from-NotSpent m is = merge_all-NotSpent ends merge_field m is merge_field-Leaves
