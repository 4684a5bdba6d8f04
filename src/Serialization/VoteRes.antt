-- ===== src/Serialization/VoteRes.antt =====
-- src/serialization.rs: `merge_from`, `compute_size` and `write_to_with_cached_sizes` of `VoteRes`.
use rasputin.Prelude.{
  ℕ, Bytes, some, [], refl, arith, length, eqb, if◌then◌else◌, ◌^◌, ◌≡◌, ◌<◌, ◌∷◌,
}
use rasputin.Messages.VoteRes.{VoteRes, new}
use rasputin.Protobuf.{Coding, CodingLaws, WireType, varint, ProtobufResult, done}
use rasputin.Protobuf.Merging.{on_uint64, on_bool, on_unknown, merge_all}
use rasputin.Protobuf.Sizes.{
  iter, size_each, write_each, in_order, Counts, Adds-nothing, Adds-unknown, add32, ◌then_adds◌,
  Adds-Counts, Adds-uint64, Adds-bool,
}
use rasputin.Protobuf.Ends.{
  CodingEnds, Leaves, NotSpent, Leaves-if, Leaves-uint64, Leaves-bool, Leaves-unknown,
  merge_all-NotSpent,
}
use rasputin.Protobuf.Rounds.{OptAll}
use rasputin.Protobuf.Fields.{
  Reads-nothing, Reads-unknown, ◌then_reads◌, Reads-merge_all, Reads-uint64, Reads-bool,
}

module _ ⦃C : Coding⦄ where
  unfoldable pub merge_field : VoteRes → ℕ → WireType → Bytes → ProtobufResult (VoteRes × Bytes)
  merge_field m field_number wire_type is =
      if eqb field_number 1
      then on_bool wire_type is (λ v. record m { success = some v })
      else if eqb field_number 2
      then on_uint64 wire_type is (λ v. record m { term = some v })
      else on_unknown field_number wire_type is m.unknown_fields
          (λ fields. record m { unknown_fields = fields })

  unfoldable pub merge_from : VoteRes → Bytes → ProtobufResult VoteRes
  merge_from m is = merge_all merge_field m is

  unfoldable pub compute_size : VoteRes → ℕ
  compute_size m =
      let after_success = size_each 0 (iter m.success) (λ v. 2) in
      let after_term = size_each after_success (iter m.term) (λ v. C.value_size 2 v varint) in
      add32 after_term (C.unknown_fields_size m.unknown_fields)

  unfoldable pub write_to_with_cached_sizes : VoteRes → Bytes
  write_to_with_cached_sizes m = in_order (
      write_each (iter m.success) (C.write_bool 1)
      ∷ write_each (iter m.term) (C.write_uint64 2)
      ∷ C.write_unknown_fields m.unknown_fields
      ∷ [])

-- The numbers are machine words, and no field is unknown, in the messages inside too.
abbrev pub Fits : VoteRes → Type 0
Fits m = (OptAll (λ v. v < 2 ^ 64) m.term) × (m.unknown_fields ≡ [])

module _ ⦃C : Coding⦄ (laws : CodingLaws C) where
  pub compute_size-write_to_with_cached_sizes :
      (m : VoteRes) → Counts (compute_size m) (write_to_with_cached_sizes m)
  unfolding compute_size write_to_with_cached_sizes
  compute_size-write_to_with_cached_sizes m = Adds-Counts (
      Adds-bool laws 1 m.success (omega arith, omega arith)
      then_adds Adds-uint64 laws 2 m.term
      then_adds Adds-unknown laws m.unknown_fields
      then_adds Adds-nothing)

  pub merge_from-write_to_with_cached_sizes :
      (m : VoteRes)
      → Fits m
      → length (write_to_with_cached_sizes m) < 2 ^ 32
      → merge_from new (write_to_with_cached_sizes m) ≡ done m
  unfolding merge_field merge_from write_to_with_cached_sizes
  merge_from-write_to_with_cached_sizes m fits =
      let with_success : VoteRes = record new { success = m.success } in
      let with_term : VoteRes = record with_success { term = m.term } in
      Reads-merge_all merge_field new m (write_to_with_cached_sizes m) (
        Reads-bool laws merge_field 1 m.success (λ o. record new { success = o })
          (omega arith, omega arith) (λ _. refl)
        then_reads Reads-uint64 laws merge_field 2 m.term (λ o. record with_success { term = o })
            (omega arith, omega arith) (λ _. refl) fits.0
        then_reads Reads-unknown laws merge_field m.unknown_fields
            (λ o. record with_term { unknown_fields = o }) fits.1
        then_reads Reads-nothing merge_field m)

module _ ⦃C : Coding⦄ (ends : CodingEnds C) where
  merge_field-Leaves :
      (m : VoteRes) (field_number : ℕ) (t : WireType) (is : Bytes)
      → Leaves (length is) (merge_field m field_number t is)
  unfolding merge_field
  merge_field-Leaves m k t is =
      Leaves-if (length is) (eqb k 1) _ _
        (Leaves-bool ends t is (λ v. record m { success = some v }))
        (Leaves-if (length is) (eqb k 2) _ _
          (Leaves-uint64 ends t is (λ v. record m { term = some v }))
          (Leaves-unknown ends k t is m.unknown_fields
            (λ fields. record m { unknown_fields = fields })))

  pub merge_from-NotSpent : (m : VoteRes) (is : Bytes) → NotSpent (merge_from m is)
  unfolding merge_from
  merge_from-NotSpent m is = merge_all-NotSpent ends merge_field m is merge_field-Leaves
