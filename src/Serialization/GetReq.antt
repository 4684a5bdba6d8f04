-- ===== src/Serialization/GetReq.antt =====
-- src/serialization.rs: `merge_from`, `compute_size` and `write_to_with_cached_sizes` of `GetReq`.
use rasputin.Prelude.{
  ℕ, Bytes, some, [], refl, arith, length, eqb, if◌then◌else◌, ◌^◌, ◌≡◌, ◌<◌, ◌∷◌,
}
use rasputin.Messages.GetReq.{GetReq, new}
use rasputin.Protobuf.{Coding, CodingLaws, WireType, ProtobufResult, done}
use rasputin.Protobuf.Merging.{on_bytes, on_unknown, merge_all}
use rasputin.Protobuf.Sizes.{
  iter, size_each, write_each, in_order, Counts, Adds-nothing, Adds-unknown, add32, ◌then_adds◌,
  Adds-Counts, Adds-bytes,
}
use rasputin.Protobuf.Ends.{
  CodingEnds, Leaves, NotSpent, Leaves-if, Leaves-bytes, Leaves-unknown, merge_all-NotSpent,
}
use rasputin.Protobuf.Fields.{
  Reads-nothing, Reads-unknown, ◌then_reads◌, Reads-merge_all, Reads-bytes,
}

module _ ⦃C : Coding⦄ where
  unfoldable pub merge_field : GetReq → ℕ → WireType → Bytes → ProtobufResult (GetReq × Bytes)
  merge_field m field_number wire_type is =
      if eqb field_number 1
      then on_bytes wire_type is (λ v. record m { key = some v })
      else on_unknown field_number wire_type is m.unknown_fields
          (λ fields. record m { unknown_fields = fields })

  unfoldable pub merge_from : GetReq → Bytes → ProtobufResult GetReq
  merge_from m is = merge_all merge_field m is

  unfoldable pub compute_size : GetReq → ℕ
  compute_size m =
      let after_key = size_each 0 (iter m.key) (C.bytes_size 1) in
      add32 after_key (C.unknown_fields_size m.unknown_fields)

  unfoldable pub write_to_with_cached_sizes : GetReq → Bytes
  write_to_with_cached_sizes m =
      in_order
        (write_each (iter m.key) (C.write_bytes 1) ∷ C.write_unknown_fields m.unknown_fields ∷ [])

-- The numbers are machine words, and no field is unknown, in the messages inside too.
abbrev pub Fits : GetReq → Type 0
Fits m = m.unknown_fields ≡ []

module _ ⦃C : Coding⦄ (laws : CodingLaws C) where
  pub compute_size-write_to_with_cached_sizes :
      (m : GetReq) → Counts (compute_size m) (write_to_with_cached_sizes m)
  unfolding compute_size write_to_with_cached_sizes
  compute_size-write_to_with_cached_sizes m =
      Adds-Counts (
        Adds-bytes laws 1 m.key then_adds Adds-unknown laws m.unknown_fields then_adds Adds-nothing)

  pub merge_from-write_to_with_cached_sizes :
      (m : GetReq)
      → Fits m
      → length (write_to_with_cached_sizes m) < 2 ^ 32
      → merge_from new (write_to_with_cached_sizes m) ≡ done m
  unfolding merge_field merge_from write_to_with_cached_sizes
  merge_from-write_to_with_cached_sizes m fits =
      let with_key : GetReq = record new { key = m.key } in
      Reads-merge_all merge_field new m (write_to_with_cached_sizes m) (
        Reads-bytes laws merge_field 1 m.key (λ o. record new { key = o })
          (omega arith, omega arith) (λ _. refl)
        then_reads Reads-unknown laws merge_field m.unknown_fields
            (λ o. record with_key { unknown_fields = o }) fits
        then_reads Reads-nothing merge_field m)

module _ ⦃C : Coding⦄ (ends : CodingEnds C) where
  merge_field-Leaves :
      (m : GetReq) (field_number : ℕ) (t : WireType) (is : Bytes)
      → Leaves (length is) (merge_field m field_number t is)
  unfolding merge_field
  merge_field-Leaves m k t is =
      Leaves-if (length is) (eqb k 1) _ _ (Leaves-bytes ends t is (λ v. record m { key = some v }))
        (Leaves-unknown ends k t is m.unknown_fields
          (λ fields. record m { unknown_fields = fields }))

  pub merge_from-NotSpent : (m : GetReq) (is : Bytes) → NotSpent (merge_from m is)
  unfolding merge_from
  merge_from-NotSpent m is = merge_all-NotSpent ends merge_field m is merge_field-Leaves
