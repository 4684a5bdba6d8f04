-- ===== src/Serialization/RedirectRes.antt =====
-- src/serialization.rs: `merge_from`, `compute_size` and `write_to_with_cached_sizes` of `RedirectRes`.
use rasputin.Prelude.{
  ℕ, Bytes, some, [], refl, arith, length, eqb, if◌then◌else◌, ◌^◌, ◌≡◌, ◌<◌, ◌∷◌,
}
use rasputin.Messages.RedirectRes.{RedirectRes, new}
use rasputin.Protobuf.{Coding, CodingLaws, WireType, ProtobufResult, done}
use rasputin.Protobuf.Merging.{on_bool, on_string, on_unknown, merge_all}
use rasputin.Protobuf.Sizes.{
  iter, size_each, write_each, in_order, Counts, Adds-nothing, Adds-unknown, add32, ◌then_adds◌,
  Adds-Counts, Adds-bool, Adds-string,
}
use rasputin.Protobuf.Ends.{
  CodingEnds, Leaves, NotSpent, Leaves-if, Leaves-bool, Leaves-string, Leaves-unknown,
  merge_all-NotSpent,
}
use rasputin.Protobuf.Fields.{
  Reads-nothing, Reads-unknown, ◌then_reads◌, Reads-merge_all, Reads-bool, Reads-string,
}

module _ ⦃C : Coding⦄ where
  unfoldable pub merge_field :
      RedirectRes → ℕ → WireType → Bytes → ProtobufResult (RedirectRes × Bytes)
  merge_field m field_number wire_type is =
      if eqb field_number 1
      then on_bool wire_type is (λ v. record m { success = some v })
      else if eqb field_number 2
      then on_string wire_type is (λ v. record m { address = some v })
      else if eqb field_number 3
      then on_string wire_type is (λ v. record m { err = some v })
      else on_unknown field_number wire_type is m.unknown_fields
          (λ fields. record m { unknown_fields = fields })

  unfoldable pub merge_from : RedirectRes → Bytes → ProtobufResult RedirectRes
  merge_from m is = merge_all merge_field m is

  unfoldable pub compute_size : RedirectRes → ℕ
  compute_size m =
      let after_success = size_each 0 (iter m.success) (λ v. 2) in
      let after_address = size_each after_success (iter m.address) (C.string_size 2) in
      let after_err = size_each after_address (iter m.err) (C.string_size 3) in
      add32 after_err (C.unknown_fields_size m.unknown_fields)

  unfoldable pub write_to_with_cached_sizes : RedirectRes → Bytes
  write_to_with_cached_sizes m = in_order (
      write_each (iter m.success) (C.write_bool 1)
      ∷ write_each (iter m.address) (C.write_string 2)
      ∷ write_each (iter m.err) (C.write_string 3)
      ∷ C.write_unknown_fields m.unknown_fields
      ∷ [])

-- The numbers are machine words, and no field is unknown, in the messages inside too.
abbrev pub Fits : RedirectRes → Type 0
Fits m = m.unknown_fields ≡ []

module _ ⦃C : Coding⦄ (laws : CodingLaws C) where
  pub compute_size-write_to_with_cached_sizes :
      (m : RedirectRes) → Counts (compute_size m) (write_to_with_cached_sizes m)
  unfolding compute_size write_to_with_cached_sizes
  compute_size-write_to_with_cached_sizes m = Adds-Counts (
      Adds-bool laws 1 m.success (omega arith, omega arith)
      then_adds Adds-string laws 2 m.address
      then_adds Adds-string laws 3 m.err
      then_adds Adds-unknown laws m.unknown_fields
      then_adds Adds-nothing)

  pub merge_from-write_to_with_cached_sizes :
      (m : RedirectRes)
      → Fits m
      → length (write_to_with_cached_sizes m) < 2 ^ 32
      → merge_from new (write_to_with_cached_sizes m) ≡ done m
  unfolding merge_field merge_from write_to_with_cached_sizes
  merge_from-write_to_with_cached_sizes m fits =
      let with_success : RedirectRes = record new { success = m.success } in
      let with_address : RedirectRes = record with_success { address = m.address } in
      let with_err : RedirectRes = record with_address { err = m.err } in
      Reads-merge_all merge_field new m (write_to_with_cached_sizes m) (
        Reads-bool laws merge_field 1 m.success (λ o. record new { success = o })
          (omega arith, omega arith) (λ _. refl)
        then_reads Reads-string laws merge_field 2 m.address
            (λ o. record with_success { address = o }) (omega arith, omega arith) (λ _. refl)
        then_reads Reads-string laws merge_field 3 m.err (λ o. record with_address { err = o })
            (omega arith, omega arith) (λ _. refl)
        then_reads Reads-unknown laws merge_field m.unknown_fields
            (λ o. record with_err { unknown_fields = o }) fits
        then_reads Reads-nothing merge_field m)

module _ ⦃C : Coding⦄ (ends : CodingEnds C) where
  merge_field-Leaves :
      (m : RedirectRes) (field_number : ℕ) (t : WireType) (is : Bytes)
      → Leaves (length is) (merge_field m field_number t is)
  unfolding merge_field
  merge_field-Leaves m k t is =
      Leaves-if (length is) (eqb k 1) _ _
        (Leaves-bool ends t is (λ v. record m { success = some v }))
        (Leaves-if (length is) (eqb k 2) _ _
          (Leaves-string ends t is (λ v. record m { address = some v }))
          (Leaves-if (length is) (eqb k 3) _ _
            (Leaves-string ends t is (λ v. record m { err = some v }))
            (Leaves-unknown ends k t is m.unknown_fields
              (λ fields. record m { unknown_fields = fields }))))

  pub merge_from-NotSpent : (m : RedirectRes) (is : Bytes) → NotSpent (merge_from m is)
  unfolding merge_from
  merge_from-NotSpent m is = merge_all-NotSpent ends merge_field m is merge_field-Leaves
