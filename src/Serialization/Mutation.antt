-- ===== src/Serialization/Mutation.antt =====
-- src/serialization.rs: `merge_from`, `compute_size` and `write_to_with_cached_sizes` of `Mutation`.
use rasputin.Prelude.{
  ℕ, Bytes, some, [], refl, arith, length, eqb, if◌then◌else◌, ◌^◌, ◌≡◌, ◌<◌, ◌∷◌,
}
use rasputin.Messages.Mutation.{Mutation, value_of, from_i32, new}
use rasputin.Messages.Version.{new as new_version}
use rasputin.Serialization.Version
use rasputin.Protobuf.{Coding, CodingLaws, WireType, ProtobufResult, done}
use rasputin.Protobuf.Merging.{on_enum, on_bytes, on_message, on_unknown, merge_all}
use rasputin.Protobuf.Sizes.{
  iter, size_each, write_each, message_size, write_message, in_order, Counts, Adds-nothing,
  Adds-unknown, add32, ◌then_adds◌, Adds-Counts, Adds-enum, Adds-bytes, Adds-messages,
}
use rasputin.Protobuf.Ends.{
  CodingEnds, Leaves, NotSpent, Leaves-if, Leaves-enum, Leaves-bytes, Leaves-message,
  Leaves-unknown, merge_all-NotSpent,
}
use rasputin.Protobuf.Rounds.{OptAll}
use rasputin.Protobuf.Fields.{
  Reads-nothing, Reads-unknown, ◌then_reads◌, Reads-merge_all, Reads-enum, Reads-bytes,
  Reads-message,
}

module _ ⦃C : Coding⦄ where
  unfoldable pub merge_field : Mutation → ℕ → WireType → Bytes → ProtobufResult (Mutation × Bytes)
  merge_field m field_number wire_type is =
      if eqb field_number 1
      then on_enum from_i32 wire_type is (λ v. record m { field_type = some v })
      else if eqb field_number 2
      then on_message Version.merge_from new_version wire_type is
          (λ v. record m { version = some v })
      else if eqb field_number 3
      then on_bytes wire_type is (λ v. record m { key = some v })
      else if eqb field_number 4
      then on_bytes wire_type is (λ v. record m { value = some v })
      else if eqb field_number 5
      then on_bytes wire_type is (λ v. record m { old_value = some v })
      else on_unknown field_number wire_type is m.unknown_fields
          (λ fields. record m { unknown_fields = fields })

  unfoldable pub merge_from : Mutation → Bytes → ProtobufResult Mutation
  merge_from m is = merge_all merge_field m is

  unfoldable pub compute_size : Mutation → ℕ
  compute_size m =
      let after_field_type = size_each 0 (iter m.field_type) (λ v. C.enum_size 1 (value_of v)) in
      let after_version =
        size_each after_field_type (iter m.version) (λ v. message_size (Version.compute_size v)) in
      let after_key = size_each after_version (iter m.key) (C.bytes_size 3) in
      let after_value = size_each after_key (iter m.value) (C.bytes_size 4) in
      let after_old_value = size_each after_value (iter m.old_value) (C.bytes_size 5) in
      add32 after_old_value (C.unknown_fields_size m.unknown_fields)

  unfoldable pub write_to_with_cached_sizes : Mutation → Bytes
  write_to_with_cached_sizes m = in_order (
      write_each (iter m.field_type) (λ v. C.write_enum 1 (value_of v))
      ∷ write_each (iter m.version)
          (λ v. write_message 2 (Version.compute_size v) (Version.write_to_with_cached_sizes v))
      ∷ write_each (iter m.key) (C.write_bytes 3)
      ∷ write_each (iter m.value) (C.write_bytes 4)
      ∷ write_each (iter m.old_value) (C.write_bytes 5)
      ∷ C.write_unknown_fields m.unknown_fields
      ∷ [])

-- The numbers are machine words, and no field is unknown, in the messages inside too.
abbrev pub Fits : Mutation → Type 0
Fits m = (OptAll Version.Fits m.version) × (m.unknown_fields ≡ [])

module _ ⦃C : Coding⦄ (laws : CodingLaws C) where
  pub compute_size-write_to_with_cached_sizes :
      (m : Mutation) → Counts (compute_size m) (write_to_with_cached_sizes m)
  unfolding compute_size write_to_with_cached_sizes
  compute_size-write_to_with_cached_sizes m = Adds-Counts (
      Adds-enum laws 1 m.field_type
      then_adds Adds-messages laws 2 (iter m.version) Version.compute_size
          Version.write_to_with_cached_sizes (omega arith, omega arith)
          (Version.compute_size-write_to_with_cached_sizes laws)
      then_adds Adds-bytes laws 3 m.key
      then_adds Adds-bytes laws 4 m.value
      then_adds Adds-bytes laws 5 m.old_value
      then_adds Adds-unknown laws m.unknown_fields
      then_adds Adds-nothing)

  pub merge_from-write_to_with_cached_sizes :
      (m : Mutation)
      → Fits m
      → length (write_to_with_cached_sizes m) < 2 ^ 32
      → merge_from new (write_to_with_cached_sizes m) ≡ done m
  unfolding merge_field merge_from write_to_with_cached_sizes
  merge_from-write_to_with_cached_sizes m fits =
      let with_field_type : Mutation = record new { field_type = m.field_type } in
      let with_version : Mutation = record with_field_type { version = m.version } in
      let with_key : Mutation = record with_version { key = m.key } in
      let with_value : Mutation = record with_key { value = m.value } in
      let with_old_value : Mutation = record with_value { old_value = m.old_value } in
      Reads-merge_all merge_field new m (write_to_with_cached_sizes m) (
        Reads-enum laws merge_field 1 m.field_type (λ o. record new { field_type = o })
          (omega arith, omega arith) (λ _. refl)
        then_reads Reads-message laws merge_field 2 m.version Version.merge_from new_version
            Version.compute_size Version.write_to_with_cached_sizes Version.Fits
            (λ o. record with_field_type { version = o }) (omega arith, omega arith) (λ _. refl)
            (Version.compute_size-write_to_with_cached_sizes laws)
            (Version.merge_from-write_to_with_cached_sizes laws) fits.0
        then_reads Reads-bytes laws merge_field 3 m.key (λ o. record with_version { key = o })
            (omega arith, omega arith) (λ _. refl)
        then_reads Reads-bytes laws merge_field 4 m.value (λ o. record with_key { value = o })
            (omega arith, omega arith) (λ _. refl)
        then_reads Reads-bytes laws merge_field 5 m.old_value
            (λ o. record with_value { old_value = o }) (omega arith, omega arith) (λ _. refl)
        then_reads Reads-unknown laws merge_field m.unknown_fields
            (λ o. record with_old_value { unknown_fields = o }) fits.1
        then_reads Reads-nothing merge_field m)

module _ ⦃C : Coding⦄ (ends : CodingEnds C) where
  merge_field-Leaves :
      (m : Mutation) (field_number : ℕ) (t : WireType) (is : Bytes)
      → Leaves (length is) (merge_field m field_number t is)
  unfolding merge_field
  merge_field-Leaves m k t is =
      Leaves-if (length is) (eqb k 1) _ _
        (Leaves-enum ends from_i32 t is (λ v. record m { field_type = some v }))
        (Leaves-if (length is) (eqb k 2) _ _
          (Leaves-message ends Version.merge_from new_version t is
            (λ v. record m { version = some v }) (Version.merge_from-NotSpent ends))
          (Leaves-if (length is) (eqb k 3) _ _
            (Leaves-bytes ends t is (λ v. record m { key = some v }))
            (Leaves-if (length is) (eqb k 4) _ _
              (Leaves-bytes ends t is (λ v. record m { value = some v }))
              (Leaves-if (length is) (eqb k 5) _ _
                (Leaves-bytes ends t is (λ v. record m { old_value = some v }))
                (Leaves-unknown ends k t is m.unknown_fields
                  (λ fields. record m { unknown_fields = fields }))))))

  pub merge_from-NotSpent : (m : Mutation) (is : Bytes) → NotSpent (merge_from m is)
  unfolding merge_from
  merge_from-NotSpent m is = merge_all-NotSpent ends merge_field m is merge_field-Leaves
