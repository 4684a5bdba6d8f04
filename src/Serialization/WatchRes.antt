-- ===== src/Serialization/WatchRes.antt =====
-- src/serialization.rs: `merge_from`, `compute_size` and `write_to_with_cached_sizes` of `WatchRes`.
use rasputin.Prelude.{
  ℕ, Bytes, some, [], refl, arith, length, eqb, if◌then◌else◌, ◌^◌, ◌≡◌, ◌<◌, ◌∷◌,
}
use rasputin.Messages.WatchRes.{WatchRes, new}
use rasputin.Messages.Mutation.{new as new_mutation}
use rasputin.Serialization.Mutation
use rasputin.Protobuf.{Coding, CodingLaws, WireType, ProtobufResult, done}
use rasputin.Protobuf.Merging.{on_bool, on_string, on_repeated, on_unknown, merge_all}
use rasputin.Protobuf.Sizes.{
  iter, size_each, write_each, message_size, write_message, in_order, Counts, Adds-nothing,
  Adds-unknown, add32, ◌then_adds◌, Adds-Counts, Adds-bool, Adds-string, Adds-messages,
}
use rasputin.Protobuf.Ends.{
  CodingEnds, Leaves, NotSpent, Leaves-if, Leaves-bool, Leaves-string, Leaves-repeated,
  Leaves-unknown, merge_all-NotSpent,
}
use rasputin.Protobuf.Rounds.{All}
use rasputin.Protobuf.Fields.{
  Reads-nothing, Reads-unknown, ◌then_reads◌, Reads-merge_all, Reads-bool, Reads-string,
  Reads-repeated,
}

module _ ⦃C : Coding⦄ where
  unfoldable pub merge_field : WatchRes → ℕ → WireType → Bytes → ProtobufResult (WatchRes × Bytes)
  merge_field m field_number wire_type is =
      if eqb field_number 1
      then on_bool wire_type is (λ v. record m { success = some v })
      else if eqb field_number 2
      then on_repeated Mutation.merge_from new_mutation m.history wire_type is
          (λ v. record m { history = v })
      else if eqb field_number 3
      then on_string wire_type is (λ v. record m { err = some v })
      else on_unknown field_number wire_type is m.unknown_fields
          (λ fields. record m { unknown_fields = fields })

  unfoldable pub merge_from : WatchRes → Bytes → ProtobufResult WatchRes
  merge_from m is = merge_all merge_field m is

  unfoldable pub compute_size : WatchRes → ℕ
  compute_size m =
      let after_success = size_each 0 (iter m.success) (λ v. 2) in
      let after_history =
        size_each after_success m.history (λ v. message_size (Mutation.compute_size v)) in
      let after_err = size_each after_history (iter m.err) (C.string_size 3) in
      add32 after_err (C.unknown_fields_size m.unknown_fields)

  unfoldable pub write_to_with_cached_sizes : WatchRes → Bytes
  write_to_with_cached_sizes m = in_order (
      write_each (iter m.success) (C.write_bool 1)
      ∷ write_each m.history
          (λ v. write_message 2 (Mutation.compute_size v) (Mutation.write_to_with_cached_sizes v))
      ∷ write_each (iter m.err) (C.write_string 3)
      ∷ C.write_unknown_fields m.unknown_fields
      ∷ [])

-- The numbers are machine words, and no field is unknown, in the messages inside too.
abbrev pub Fits : WatchRes → Type 0
Fits m = (All Mutation.Fits m.history) × (m.unknown_fields ≡ [])

module _ ⦃C : Coding⦄ (laws : CodingLaws C) where
  pub compute_size-write_to_with_cached_sizes :
      (m : WatchRes) → Counts (compute_size m) (write_to_with_cached_sizes m)
  unfolding compute_size write_to_with_cached_sizes
  compute_size-write_to_with_cached_sizes m = Adds-Counts (
      Adds-bool laws 1 m.success (omega arith, omega arith)
      then_adds Adds-messages laws 2 m.history Mutation.compute_size
          Mutation.write_to_with_cached_sizes (omega arith, omega arith)
          (Mutation.compute_size-write_to_with_cached_sizes laws)
      then_adds Adds-string laws 3 m.err
      then_adds Adds-unknown laws m.unknown_fields
      then_adds Adds-nothing)

  pub merge_from-write_to_with_cached_sizes :
      (m : WatchRes)
      → Fits m
      → length (write_to_with_cached_sizes m) < 2 ^ 32
      → merge_from new (write_to_with_cached_sizes m) ≡ done m
  unfolding merge_field merge_from write_to_with_cached_sizes
  merge_from-write_to_with_cached_sizes m fits =
      let with_success : WatchRes = record new { success = m.success } in
      let with_history : WatchRes = record with_success { history = m.history } in
      let with_err : WatchRes = record with_history { err = m.err } in
      Reads-merge_all merge_field new m (write_to_with_cached_sizes m) (
        Reads-bool laws merge_field 1 m.success (λ o. record new { success = o })
          (omega arith, omega arith) (λ _. refl)
        then_reads Reads-repeated laws merge_field 2 m.history Mutation.merge_from new_mutation
            Mutation.compute_size Mutation.write_to_with_cached_sizes Mutation.Fits
            (λ o. record with_success { history = o }) (omega arith, omega arith) (λ _ _. refl)
            (Mutation.compute_size-write_to_with_cached_sizes laws)
            (Mutation.merge_from-write_to_with_cached_sizes laws) fits.0
        then_reads Reads-string laws merge_field 3 m.err (λ o. record with_history { err = o })
            (omega arith, omega arith) (λ _. refl)
        then_reads Reads-unknown laws merge_field m.unknown_fields
            (λ o. record with_err { unknown_fields = o }) fits.1
        then_reads Reads-nothing merge_field m)

module _ ⦃C : Coding⦄ (ends : CodingEnds C) where
  merge_field-Leaves :
      (m : WatchRes) (field_number : ℕ) (t : WireType) (is : Bytes)
      → Leaves (length is) (merge_field m field_number t is)
  unfolding merge_field
  merge_field-Leaves m k t is =
      Leaves-if (length is) (eqb k 1) _ _
        (Leaves-bool ends t is (λ v. record m { success = some v }))
        (Leaves-if (length is) (eqb k 2) _ _
          (Leaves-repeated ends Mutation.merge_from new_mutation m.history t is
            (λ v. record m { history = v }) (Mutation.merge_from-NotSpent ends))
          (Leaves-if (length is) (eqb k 3) _ _
            (Leaves-string ends t is (λ v. record m { err = some v }))
            (Leaves-unknown ends k t is m.unknown_fields
              (λ fields. record m { unknown_fields = fields }))))

  pub merge_from-NotSpent : (m : WatchRes) (is : Bytes) → NotSpent (merge_from m is)
  unfolding merge_from
  merge_from-NotSpent m is = merge_all-NotSpent ends merge_field m is merge_field-Leaves
