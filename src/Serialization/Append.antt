-- ===== src/Serialization/Append.antt =====
-- src/serialization.rs: `merge_from`, `compute_size` and `write_to_with_cached_sizes` of `Append`.
use rasputin.Prelude.{
  ℕ, Bytes, some, [], refl, arith, length, eqb, if◌then◌else◌, ◌^◌, ◌≡◌, ◌<◌, ◌∷◌,
}
use rasputin.Messages.Append.{Append, new}
use rasputin.Messages.Mutation.{new as new_mutation}
use rasputin.Serialization.Mutation
use rasputin.Protobuf.{Coding, CodingLaws, WireType, varint, ProtobufResult, done}
use rasputin.Protobuf.Merging.{on_uint64, on_repeated, on_unknown, merge_all}
use rasputin.Protobuf.Sizes.{
  iter, size_each, write_each, message_size, write_message, in_order, Counts, Adds-nothing,
  Adds-unknown, add32, ◌then_adds◌, Adds-Counts, Adds-uint64, Adds-messages,
}
use rasputin.Protobuf.Ends.{
  CodingEnds, Leaves, NotSpent, Leaves-if, Leaves-uint64, Leaves-repeated, Leaves-unknown,
  merge_all-NotSpent,
}
use rasputin.Protobuf.Rounds.{OptAll, All}
use rasputin.Protobuf.Fields.{
  Reads-nothing, Reads-unknown, ◌then_reads◌, Reads-merge_all, Reads-uint64, Reads-repeated,
}

module _ ⦃C : Coding⦄ where
  unfoldable pub merge_field : Append → ℕ → WireType → Bytes → ProtobufResult (Append × Bytes)
  merge_field m field_number wire_type is =
      if eqb field_number 1
      then on_uint64 wire_type is (λ v. record m { from_txid = some v })
      else if eqb field_number 2
      then on_uint64 wire_type is (λ v. record m { from_term = some v })
      else if eqb field_number 3
      then on_repeated Mutation.merge_from new_mutation m.batch wire_type is
          (λ v. record m { batch = v })
      else if eqb field_number 4
      then on_uint64 wire_type is (λ v. record m { last_learned_txid = some v })
      else on_unknown field_number wire_type is m.unknown_fields
          (λ fields. record m { unknown_fields = fields })

  unfoldable pub merge_from : Append → Bytes → ProtobufResult Append
  merge_from m is = merge_all merge_field m is

  unfoldable pub compute_size : Append → ℕ
  compute_size m =
      let after_from_txid = size_each 0 (iter m.from_txid) (λ v. C.value_size 1 v varint) in
      let after_from_term =
        size_each after_from_txid (iter m.from_term) (λ v. C.value_size 2 v varint) in
      let after_batch =
        size_each after_from_term m.batch (λ v. message_size (Mutation.compute_size v)) in
      let after_last_learned_txid =
        size_each after_batch (iter m.last_learned_txid) (λ v. C.value_size 4 v varint) in
      add32 after_last_learned_txid (C.unknown_fields_size m.unknown_fields)

  unfoldable pub write_to_with_cached_sizes : Append → Bytes
  write_to_with_cached_sizes m = in_order (
      write_each (iter m.from_txid) (C.write_uint64 1)
      ∷ write_each (iter m.from_term) (C.write_uint64 2)
      ∷ write_each m.batch
          (λ v. write_message 3 (Mutation.compute_size v) (Mutation.write_to_with_cached_sizes v))
      ∷ write_each (iter m.last_learned_txid) (C.write_uint64 4)
      ∷ C.write_unknown_fields m.unknown_fields
      ∷ [])

-- The numbers are machine words, and no field is unknown, in the messages inside too.
abbrev pub Fits : Append → Type 0
Fits m =
    (OptAll (λ v. v < 2 ^ 64) m.from_txid)
    × (OptAll (λ v. v < 2 ^ 64) m.from_term)
    × (All Mutation.Fits m.batch)
    × (OptAll (λ v. v < 2 ^ 64) m.last_learned_txid)
    × (m.unknown_fields ≡ [])

module _ ⦃C : Coding⦄ (laws : CodingLaws C) where
  pub compute_size-write_to_with_cached_sizes :
      (m : Append) → Counts (compute_size m) (write_to_with_cached_sizes m)
  unfolding compute_size write_to_with_cached_sizes
  compute_size-write_to_with_cached_sizes m = Adds-Counts (
      Adds-uint64 laws 1 m.from_txid
      then_adds Adds-uint64 laws 2 m.from_term
      then_adds Adds-messages laws 3 m.batch Mutation.compute_size
          Mutation.write_to_with_cached_sizes (omega arith, omega arith)
          (Mutation.compute_size-write_to_with_cached_sizes laws)
      then_adds Adds-uint64 laws 4 m.last_learned_txid
      then_adds Adds-unknown laws m.unknown_fields
      then_adds Adds-nothing)

  pub merge_from-write_to_with_cached_sizes :
      (m : Append)
      → Fits m
      → length (write_to_with_cached_sizes m) < 2 ^ 32
      → merge_from new (write_to_with_cached_sizes m) ≡ done m
  unfolding merge_field merge_from write_to_with_cached_sizes
  merge_from-write_to_with_cached_sizes m fits =
      let with_from_txid : Append = record new { from_txid = m.from_txid } in
      let with_from_term : Append = record with_from_txid { from_term = m.from_term } in
      let with_batch : Append = record with_from_term { batch = m.batch } in
      let with_last_learned_txid : Append = record with_batch {
        last_learned_txid = m.last_learned_txid;
      } in
      Reads-merge_all merge_field new m (write_to_with_cached_sizes m) (
        Reads-uint64 laws merge_field 1 m.from_txid (λ o. record new { from_txid = o })
          (omega arith, omega arith) (λ _. refl) fits.0
        then_reads Reads-uint64 laws merge_field 2 m.from_term
            (λ o. record with_from_txid { from_term = o }) (omega arith, omega arith) (λ _. refl)
            fits.1
        then_reads Reads-repeated laws merge_field 3 m.batch Mutation.merge_from new_mutation
            Mutation.compute_size Mutation.write_to_with_cached_sizes Mutation.Fits
            (λ o. record with_from_term { batch = o }) (omega arith, omega arith) (λ _ _. refl)
            (Mutation.compute_size-write_to_with_cached_sizes laws)
            (Mutation.merge_from-write_to_with_cached_sizes laws) fits.2
        then_reads Reads-uint64 laws merge_field 4 m.last_learned_txid
            (λ o. record with_batch { last_learned_txid = o }) (omega arith, omega arith)
            (λ _. refl) fits.3
        then_reads Reads-unknown laws merge_field m.unknown_fields
            (λ o. record with_last_learned_txid { unknown_fields = o }) fits.4
        then_reads Reads-nothing merge_field m)

module _ ⦃C : Coding⦄ (ends : CodingEnds C) where
  merge_field-Leaves :
      (m : Append) (field_number : ℕ) (t : WireType) (is : Bytes)
      → Leaves (length is) (merge_field m field_number t is)
  unfolding merge_field
  merge_field-Leaves m k t is =
      Leaves-if (length is) (eqb k 1) _ _
        (Leaves-uint64 ends t is (λ v. record m { from_txid = some v }))
        (Leaves-if (length is) (eqb k 2) _ _
          (Leaves-uint64 ends t is (λ v. record m { from_term = some v }))
          (Leaves-if (length is) (eqb k 3) _ _
            (Leaves-repeated ends Mutation.merge_from new_mutation m.batch t is
              (λ v. record m { batch = v }) (Mutation.merge_from-NotSpent ends))
            (Leaves-if (length is) (eqb k 4) _ _
              (Leaves-uint64 ends t is (λ v. record m { last_learned_txid = some v }))
              (Leaves-unknown ends k t is m.unknown_fields
                (λ fields. record m { unknown_fields = fields })))))

  pub merge_from-NotSpent : (m : Append) (is : Bytes) → NotSpent (merge_from m is)
  unfolding merge_from
  merge_from-NotSpent m is = merge_all-NotSpent ends merge_field m is merge_field-Leaves
