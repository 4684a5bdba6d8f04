-- ===== src/Serialization/VoteReq.antt =====
-- src/serialization.rs: `merge_from`, `compute_size` and `write_to_with_cached_sizes` of `VoteReq`.
use rasputin.Prelude.{
  ℕ, Bytes, some, [], refl, arith, length, eqb, if◌then◌else◌, ◌^◌, ◌≡◌, ◌<◌, ◌∷◌,
}
use rasputin.Messages.VoteReq.{VoteReq, new}
use rasputin.Protobuf.{Coding, CodingLaws, WireType, varint, ProtobufResult, done}
use rasputin.Protobuf.Merging.{on_uint64, on_unknown, merge_all}
use rasputin.Protobuf.Sizes.{
  iter, size_each, write_each, in_order, Counts, Adds-nothing, Adds-unknown, add32, ◌then_adds◌,
  Adds-Counts, Adds-uint64,
}
use rasputin.Protobuf.Ends.{
  CodingEnds, Leaves, NotSpent, Leaves-if, Leaves-uint64, Leaves-unknown, merge_all-NotSpent,
}
use rasputin.Protobuf.Rounds.{OptAll}
use rasputin.Protobuf.Fields.{
  Reads-nothing, Reads-unknown, ◌then_reads◌, Reads-merge_all, Reads-uint64,
}

module _ ⦃C : Coding⦄ where
  unfoldable pub merge_field : VoteReq → ℕ → WireType → Bytes → ProtobufResult (VoteReq × Bytes)
  merge_field m field_number wire_type is =
      if eqb field_number 1
      then on_uint64 wire_type is (λ v. record m { term = some v })
      else if eqb field_number 2
      then on_uint64 wire_type is (λ v. record m { last_learned_term = some v })
      else if eqb field_number 3
      then on_uint64 wire_type is (λ v. record m { last_learned_txid = some v })
      else if eqb field_number 4
      then on_uint64 wire_type is (λ v. record m { last_accepted_term = some v })
      else if eqb field_number 5
      then on_uint64 wire_type is (λ v. record m { last_accepted_txid = some v })
      else on_unknown field_number wire_type is m.unknown_fields
          (λ fields. record m { unknown_fields = fields })

  unfoldable pub merge_from : VoteReq → Bytes → ProtobufResult VoteReq
  merge_from m is = merge_all merge_field m is

  unfoldable pub compute_size : VoteReq → ℕ
  compute_size m =
      let after_term = size_each 0 (iter m.term) (λ v. C.value_size 1 v varint) in
      let after_last_learned_term =
        size_each after_term (iter m.last_learned_term) (λ v. C.value_size 2 v varint) in
      let after_last_learned_txid =
        size_each after_last_learned_term (iter m.last_learned_txid)
          (λ v. C.value_size 3 v varint) in
      let after_last_accepted_term =
        size_each after_last_learned_txid (iter m.last_accepted_term)
          (λ v. C.value_size 4 v varint) in
      let after_last_accepted_txid =
        size_each after_last_accepted_term (iter m.last_accepted_txid)
          (λ v. C.value_size 5 v varint) in
      add32 after_last_accepted_txid (C.unknown_fields_size m.unknown_fields)

  unfoldable pub write_to_with_cached_sizes : VoteReq → Bytes
  write_to_with_cached_sizes m = in_order (
      write_each (iter m.term) (C.write_uint64 1)
      ∷ write_each (iter m.last_learned_term) (C.write_uint64 2)
      ∷ write_each (iter m.last_learned_txid) (C.write_uint64 3)
      ∷ write_each (iter m.last_accepted_term) (C.write_uint64 4)
      ∷ write_each (iter m.last_accepted_txid) (C.write_uint64 5)
      ∷ C.write_unknown_fields m.unknown_fields
      ∷ [])

-- The numbers are machine words, and no field is unknown, in the messages inside too.
abbrev pub Fits : VoteReq → Type 0
Fits m =
    (OptAll (λ v. v < 2 ^ 64) m.term)
    × (OptAll (λ v. v < 2 ^ 64) m.last_learned_term)
    × (OptAll (λ v. v < 2 ^ 64) m.last_learned_txid)
    × (OptAll (λ v. v < 2 ^ 64) m.last_accepted_term)
    × (OptAll (λ v. v < 2 ^ 64) m.last_accepted_txid)
    × (m.unknown_fields ≡ [])

module _ ⦃C : Coding⦄ (laws : CodingLaws C) where
  pub compute_size-write_to_with_cached_sizes :
      (m : VoteReq) → Counts (compute_size m) (write_to_with_cached_sizes m)
  unfolding compute_size write_to_with_cached_sizes
  compute_size-write_to_with_cached_sizes m = Adds-Counts (
      Adds-uint64 laws 1 m.term
      then_adds Adds-uint64 laws 2 m.last_learned_term
      then_adds Adds-uint64 laws 3 m.last_learned_txid
      then_adds Adds-uint64 laws 4 m.last_accepted_term
      then_adds Adds-uint64 laws 5 m.last_accepted_txid
      then_adds Adds-unknown laws m.unknown_fields
      then_adds Adds-nothing)

  pub merge_from-write_to_with_cached_sizes :
      (m : VoteReq)
      → Fits m
      → length (write_to_with_cached_sizes m) < 2 ^ 32
      → merge_from new (write_to_with_cached_sizes m) ≡ done m
  unfolding merge_field merge_from write_to_with_cached_sizes
  merge_from-write_to_with_cached_sizes m fits =
      let with_term : VoteReq = record new { term = m.term } in
      let with_last_learned_term : VoteReq = record with_term {
        last_learned_term = m.last_learned_term;
      } in
      let with_last_learned_txid : VoteReq = record with_last_learned_term {
        last_learned_txid = m.last_learned_txid;
      } in
      let with_last_accepted_term : VoteReq = record with_last_learned_txid {
        last_accepted_term = m.last_accepted_term;
      } in
      let with_last_accepted_txid : VoteReq = record with_last_accepted_term {
        last_accepted_txid = m.last_accepted_txid;
      } in
      Reads-merge_all merge_field new m (write_to_with_cached_sizes m) (
        Reads-uint64 laws merge_field 1 m.term (λ o. record new { term = o })
          (omega arith, omega arith) (λ _. refl) fits.0
        then_reads Reads-uint64 laws merge_field 2 m.last_learned_term
            (λ o. record with_term { last_learned_term = o }) (omega arith, omega arith) (λ _. refl)
            fits.1
        then_reads Reads-uint64 laws merge_field 3 m.last_learned_txid
            (λ o. record with_last_learned_term { last_learned_txid = o })
            (omega arith, omega arith) (λ _. refl) fits.2
        then_reads Reads-uint64 laws merge_field 4 m.last_accepted_term
            (λ o. record with_last_learned_txid { last_accepted_term = o })
            (omega arith, omega arith) (λ _. refl) fits.3
        then_reads Reads-uint64 laws merge_field 5 m.last_accepted_txid
            (λ o. record with_last_accepted_term { last_accepted_txid = o })
            (omega arith, omega arith) (λ _. refl) fits.4
        then_reads Reads-unknown laws merge_field m.unknown_fields
            (λ o. record with_last_accepted_txid { unknown_fields = o }) fits.5
        then_reads Reads-nothing merge_field m)

module _ ⦃C : Coding⦄ (ends : CodingEnds C) where
  merge_field-Leaves :
      (m : VoteReq) (field_number : ℕ) (t : WireType) (is : Bytes)
      → Leaves (length is) (merge_field m field_number t is)
  unfolding merge_field
  merge_field-Leaves m k t is =
      Leaves-if (length is) (eqb k 1) _ _
        (Leaves-uint64 ends t is (λ v. record m { term = some v }))
        (Leaves-if (length is) (eqb k 2) _ _
          (Leaves-uint64 ends t is (λ v. record m { last_learned_term = some v }))
          (Leaves-if (length is) (eqb k 3) _ _
            (Leaves-uint64 ends t is (λ v. record m { last_learned_txid = some v }))
            (Leaves-if (length is) (eqb k 4) _ _
              (Leaves-uint64 ends t is (λ v. record m { last_accepted_term = some v }))
              (Leaves-if (length is) (eqb k 5) _ _
                (Leaves-uint64 ends t is (λ v. record m { last_accepted_txid = some v }))
                (Leaves-unknown ends k t is m.unknown_fields
                  (λ fields. record m { unknown_fields = fields }))))))

  pub merge_from-NotSpent : (m : VoteReq) (is : Bytes) → NotSpent (merge_from m is)
  unfolding merge_from
  merge_from-NotSpent m is = merge_all-NotSpent ends merge_field m is merge_field-Leaves
