-- ===== src/Serialization/PeerMsg.antt =====
-- src/serialization.rs: `merge_from`, `compute_size` and `write_to_with_cached_sizes` of `PeerMsg`.
use rasputin.Prelude.{
  ℕ, Bytes, some, [], refl, arith, length, eqb, if◌then◌else◌, ◌^◌, ◌≡◌, ◌<◌, ◌∷◌,
}
use rasputin.Messages.PeerMsg.{PeerMsg, new}
use rasputin.Messages.Append.{new as new_append}
use rasputin.Messages.AppendRes.{new as new_append_res}
use rasputin.Messages.VoteReq.{new as new_vote_req}
use rasputin.Messages.VoteRes.{new as new_vote_res}
use rasputin.Serialization.Append
use rasputin.Serialization.AppendRes
use rasputin.Serialization.VoteReq
use rasputin.Serialization.VoteRes
use rasputin.Protobuf.{Coding, CodingLaws, WireType, ProtobufResult, done}
use rasputin.Protobuf.Merging.{on_string, on_message, on_unknown, merge_all}
use rasputin.Protobuf.Sizes.{
  iter, size_each, write_each, message_size, write_message, in_order, Counts, Adds-nothing,
  Adds-unknown, add32, ◌then_adds◌, Adds-Counts, Adds-string, Adds-messages,
}
use rasputin.Protobuf.Ends.{
  CodingEnds, Leaves, NotSpent, Leaves-if, Leaves-string, Leaves-message, Leaves-unknown,
  merge_all-NotSpent,
}
use rasputin.Protobuf.Rounds.{OptAll}
use rasputin.Protobuf.Fields.{
  Reads-nothing, Reads-unknown, ◌then_reads◌, Reads-merge_all, Reads-string, Reads-message,
}

module _ ⦃C : Coding⦄ where
  unfoldable pub merge_field : PeerMsg → ℕ → WireType → Bytes → ProtobufResult (PeerMsg × Bytes)
  merge_field m field_number wire_type is =
      if eqb field_number 1
      then on_string wire_type is (λ v. record m { srvid = some v })
      else if eqb field_number 2
      then on_message VoteReq.merge_from new_vote_req wire_type is
          (λ v. record m { vote_req = some v })
      else if eqb field_number 3
      then on_message VoteRes.merge_from new_vote_res wire_type is
          (λ v. record m { vote_res = some v })
      else if eqb field_number 4
      then on_message Append.merge_from new_append wire_type is (λ v. record m { append = some v })
      else if eqb field_number 5
      then on_message AppendRes.merge_from new_append_res wire_type is
          (λ v. record m { append_res = some v })
      else on_unknown field_number wire_type is m.unknown_fields
          (λ fields. record m { unknown_fields = fields })

  unfoldable pub merge_from : PeerMsg → Bytes → ProtobufResult PeerMsg
  merge_from m is = merge_all merge_field m is

  unfoldable pub compute_size : PeerMsg → ℕ
  compute_size m =
      let after_srvid = size_each 0 (iter m.srvid) (C.string_size 1) in
      let after_vote_req =
        size_each after_srvid (iter m.vote_req) (λ v. message_size (VoteReq.compute_size v)) in
      let after_vote_res =
        size_each after_vote_req (iter m.vote_res) (λ v. message_size (VoteRes.compute_size v)) in
      let after_append =
        size_each after_vote_res (iter m.append) (λ v. message_size (Append.compute_size v)) in
      let after_append_res =
        size_each after_append (iter m.append_res) (λ v. message_size (AppendRes.compute_size v)) in
      add32 after_append_res (C.unknown_fields_size m.unknown_fields)

  unfoldable pub write_to_with_cached_sizes : PeerMsg → Bytes
  write_to_with_cached_sizes m = in_order (
      write_each (iter m.srvid) (C.write_string 1)
      ∷ write_each (iter m.vote_req)
          (λ v. write_message 2 (VoteReq.compute_size v) (VoteReq.write_to_with_cached_sizes v))
      ∷ write_each (iter m.vote_res)
          (λ v. write_message 3 (VoteRes.compute_size v) (VoteRes.write_to_with_cached_sizes v))
      ∷ write_each (iter m.append)
          (λ v. write_message 4 (Append.compute_size v) (Append.write_to_with_cached_sizes v))
      ∷ write_each (iter m.append_res)
          (λ v. write_message 5 (AppendRes.compute_size v) (AppendRes.write_to_with_cached_sizes v))
      ∷ C.write_unknown_fields m.unknown_fields
      ∷ [])

-- The numbers are machine words, and no field is unknown, in the messages inside too.
abbrev pub Fits : PeerMsg → Type 0
Fits m =
    (OptAll VoteReq.Fits m.vote_req)
    × (OptAll VoteRes.Fits m.vote_res)
    × (OptAll Append.Fits m.append)
    × (OptAll AppendRes.Fits m.append_res)
    × (m.unknown_fields ≡ [])

module _ ⦃C : Coding⦄ (laws : CodingLaws C) where
  pub compute_size-write_to_with_cached_sizes :
      (m : PeerMsg) → Counts (compute_size m) (write_to_with_cached_sizes m)
  unfolding compute_size write_to_with_cached_sizes
  compute_size-write_to_with_cached_sizes m = Adds-Counts (
      Adds-string laws 1 m.srvid
      then_adds Adds-messages laws 2 (iter m.vote_req) VoteReq.compute_size
          VoteReq.write_to_with_cached_sizes (omega arith, omega arith)
          (VoteReq.compute_size-write_to_with_cached_sizes laws)
      then_adds Adds-messages laws 3 (iter m.vote_res) VoteRes.compute_size
          VoteRes.write_to_with_cached_sizes (omega arith, omega arith)
          (VoteRes.compute_size-write_to_with_cached_sizes laws)
      then_adds Adds-messages laws 4 (iter m.append) Append.compute_size
          Append.write_to_with_cached_sizes (omega arith, omega arith)
          (Append.compute_size-write_to_with_cached_sizes laws)
      then_adds Adds-messages laws 5 (iter m.append_res) AppendRes.compute_size
          AppendRes.write_to_with_cached_sizes (omega arith, omega arith)
          (AppendRes.compute_size-write_to_with_cached_sizes laws)
      then_adds Adds-unknown laws m.unknown_fields
      then_adds Adds-nothing)

  pub merge_from-write_to_with_cached_sizes :
      (m : PeerMsg)
      → Fits m
      → length (write_to_with_cached_sizes m) < 2 ^ 32
      → merge_from new (write_to_with_cached_sizes m) ≡ done m
  unfolding merge_field merge_from write_to_with_cached_sizes
  merge_from-write_to_with_cached_sizes m fits =
      let with_srvid : PeerMsg = record new { srvid = m.srvid } in
      let with_vote_req : PeerMsg = record with_srvid { vote_req = m.vote_req } in
      let with_vote_res : PeerMsg = record with_vote_req { vote_res = m.vote_res } in
      let with_append : PeerMsg = record with_vote_res { append = m.append } in
      let with_append_res : PeerMsg = record with_append { append_res = m.append_res } in
      Reads-merge_all merge_field new m (write_to_with_cached_sizes m) (
        Reads-string laws merge_field 1 m.srvid (λ o. record new { srvid = o })
          (omega arith, omega arith) (λ _. refl)
        then_reads Reads-message laws merge_field 2 m.vote_req VoteReq.merge_from new_vote_req
            VoteReq.compute_size VoteReq.write_to_with_cached_sizes VoteReq.Fits
            (λ o. record with_srvid { vote_req = o }) (omega arith, omega arith) (λ _. refl)
            (VoteReq.compute_size-write_to_with_cached_sizes laws)
            (VoteReq.merge_from-write_to_with_cached_sizes laws) fits.0
        then_reads Reads-message laws merge_field 3 m.vote_res VoteRes.merge_from new_vote_res
            VoteRes.compute_size VoteRes.write_to_with_cached_sizes VoteRes.Fits
            (λ o. record with_vote_req { vote_res = o }) (omega arith, omega arith) (λ _. refl)
            (VoteRes.compute_size-write_to_with_cached_sizes laws)
            (VoteRes.merge_from-write_to_with_cached_sizes laws) fits.1
        then_reads Reads-message laws merge_field 4 m.append Append.merge_from new_append
            Append.compute_size Append.write_to_with_cached_sizes Append.Fits
            (λ o. record with_vote_res { append = o }) (omega arith, omega arith) (λ _. refl)
            (Append.compute_size-write_to_with_cached_sizes laws)
            (Append.merge_from-write_to_with_cached_sizes laws) fits.2
        then_reads Reads-message laws merge_field 5 m.append_res AppendRes.merge_from new_append_res
            AppendRes.compute_size AppendRes.write_to_with_cached_sizes AppendRes.Fits
            (λ o. record with_append { append_res = o }) (omega arith, omega arith) (λ _. refl)
            (AppendRes.compute_size-write_to_with_cached_sizes laws)
            (AppendRes.merge_from-write_to_with_cached_sizes laws) fits.3
        then_reads Reads-unknown laws merge_field m.unknown_fields
            (λ o. record with_append_res { unknown_fields = o }) fits.4
        then_reads Reads-nothing merge_field m)

module _ ⦃C : Coding⦄ (ends : CodingEnds C) where
  merge_field-Leaves :
      (m : PeerMsg) (field_number : ℕ) (t : WireType) (is : Bytes)
      → Leaves (length is) (merge_field m field_number t is)
  unfolding merge_field
  merge_field-Leaves m k t is =
      Leaves-if (length is) (eqb k 1) _ _
        (Leaves-string ends t is (λ v. record m { srvid = some v }))
        (Leaves-if (length is) (eqb k 2) _ _
          (Leaves-message ends VoteReq.merge_from new_vote_req t is
            (λ v. record m { vote_req = some v }) (VoteReq.merge_from-NotSpent ends))
          (Leaves-if (length is) (eqb k 3) _ _
            (Leaves-message ends VoteRes.merge_from new_vote_res t is
              (λ v. record m { vote_res = some v }) (VoteRes.merge_from-NotSpent ends))
            (Leaves-if (length is) (eqb k 4) _ _
              (Leaves-message ends Append.merge_from new_append t is
                (λ v. record m { append = some v }) (Append.merge_from-NotSpent ends))
              (Leaves-if (length is) (eqb k 5) _ _
                (Leaves-message ends AppendRes.merge_from new_append_res t is
                  (λ v. record m { append_res = some v }) (AppendRes.merge_from-NotSpent ends))
                (Leaves-unknown ends k t is m.unknown_fields
                  (λ fields. record m { unknown_fields = fields }))))))

  pub merge_from-NotSpent : (m : PeerMsg) (is : Bytes) → NotSpent (merge_from m is)
  unfolding merge_from
  merge_from-NotSpent m is = merge_all-NotSpent ends merge_field m is merge_field-Leaves
