-- ===== src/Serialization/CliReq.antt =====
-- src/serialization.rs: `merge_from`, `compute_size` and `write_to_with_cached_sizes` of `CliReq`.
use rasputin.Prelude.{
  ℕ, Bytes, some, [], refl, arith, length, eqb, if◌then◌else◌, ◌^◌, ◌≡◌, ◌<◌, ◌∷◌,
}
use rasputin.Messages.CliReq.{CliReq, new}
use rasputin.Messages.CasReq.{new as new_cas_req}
use rasputin.Messages.DelReq.{new as new_del_req}
use rasputin.Messages.GetReq.{new as new_get_req}
use rasputin.Messages.SetReq.{new as new_set_req}
use rasputin.Messages.WatchReq.{new as new_watch_req}
use rasputin.Serialization.CasReq
use rasputin.Serialization.DelReq
use rasputin.Serialization.GetReq
use rasputin.Serialization.SetReq
use rasputin.Serialization.WatchReq
use rasputin.Protobuf.{Coding, CodingLaws, WireType, varint, ProtobufResult, done}
use rasputin.Protobuf.Merging.{on_uint64, on_message, on_unknown, merge_all}
use rasputin.Protobuf.Sizes.{
  iter, size_each, write_each, message_size, write_message, in_order, Counts, Adds-nothing,
  Adds-unknown, add32, ◌then_adds◌, Adds-Counts, Adds-uint64, Adds-messages,
}
use rasputin.Protobuf.Ends.{
  CodingEnds, Leaves, NotSpent, Leaves-if, Leaves-uint64, Leaves-message, Leaves-unknown,
  merge_all-NotSpent,
}
use rasputin.Protobuf.Rounds.{OptAll}
use rasputin.Protobuf.Fields.{
  Reads-nothing, Reads-unknown, ◌then_reads◌, Reads-merge_all, Reads-uint64, Reads-message,
}

module _ ⦃C : Coding⦄ where
  unfoldable pub merge_field : CliReq → ℕ → WireType → Bytes → ProtobufResult (CliReq × Bytes)
  merge_field m field_number wire_type is =
      if eqb field_number 1
      then on_uint64 wire_type is (λ v. record m { req_id = some v })
      else if eqb field_number 2
      then on_message GetReq.merge_from new_get_req wire_type is (λ v. record m { get = some v })
      else if eqb field_number 3
      then on_message SetReq.merge_from new_set_req wire_type is (λ v. record m { set = some v })
      else if eqb field_number 4
      then on_message CasReq.merge_from new_cas_req wire_type is (λ v. record m { cas = some v })
      else if eqb field_number 5
      then on_message DelReq.merge_from new_del_req wire_type is (λ v. record m { del = some v })
      else if eqb field_number 6
      then on_message WatchReq.merge_from new_watch_req wire_type is
          (λ v. record m { watch = some v })
      else on_unknown field_number wire_type is m.unknown_fields
          (λ fields. record m { unknown_fields = fields })

  unfoldable pub merge_from : CliReq → Bytes → ProtobufResult CliReq
  merge_from m is = merge_all merge_field m is

  unfoldable pub compute_size : CliReq → ℕ
  compute_size m =
      let after_req_id = size_each 0 (iter m.req_id) (λ v. C.value_size 1 v varint) in
      let after_get =
        size_each after_req_id (iter m.get) (λ v. message_size (GetReq.compute_size v)) in
      let after_set =
        size_each after_get (iter m.set) (λ v. message_size (SetReq.compute_size v)) in
      let after_cas =
        size_each after_set (iter m.cas) (λ v. message_size (CasReq.compute_size v)) in
      let after_del =
        size_each after_cas (iter m.del) (λ v. message_size (DelReq.compute_size v)) in
      let after_watch =
        size_each after_del (iter m.watch) (λ v. message_size (WatchReq.compute_size v)) in
      add32 after_watch (C.unknown_fields_size m.unknown_fields)

  unfoldable pub write_to_with_cached_sizes : CliReq → Bytes
  write_to_with_cached_sizes m = in_order (
      write_each (iter m.req_id) (C.write_uint64 1)
      ∷ write_each (iter m.get)
          (λ v. write_message 2 (GetReq.compute_size v) (GetReq.write_to_with_cached_sizes v))
      ∷ write_each (iter m.set)
          (λ v. write_message 3 (SetReq.compute_size v) (SetReq.write_to_with_cached_sizes v))
      ∷ write_each (iter m.cas)
          (λ v. write_message 4 (CasReq.compute_size v) (CasReq.write_to_with_cached_sizes v))
      ∷ write_each (iter m.del)
          (λ v. write_message 5 (DelReq.compute_size v) (DelReq.write_to_with_cached_sizes v))
      ∷ write_each (iter m.watch)
          (λ v. write_message 6 (WatchReq.compute_size v) (WatchReq.write_to_with_cached_sizes v))
      ∷ C.write_unknown_fields m.unknown_fields
      ∷ [])

-- The numbers are machine words, and no field is unknown, in the messages inside too.
abbrev pub Fits : CliReq → Type 0
Fits m =
    (OptAll (λ v. v < 2 ^ 64) m.req_id)
    × (OptAll GetReq.Fits m.get)
    × (OptAll SetReq.Fits m.set)
    × (OptAll CasReq.Fits m.cas)
    × (OptAll DelReq.Fits m.del)
    × (OptAll WatchReq.Fits m.watch)
    × (m.unknown_fields ≡ [])

module _ ⦃C : Coding⦄ (laws : CodingLaws C) where
  pub compute_size-write_to_with_cached_sizes :
      (m : CliReq) → Counts (compute_size m) (write_to_with_cached_sizes m)
  unfolding compute_size write_to_with_cached_sizes
  compute_size-write_to_with_cached_sizes m = Adds-Counts (
      Adds-uint64 laws 1 m.req_id
      then_adds Adds-messages laws 2 (iter m.get) GetReq.compute_size
          GetReq.write_to_with_cached_sizes (omega arith, omega arith)
          (GetReq.compute_size-write_to_with_cached_sizes laws)
      then_adds Adds-messages laws 3 (iter m.set) SetReq.compute_size
          SetReq.write_to_with_cached_sizes (omega arith, omega arith)
          (SetReq.compute_size-write_to_with_cached_sizes laws)
      then_adds Adds-messages laws 4 (iter m.cas) CasReq.compute_size
          CasReq.write_to_with_cached_sizes (omega arith, omega arith)
          (CasReq.compute_size-write_to_with_cached_sizes laws)
      then_adds Adds-messages laws 5 (iter m.del) DelReq.compute_size
          DelReq.write_to_with_cached_sizes (omega arith, omega arith)
          (DelReq.compute_size-write_to_with_cached_sizes laws)
      then_adds Adds-messages laws 6 (iter m.watch) WatchReq.compute_size
          WatchReq.write_to_with_cached_sizes (omega arith, omega arith)
          (WatchReq.compute_size-write_to_with_cached_sizes laws)
      then_adds Adds-unknown laws m.unknown_fields
      then_adds Adds-nothing)

  pub merge_from-write_to_with_cached_sizes :
      (m : CliReq)
      → Fits m
      → length (write_to_with_cached_sizes m) < 2 ^ 32
      → merge_from new (write_to_with_cached_sizes m) ≡ done m
  unfolding merge_field merge_from write_to_with_cached_sizes
  merge_from-write_to_with_cached_sizes m fits =
      let with_req_id : CliReq = record new { req_id = m.req_id } in
      let with_get : CliReq = record with_req_id { get = m.get } in
      let with_set : CliReq = record with_get { set = m.set } in
      let with_cas : CliReq = record with_set { cas = m.cas } in
      let with_del : CliReq = record with_cas { del = m.del } in
      let with_watch : CliReq = record with_del { watch = m.watch } in
      Reads-merge_all merge_field new m (write_to_with_cached_sizes m) (
        Reads-uint64 laws merge_field 1 m.req_id (λ o. record new { req_id = o })
          (omega arith, omega arith) (λ _. refl) fits.0
        then_reads Reads-message laws merge_field 2 m.get GetReq.merge_from new_get_req
            GetReq.compute_size GetReq.write_to_with_cached_sizes GetReq.Fits
            (λ o. record with_req_id { get = o }) (omega arith, omega arith) (λ _. refl)
            (GetReq.compute_size-write_to_with_cached_sizes laws)
            (GetReq.merge_from-write_to_with_cached_sizes laws) fits.1
        then_reads Reads-message laws merge_field 3 m.set SetReq.merge_from new_set_req
            SetReq.compute_size SetReq.write_to_with_cached_sizes SetReq.Fits
            (λ o. record with_get { set = o }) (omega arith, omega arith) (λ _. refl)
            (SetReq.compute_size-write_to_with_cached_sizes laws)
            (SetReq.merge_from-write_to_with_cached_sizes laws) fits.2
        then_reads Reads-message laws merge_field 4 m.cas CasReq.merge_from new_cas_req
            CasReq.compute_size CasReq.write_to_with_cached_sizes CasReq.Fits
            (λ o. record with_set { cas = o }) (omega arith, omega arith) (λ _. refl)
            (CasReq.compute_size-write_to_with_cached_sizes laws)
            (CasReq.merge_from-write_to_with_cached_sizes laws) fits.3
        then_reads Reads-message laws merge_field 5 m.del DelReq.merge_from new_del_req
            DelReq.compute_size DelReq.write_to_with_cached_sizes DelReq.Fits
            (λ o. record with_cas { del = o }) (omega arith, omega arith) (λ _. refl)
            (DelReq.compute_size-write_to_with_cached_sizes laws)
            (DelReq.merge_from-write_to_with_cached_sizes laws) fits.4
        then_reads Reads-message laws merge_field 6 m.watch WatchReq.merge_from new_watch_req
            WatchReq.compute_size WatchReq.write_to_with_cached_sizes WatchReq.Fits
            (λ o. record with_del { watch = o }) (omega arith, omega arith) (λ _. refl)
            (WatchReq.compute_size-write_to_with_cached_sizes laws)
            (WatchReq.merge_from-write_to_with_cached_sizes laws) fits.5
        then_reads Reads-unknown laws merge_field m.unknown_fields
            (λ o. record with_watch { unknown_fields = o }) fits.6
        then_reads Reads-nothing merge_field m)

module _ ⦃C : Coding⦄ (ends : CodingEnds C) where
  merge_field-Leaves :
      (m : CliReq) (field_number : ℕ) (t : WireType) (is : Bytes)
      → Leaves (length is) (merge_field m field_number t is)
  unfolding merge_field
  merge_field-Leaves m k t is =
      Leaves-if (length is) (eqb k 1) _ _
        (Leaves-uint64 ends t is (λ v. record m { req_id = some v }))
        (Leaves-if (length is) (eqb k 2) _ _
          (Leaves-message ends GetReq.merge_from new_get_req t is (λ v. record m { get = some v })
            (GetReq.merge_from-NotSpent ends))
          (Leaves-if (length is) (eqb k 3) _ _
            (Leaves-message ends SetReq.merge_from new_set_req t is (λ v. record m { set = some v })
              (SetReq.merge_from-NotSpent ends))
            (Leaves-if (length is) (eqb k 4) _ _
              (Leaves-message ends CasReq.merge_from new_cas_req t is
                (λ v. record m { cas = some v }) (CasReq.merge_from-NotSpent ends))
              (Leaves-if (length is) (eqb k 5) _ _
                (Leaves-message ends DelReq.merge_from new_del_req t is
                  (λ v. record m { del = some v }) (DelReq.merge_from-NotSpent ends))
                (Leaves-if (length is) (eqb k 6) _ _
                  (Leaves-message ends WatchReq.merge_from new_watch_req t is
                    (λ v. record m { watch = some v }) (WatchReq.merge_from-NotSpent ends))
                  (Leaves-unknown ends k t is m.unknown_fields
                    (λ fields. record m { unknown_fields = fields })))))))

  pub merge_from-NotSpent : (m : CliReq) (is : Bytes) → NotSpent (merge_from m is)
  unfolding merge_from
  merge_from-NotSpent m is = merge_all-NotSpent ends merge_field m is merge_field-Leaves
