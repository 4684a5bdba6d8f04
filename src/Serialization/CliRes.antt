-- ===== src/Serialization/CliRes.antt =====
-- src/serialization.rs: `merge_from`, `compute_size` and `write_to_with_cached_sizes` of `CliRes`.
use rasputin.Prelude.{
  ℕ, Bytes, some, [], refl, arith, length, eqb, if◌then◌else◌, ◌^◌, ◌≡◌, ◌<◌, ◌∷◌,
}
use rasputin.Messages.CliRes.{CliRes, new}
use rasputin.Messages.CasRes.{new as new_cas_res}
use rasputin.Messages.DelRes.{new as new_del_res}
use rasputin.Messages.GetRes.{new as new_get_res}
use rasputin.Messages.RedirectRes.{new as new_redirect_res}
use rasputin.Messages.SetRes.{new as new_set_res}
use rasputin.Messages.WatchRes.{new as new_watch_res}
use rasputin.Serialization.CasRes
use rasputin.Serialization.DelRes
use rasputin.Serialization.GetRes
use rasputin.Serialization.RedirectRes
use rasputin.Serialization.SetRes
use rasputin.Serialization.WatchRes
use rasputin.Protobuf.{Coding, CodingLaws, WireType, varint, ProtobufResult, done}
use rasputin.Protobuf.Merging.{on_uint64, on_message, on_unknown, merge_all}
use rasputin.Protobuf.Sizes.{
  iter, size_each, write_each, message_size, write_message, in_order, Counts, Adds-nothing,
  Adds-unknown, add32, ◌then_adds◌, Adds-Counts, Adds-uint64, Adds-messages,
}
use rasputin.Protobuf.Ends.{
  CodingEnds, Leaves, NotSpent, Leaves-if, Leaves-uint64, Leaves-message, Leaves-unknown,
  merge_all-NotSpent,
}
use rasputin.Protobuf.Rounds.{OptAll}
use rasputin.Protobuf.Fields.{
  Reads-nothing, Reads-unknown, ◌then_reads◌, Reads-merge_all, Reads-uint64, Reads-message,
}

module _ ⦃C : Coding⦄ where
  unfoldable pub merge_field : CliRes → ℕ → WireType → Bytes → ProtobufResult (CliRes × Bytes)
  merge_field m field_number wire_type is =
      if eqb field_number 1
      then on_uint64 wire_type is (λ v. record m { req_id = some v })
      else if eqb field_number 2
      then on_message GetRes.merge_from new_get_res wire_type is (λ v. record m { get = some v })
      else if eqb field_number 3
      then on_message SetRes.merge_from new_set_res wire_type is (λ v. record m { set = some v })
      else if eqb field_number 4
      then on_message CasRes.merge_from new_cas_res wire_type is (λ v. record m { cas = some v })
      else if eqb field_number 5
      then on_message DelRes.merge_from new_del_res wire_type is (λ v. record m { del = some v })
      else if eqb field_number 6
      then on_message WatchRes.merge_from new_watch_res wire_type is
          (λ v. record m { watch = some v })
      else if eqb field_number 7
      then on_message RedirectRes.merge_from new_redirect_res wire_type is
          (λ v. record m { redirect = some v })
      else on_unknown field_number wire_type is m.unknown_fields
          (λ fields. record m { unknown_fields = fields })

  unfoldable pub merge_from : CliRes → Bytes → ProtobufResult CliRes
  merge_from m is = merge_all merge_field m is

  unfoldable pub compute_size : CliRes → ℕ
  compute_size m =
      let after_req_id = size_each 0 (iter m.req_id) (λ v. C.value_size 1 v varint) in
      let after_get =
        size_each after_req_id (iter m.get) (λ v. message_size (GetRes.compute_size v)) in
      let after_set =
        size_each after_get (iter m.set) (λ v. message_size (SetRes.compute_size v)) in
      let after_cas =
        size_each after_set (iter m.cas) (λ v. message_size (CasRes.compute_size v)) in
      let after_del =
        size_each after_cas (iter m.del) (λ v. message_size (DelRes.compute_size v)) in
      let after_watch =
        size_each after_del (iter m.watch) (λ v. message_size (WatchRes.compute_size v)) in
      let after_redirect =
        size_each after_watch (iter m.redirect) (λ v. message_size (RedirectRes.compute_size v)) in
      add32 after_redirect (C.unknown_fields_size m.unknown_fields)

  unfoldable pub write_to_with_cached_sizes : CliRes → Bytes
  write_to_with_cached_sizes m = in_order (
      write_each (iter m.req_id) (C.write_uint64 1)
      ∷ write_each (iter m.get)
          (λ v. write_message 2 (GetRes.compute_size v) (GetRes.write_to_with_cached_sizes v))
      ∷ write_each (iter m.set)
          (λ v. write_message 3 (SetRes.compute_size v) (SetRes.write_to_with_cached_sizes v))
      ∷ write_each (iter m.cas)
          (λ v. write_message 4 (CasRes.compute_size v) (CasRes.write_to_with_cached_sizes v))
      ∷ write_each (iter m.del)
          (λ v. write_message 5 (DelRes.compute_size v) (DelRes.write_to_with_cached_sizes v))
      ∷ write_each (iter m.watch)
          (λ v. write_message 6 (WatchRes.compute_size v) (WatchRes.write_to_with_cached_sizes v))
      ∷ write_each (iter m.redirect) (λ v.
        write_message 7 (RedirectRes.compute_size v) (RedirectRes.write_to_with_cached_sizes v))
      ∷ C.write_unknown_fields m.unknown_fields
      ∷ [])

-- The numbers are machine words, and no field is unknown, in the messages inside too.
abbrev pub Fits : CliRes → Type 0
Fits m =
    (OptAll (λ v. v < 2 ^ 64) m.req_id)
    × (OptAll GetRes.Fits m.get)
    × (OptAll SetRes.Fits m.set)
    × (OptAll CasRes.Fits m.cas)
    × (OptAll DelRes.Fits m.del)
    × (OptAll WatchRes.Fits m.watch)
    × (OptAll RedirectRes.Fits m.redirect)
    × (m.unknown_fields ≡ [])

module _ ⦃C : Coding⦄ (laws : CodingLaws C) where
  pub compute_size-write_to_with_cached_sizes :
      (m : CliRes) → Counts (compute_size m) (write_to_with_cached_sizes m)
  unfolding compute_size write_to_with_cached_sizes
  compute_size-write_to_with_cached_sizes m = Adds-Counts (
      Adds-uint64 laws 1 m.req_id
      then_adds Adds-messages laws 2 (iter m.get) GetRes.compute_size
          GetRes.write_to_with_cached_sizes (omega arith, omega arith)
          (GetRes.compute_size-write_to_with_cached_sizes laws)
      then_adds Adds-messages laws 3 (iter m.set) SetRes.compute_size
          SetRes.write_to_with_cached_sizes (omega arith, omega arith)
          (SetRes.compute_size-write_to_with_cached_sizes laws)
      then_adds Adds-messages laws 4 (iter m.cas) CasRes.compute_size
          CasRes.write_to_with_cached_sizes (omega arith, omega arith)
          (CasRes.compute_size-write_to_with_cached_sizes laws)
      then_adds Adds-messages laws 5 (iter m.del) DelRes.compute_size
          DelRes.write_to_with_cached_sizes (omega arith, omega arith)
          (DelRes.compute_size-write_to_with_cached_sizes laws)
      then_adds Adds-messages laws 6 (iter m.watch) WatchRes.compute_size
          WatchRes.write_to_with_cached_sizes (omega arith, omega arith)
          (WatchRes.compute_size-write_to_with_cached_sizes laws)
      then_adds Adds-messages laws 7 (iter m.redirect) RedirectRes.compute_size
          RedirectRes.write_to_with_cached_sizes (omega arith, omega arith)
          (RedirectRes.compute_size-write_to_with_cached_sizes laws)
      then_adds Adds-unknown laws m.unknown_fields
      then_adds Adds-nothing)

  pub merge_from-write_to_with_cached_sizes :
      (m : CliRes)
      → Fits m
      → length (write_to_with_cached_sizes m) < 2 ^ 32
      → merge_from new (write_to_with_cached_sizes m) ≡ done m
  unfolding merge_field merge_from write_to_with_cached_sizes
  merge_from-write_to_with_cached_sizes m fits =
      let with_req_id : CliRes = record new { req_id = m.req_id } in
      let with_get : CliRes = record with_req_id { get = m.get } in
      let with_set : CliRes = record with_get { set = m.set } in
      let with_cas : CliRes = record with_set { cas = m.cas } in
      let with_del : CliRes = record with_cas { del = m.del } in
      let with_watch : CliRes = record with_del { watch = m.watch } in
      let with_redirect : CliRes = record with_watch { redirect = m.redirect } in
      Reads-merge_all merge_field new m (write_to_with_cached_sizes m) (
        Reads-uint64 laws merge_field 1 m.req_id (λ o. record new { req_id = o })
          (omega arith, omega arith) (λ _. refl) fits.0
        then_reads Reads-message laws merge_field 2 m.get GetRes.merge_from new_get_res
            GetRes.compute_size GetRes.write_to_with_cached_sizes GetRes.Fits
            (λ o. record with_req_id { get = o }) (omega arith, omega arith) (λ _. refl)
            (GetRes.compute_size-write_to_with_cached_sizes laws)
            (GetRes.merge_from-write_to_with_cached_sizes laws) fits.1
        then_reads Reads-message laws merge_field 3 m.set SetRes.merge_from new_set_res
            SetRes.compute_size SetRes.write_to_with_cached_sizes SetRes.Fits
            (λ o. record with_get { set = o }) (omega arith, omega arith) (λ _. refl)
            (SetRes.compute_size-write_to_with_cached_sizes laws)
            (SetRes.merge_from-write_to_with_cached_sizes laws) fits.2
        then_reads Reads-message laws merge_field 4 m.cas CasRes.merge_from new_cas_res
            CasRes.compute_size CasRes.write_to_with_cached_sizes CasRes.Fits
            (λ o. record with_set { cas = o }) (omega arith, omega arith) (λ _. refl)
            (CasRes.compute_size-write_to_with_cached_sizes laws)
            (CasRes.merge_from-write_to_with_cached_sizes laws) fits.3
        then_reads Reads-message laws merge_field 5 m.del DelRes.merge_from new_del_res
            DelRes.compute_size DelRes.write_to_with_cached_sizes DelRes.Fits
            (λ o. record with_cas { del = o }) (omega arith, omega arith) (λ _. refl)
            (DelRes.compute_size-write_to_with_cached_sizes laws)
            (DelRes.merge_from-write_to_with_cached_sizes laws) fits.4
        then_reads Reads-message laws merge_field 6 m.watch WatchRes.merge_from new_watch_res
            WatchRes.compute_size WatchRes.write_to_with_cached_sizes WatchRes.Fits
            (λ o. record with_del { watch = o }) (omega arith, omega arith) (λ _. refl)
            (WatchRes.compute_size-write_to_with_cached_sizes laws)
            (WatchRes.merge_from-write_to_with_cached_sizes laws) fits.5
        then_reads Reads-message laws merge_field 7 m.redirect RedirectRes.merge_from
            new_redirect_res RedirectRes.compute_size RedirectRes.write_to_with_cached_sizes
            RedirectRes.Fits (λ o. record with_watch { redirect = o }) (omega arith, omega arith)
            (λ _. refl) (RedirectRes.compute_size-write_to_with_cached_sizes laws)
            (RedirectRes.merge_from-write_to_with_cached_sizes laws) fits.6
        then_reads Reads-unknown laws merge_field m.unknown_fields
            (λ o. record with_redirect { unknown_fields = o }) fits.7
        then_reads Reads-nothing merge_field m)

module _ ⦃C : Coding⦄ (ends : CodingEnds C) where
  merge_field-Leaves :
      (m : CliRes) (field_number : ℕ) (t : WireType) (is : Bytes)
      → Leaves (length is) (merge_field m field_number t is)
  unfolding merge_field
  merge_field-Leaves m k t is =
      Leaves-if (length is) (eqb k 1) _ _
        (Leaves-uint64 ends t is (λ v. record m { req_id = some v }))
        (Leaves-if (length is) (eqb k 2) _ _
          (Leaves-message ends GetRes.merge_from new_get_res t is (λ v. record m { get = some v })
            (GetRes.merge_from-NotSpent ends))
          (Leaves-if (length is) (eqb k 3) _ _
            (Leaves-message ends SetRes.merge_from new_set_res t is (λ v. record m { set = some v })
              (SetRes.merge_from-NotSpent ends))
            (Leaves-if (length is) (eqb k 4) _ _
              (Leaves-message ends CasRes.merge_from new_cas_res t is
                (λ v. record m { cas = some v }) (CasRes.merge_from-NotSpent ends))
              (Leaves-if (length is) (eqb k 5) _ _
                (Leaves-message ends DelRes.merge_from new_del_res t is
                  (λ v. record m { del = some v }) (DelRes.merge_from-NotSpent ends))
                (Leaves-if (length is) (eqb k 6) _ _
                  (Leaves-message ends WatchRes.merge_from new_watch_res t is
                    (λ v. record m { watch = some v }) (WatchRes.merge_from-NotSpent ends))
                  (Leaves-if (length is) (eqb k 7) _ _
                    (Leaves-message ends RedirectRes.merge_from new_redirect_res t is
                      (λ v. record m { redirect = some v }) (RedirectRes.merge_from-NotSpent ends))
                    (Leaves-unknown ends k t is m.unknown_fields
                      (λ fields. record m { unknown_fields = fields }))))))))

  pub merge_from-NotSpent : (m : CliRes) (is : Bytes) → NotSpent (merge_from m is)
  unfolding merge_from
  merge_from-NotSpent m is = merge_all-NotSpent ends merge_field m is merge_field-Leaves
