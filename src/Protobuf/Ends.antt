-- ===== src/Protobuf/Ends.antt =====
-- Each round of the loop of a `merge_from` of src/serialization.rs reads a tag, so that it ends.
use rasputin.Prelude.{
  ℕ, zero, suc, ◌<◌, ◌≤◌, arith, String, Bytes, Bool, true, false, Option, List, [], ◌∷◌, length,
  if◌then◌else◌,
}
use rasputin.Messages.Mutation.{MutationType}
use rasputin.Messages.Unknown.{UnknownFields}
use rasputin.Protobuf.{Coding, WireType, ProtobufError, spent, ProtobufResult, done, failed, ◌>>=◌}
use rasputin.Protobuf.Merging.{
  is_varint, is_length_delimited, unexpected, on_uint64, on_bool, on_enum, on_bytes, on_string,
  on_message, on_repeated, on_unknown, merge_loop, merge_all,
}

abbrev pub IsSpent : ProtobufError → Type 0
IsSpent spent = Unit
IsSpent _ = ⊥

-- At most `n` bytes are left, or the error is one of the library's.
abbrev pub Leaves {ℓ} : {A : Type ℓ} → ℕ → ProtobufResult (A × Bytes) → Type 0
Leaves n (done (a, rest)) = length rest ≤ n
Leaves n (failed e) = ¬ (IsSpent e)

abbrev pub LeavesTag : ℕ → ProtobufResult (ℕ × WireType × Bytes) → Type 0
LeavesTag n (done (k, t, rest)) = length rest ≤ n
LeavesTag n (failed e) = ¬ (IsSpent e)

abbrev pub NotSpent {ℓ} : {A : Type ℓ} → ProtobufResult A → Type 0
NotSpent (done a) = Unit
NotSpent (failed e) = ¬ (IsSpent e)

-- A read takes bytes off the front, a tag at least one, and a nested message ends if its own
-- `merge_from` does.
pub record CodingEnds (C : Coding) : Type 1 where
  pub tag_leaves : (b : ℕ) (is : Bytes) → LeavesTag (length is) (C.read_tag_unpack (b ∷ is))
  pub uint64_leaves : (is : Bytes) → Leaves (length is) (C.read_uint64 is)
  pub bool_leaves : (is : Bytes) → Leaves (length is) (C.read_bool is)
  pub enum_leaves :
      (from : ℕ → Option MutationType) (is : Bytes) → Leaves (length is) (C.read_enum from is)
  pub bytes_leaves : (is : Bytes) → Leaves (length is) (C.read_bytes is)
  pub string_leaves : (is : Bytes) → Leaves (length is) (C.read_string is)
  pub unknown_leaves : (t : WireType) (is : Bytes) → Leaves (length is) (C.read_unknown t is)
  pub message_leaves :
      {M : Type 0} (f : M → Bytes → ProtobufResult M) (m : M) (is : Bytes)
      → ((first : M) (b : Bytes) → NotSpent (f first b))
      → Leaves (length is) (C.merge_message f m is)
  pub repeated_leaves :
      {M : Type 0} (t : WireType) (f : M → Bytes → ProtobufResult M) (new : M) (have : List M)
      (is : Bytes)
      → ((first : M) (b : Bytes) → NotSpent (f first b))
      → Leaves (length is) (C.read_repeated t f new have is)

Leaves-map {ℓ κ} :
    {A : Type ℓ} {B : Type κ} (n : ℕ) (r : ProtobufResult (A × Bytes)) (f : A → B)
    → Leaves n r
    → Leaves n (r >>= λ (a, rest). done (f a, rest))
Leaves-map n (done (a, rest)) f h = h
Leaves-map n (failed e) f h = h

Leaves-checked {ℓ} :
    {A : Type ℓ} (n : ℕ) (c : Bool) (r : ProtobufResult (A × Bytes))
    → Leaves n r
    → Leaves n (if c then r else unexpected)
Leaves-checked n true r h = h
Leaves-checked n false r h = λ e. e

pub Leaves-if {ℓ} :
    {A : Type ℓ} (n : ℕ) (c : Bool) (a b : ProtobufResult (A × Bytes))
    → Leaves n a
    → Leaves n b
    → Leaves n (if c then a else b)
Leaves-if n true a b h k = h
Leaves-if n false a b h k = k

module _ ⦃C : Coding⦄ (ends : CodingEnds C) {M : Type 0} where
  pub Leaves-uint64 :
      (t : WireType) (is : Bytes) (set : ℕ → M) → Leaves (length is) (on_uint64 t is set)
  unfolding on_uint64
  Leaves-uint64 t is set =
      Leaves-checked (length is) (is_varint t) _
        (Leaves-map (length is) (C.read_uint64 is) set (ends.uint64_leaves is))

  pub Leaves-bool :
      (t : WireType) (is : Bytes) (set : Bool → M) → Leaves (length is) (on_bool t is set)
  unfolding on_bool
  Leaves-bool t is set =
      Leaves-checked (length is) (is_varint t) _
        (Leaves-map (length is) (C.read_bool is) set (ends.bool_leaves is))

  pub Leaves-enum :
      (from : ℕ → Option MutationType) (t : WireType) (is : Bytes) (set : MutationType → M)
      → Leaves (length is) (on_enum from t is set)
  unfolding on_enum
  Leaves-enum from t is set =
      Leaves-checked (length is) (is_varint t) _
        (Leaves-map (length is) (C.read_enum from is) set (ends.enum_leaves from is))

  pub Leaves-bytes :
      (t : WireType) (is : Bytes) (set : Bytes → M) → Leaves (length is) (on_bytes t is set)
  unfolding on_bytes
  Leaves-bytes t is set =
      Leaves-checked (length is) (is_length_delimited t) _
        (Leaves-map (length is) (C.read_bytes is) set (ends.bytes_leaves is))

  pub Leaves-string :
      (t : WireType) (is : Bytes) (set : String → M) → Leaves (length is) (on_string t is set)
  unfolding on_string
  Leaves-string t is set =
      Leaves-checked (length is) (is_length_delimited t) _
        (Leaves-map (length is) (C.read_string is) set (ends.string_leaves is))

  pub Leaves-message :
      {N : Type 0} (f : N → Bytes → ProtobufResult N) (new : N) (t : WireType) (is : Bytes)
      (set : N → M)
      → ((first : N) (b : Bytes) → NotSpent (f first b))
      → Leaves (length is) (on_message f new t is set)
  unfolding on_message
  Leaves-message f new t is set k =
      Leaves-checked (length is) (is_length_delimited t) _
        (Leaves-map (length is) (C.merge_message f new is) set (ends.message_leaves f new is k))

  pub Leaves-repeated :
      {N : Type 0} (f : N → Bytes → ProtobufResult N) (new : N) (have : List N) (t : WireType)
      (is : Bytes) (set : List N → M)
      → ((first : N) (b : Bytes) → NotSpent (f first b))
      → Leaves (length is) (on_repeated f new have t is set)
  unfolding on_repeated
  Leaves-repeated f new have t is set k =
      Leaves-map (length is) (C.read_repeated t f new have is) set
        (ends.repeated_leaves t f new have is k)

  pub Leaves-unknown :
      (n : ℕ) (t : WireType) (is : Bytes) (fields : UnknownFields) (set : UnknownFields → M)
      → Leaves (length is) (on_unknown n t is fields set)
  unfolding on_unknown
  Leaves-unknown n t is fields set =
      Leaves-map (length is) (C.read_unknown t is) (λ v. set (C.add_value fields n v))
        (ends.unknown_leaves t is)

module _ ⦃C : Coding⦄ (ends : CodingEnds C) {M : Type 0}
    (arms : M → ℕ → WireType → Bytes → ProtobufResult (M × Bytes)) where
  NotSpent-next :
      (n : ℕ) (r : ProtobufResult (M × Bytes)) (loop : M → Bytes → ProtobufResult M)
      → Leaves n r
      → ((m : M) (is : Bytes) → length is ≤ n → NotSpent (loop m is))
      → NotSpent (r >>= λ (next, left). loop next left)
  NotSpent-next n (done (m, rest)) loop h k = k m rest h
  NotSpent-next n (failed e) loop h k = h

  NotSpent-tag :
      (n : ℕ) (m : M) (r : ProtobufResult (ℕ × WireType × Bytes))
      (loop : M → Bytes → ProtobufResult M)
      → LeavesTag n r
      → ((first : M) (field_number : ℕ) (t : WireType) (is : Bytes)
          → Leaves (length is) (arms first field_number t is))
      → ((next : M) (is : Bytes) → length is ≤ n → NotSpent (loop next is))
      → NotSpent (
          r >>= λ (field_number, wire_type, rest).
          (arms m field_number wire_type rest >>= λ (next, left). loop next left))
  NotSpent-tag n m (done (field_number, t, rest)) loop h leaves k =
      NotSpent-next (length rest) (arms m field_number t rest) loop (leaves m field_number t rest)
        (λ next is le. k next is (omega (arith, h, le)))
  NotSpent-tag n m (failed e) loop h leaves k = h

  merge_loop-NotSpent :
      (fuel : ℕ) (m : M) (is : Bytes)
      → ((first : M) (field_number : ℕ) (t : WireType) (is : Bytes)
          → Leaves (length is) (arms first field_number t is))
      → length is < fuel
      → NotSpent (merge_loop arms fuel m is)
  unfolding merge_loop
  merge_loop-NotSpent zero m is leaves h = absurd (omega arith)
  merge_loop-NotSpent (suc fuel) m [] leaves h = tt
  merge_loop-NotSpent (suc fuel) m (b ∷ is) leaves h =
      NotSpent-tag (length is) m (C.read_tag_unpack (b ∷ is)) (merge_loop arms fuel)
        (ends.tag_leaves b is) leaves
        (λ next left le. merge_loop-NotSpent fuel next left leaves (omega arith))

  pub merge_all-NotSpent :
      (m : M) (is : Bytes)
      → ((first : M) (field_number : ℕ) (t : WireType) (is : Bytes)
          → Leaves (length is) (arms first field_number t is))
      → NotSpent (merge_all arms m is)
  unfolding merge_all
  merge_all-NotSpent m is leaves = merge_loop-NotSpent (suc (length is)) m is leaves (omega arith)
