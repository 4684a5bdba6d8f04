-- ===== src/Examples/Shrinking.antt =====
-- The plain coding takes bytes off the front.
use rasputin.Prelude.{
  ℕ, zero, suc, ◌≤◌, arith, Bytes, Option, none, some, List, [], ◌∷◌, ◌++◌, length, take, drop,
}
use rasputin.Messages.Mutation.{MutationType}
use rasputin.Protobuf.{
  WireType, varint, fixed64, length_delimited, start_group, end_group, fixed32, ProtobufResult,
  done, failed, ◌>>=◌,
}
use rasputin.Protobuf.Ends.{CodingEnds, Leaves, Leaves, NotSpent}
use rasputin.Examples.Coding.{
  plain, read_uint64, read_bool, read_value, read_enum, read_bytes, read_string, read_unknown,
  merge_message, read_repeated,
}

length-drop : (n : ℕ) (is : Bytes) → length (drop n is) ≤ length is
length-drop zero is = omega arith
length-drop (suc n) [] = omega arith
length-drop (suc n) (b ∷ is) = omega (arith, length-drop n is)

read_value-Leaves : (o : Option MutationType) (is : Bytes) → Leaves (length is) (read_value o is)
read_value-Leaves none is = λ e. e
read_value-Leaves (some a) is = omega arith

widen : {A : Type 0} (n : ℕ) (r : ProtobufResult (A × Bytes)) → Leaves n r → Leaves (suc n) r
widen n (done (a, rest)) h = omega (arith, h)
widen n (failed e) h = h

read_bytes-Leaves : (is : Bytes) → Leaves (length is) (read_bytes is)
read_bytes-Leaves [] = λ e. e
read_bytes-Leaves (n ∷ is) = omega (arith, length-drop n is)

read_string-Leaves : (is : Bytes) → Leaves (length is) (read_string is)
read_string-Leaves [] = λ e. e
read_string-Leaves (n ∷ is) = omega (arith, length-drop n is)

read_unknown-Leaves : (t : WireType) (is : Bytes) → Leaves (length is) (read_unknown t is)
read_unknown-Leaves varint [] = λ e. e
read_unknown-Leaves varint (b ∷ is) = omega arith
read_unknown-Leaves length_delimited [] = λ e. e
read_unknown-Leaves length_delimited (n ∷ is) = omega (arith, length-drop n is)
read_unknown-Leaves fixed64 is = λ e. e
read_unknown-Leaves start_group is = λ e. e
read_unknown-Leaves end_group is = λ e. e
read_unknown-Leaves fixed32 is = λ e. e

merged-Leaves :
    {M : Type 0} (n : ℕ) (r : ProtobufResult M) (left : Bytes)
    → NotSpent r
    → length left ≤ n
    → Leaves n (r >>= λ m. done (m, left))
merged-Leaves n (done m) left h k = k
merged-Leaves n (failed e) left h k = h

merge_message-Leaves :
    {M : Type 0} (f : M → Bytes → ProtobufResult M) (m : M) (is : Bytes)
    → ((first : M) (b : Bytes) → NotSpent (f first b))
    → Leaves (length is) (merge_message f m is)
merge_message-Leaves f m [] k = λ e. e
merge_message-Leaves f m (n ∷ is) k =
    merged-Leaves (suc (length is)) (f m (take n is)) (drop n is) (k m (take n is))
      (omega (arith, length-drop n is))

more-Leaves :
    {M : Type 0} (n : ℕ) (r : ProtobufResult (M × Bytes)) (have : List M)
    → Leaves n r
    → Leaves n (r >>= λ (m, rest). done (have ++ m ∷ [], rest))
more-Leaves n (done (m, rest)) have h = h
more-Leaves n (failed e) have h = h

read_repeated-Leaves :
    {M : Type 0} (t : WireType) (f : M → Bytes → ProtobufResult M) (new : M) (have : List M)
    (is : Bytes)
    → ((first : M) (b : Bytes) → NotSpent (f first b))
    → Leaves (length is) (read_repeated t f new have is)
read_repeated-Leaves length_delimited f new have is k =
    more-Leaves (length is) (merge_message f new is) have (merge_message-Leaves f new is k)
read_repeated-Leaves varint f new have is k = λ e. e
read_repeated-Leaves fixed64 f new have is k = λ e. e
read_repeated-Leaves start_group f new have is k = λ e. e
read_repeated-Leaves end_group f new have is k = λ e. e
read_repeated-Leaves fixed32 f new have is k = λ e. e

read_uint64-Leaves : (is : Bytes) → Leaves (length is) (read_uint64 is)
read_uint64-Leaves [] = λ e. e
read_uint64-Leaves (b ∷ is) = omega arith

read_bool-Leaves : (is : Bytes) → Leaves (length is) (read_bool is)
read_bool-Leaves [] = λ e. e
read_bool-Leaves (b ∷ is) = omega arith

read_enum-Leaves :
    (from : ℕ → Option MutationType) (is : Bytes) → Leaves (length is) (read_enum from is)
read_enum-Leaves from [] = λ e. e
read_enum-Leaves from (b ∷ is) =
    widen (length is) (read_value (from b) is) (read_value-Leaves (from b) is)

pub plain_ends : CodingEnds plain
plain_ends = record {
  tag_leaves = λ b is. omega arith;
  uint64_leaves = read_uint64-Leaves;
  bool_leaves = read_bool-Leaves;
  enum_leaves = read_enum-Leaves;
  bytes_leaves = read_bytes-Leaves;
  string_leaves = read_string-Leaves;
  unknown_leaves = read_unknown-Leaves;
  message_leaves = merge_message-Leaves;
  repeated_leaves = read_repeated-Leaves;
}
