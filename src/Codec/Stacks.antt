-- ===== src/Codec/Stacks.antt =====
-- `Codec` and `CodecStack` of src/codec.rs. What `decode` leaves in its buffer is not kept.
use rasputin.Prelude.{◌≡◌, ◌<◌, ◌^◌, refl, ap, sym, ◌∙◌, Bytes, List, [], ◌∷◌, ◌++◌, length}
use mathlib.Core.List.{append-nil}
use rasputin.Codec.{TryRead, ReadLaws, Framed, decode, encode}
use rasputin.Codec
use rasputin.Codec.Frames.{decode-encode_each, encode_each}

-- `trait Codec<In, Out>`, with the codec that `decode` leaves.
pub record CodecOps (C In Out : Type 0) : Type 0 where
  pub decode : C → In → List Out × C
  pub encode : C → Out → In

pub record CodecStack (L R : Type 0) : Type 0 where
  pub left : L
  pub right : R

-- `impl Codec<ByteBuf, ByteBuf> for Framed`
abbrev pub framed : ⦃S : TryRead⦄ → CodecOps Framed Bytes Bytes
framed = record { decode = decode; encode = λ f b. encode b }

module _ {L R In Mid Out : Type 0} (l : CodecOps L In Mid) (r : CodecOps R Mid Out) where
  -- `flat_map(|mut d| self.right.decode(&mut d))`
  unfoldable pub decode_each : R → List Mid → List Out × R
  decode_each right [] = ([], right)
  decode_each right (d ∷ rest) =
      let (outs, next) = r.decode right d in
      let (more, last) = decode_each next rest in (outs ++ more, last)

  unfoldable pub decode_stack : CodecStack L R → In → List Out × CodecStack L R
  unfolding decode_each
  decode_stack self buf =
      let (mids, left) = l.decode self.left buf in
      let (outs, right) = decode_each self.right mids in
      (outs, record { left = left; right = right })

  unfoldable pub encode_stack : CodecStack L R → Out → In
  encode_stack self out = l.encode self.left (r.encode self.right out)

  unfoldable pub stack : CodecOps (CodecStack L R) In Out
  unfolding decode_stack encode_stack
  stack = record { decode = decode_stack; encode = encode_stack }

-- What is encoded by a codec that is ready is decoded by it alone, if it fits.
pub record RoundTrips {C In Out : Type 0} (c : CodecOps C In Out) (Ready : C → Type 0)
    (Fits : C → Out → Type 0) : Type 0 where
  pub decode-encode :
      (x : C) (a : Out) → Ready x → Fits x a → c.decode x (c.encode x a) ≡ (a ∷ [], x)

framed-RoundTrips :
    ⦃S : TryRead⦄ → ReadLaws S → RoundTrips framed (λ f. f ≡ Codec.new) (λ f m. length m < 2 ^ 32)
unfolding encode_each
framed-RoundTrips laws = record {
  decode-encode = λ f m fresh fits.
      ap (λ (g : Framed). decode g (encode m)) fresh
      ∙ ap (decode Codec.new) (sym (append-nil (encode m)))
      ∙ decode-encode_each laws (m ∷ []) (fits, tt)
      ∙ ap (λ (g : Framed). (m ∷ [], g)) (sym fresh);
}

stack-RoundTrips :
    {L R In Mid Out : Type 0} (l : CodecOps L In Mid) (r : CodecOps R Mid Out) (ReadyL : L → Type 0)
    (ReadyR : R → Type 0) (FitsL : L → Mid → Type 0) (FitsR : R → Out → Type 0)
    → RoundTrips l ReadyL FitsL
    → RoundTrips r ReadyR FitsR
    → RoundTrips
        (stack l r)
        (λ s. ReadyL s.left × ReadyR s.right)
        (λ s a. FitsR s.right a × FitsL s.left (r.encode s.right a))
unfolding stack
stack-RoundTrips l r ReadyL ReadyR FitsL FitsR tl tr = record {
  decode-encode = λ s a ready fits.
      rw
        (
          tl.decode-encode s.left (r.encode s.right a) ready.0 fits.1,
          tr.decode-encode s.right a ready.1 fits.0,
        )
        refl;
}
