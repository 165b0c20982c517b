-- ===== src/Itch/Stream/Resume.antt =====
-- decode_stream of itch/decoder.hpp on a stream that is cut: every buffer of bytes is frames and a
-- partial tail, so the rest can be read later.
use opti_trade_engine.Prelude.{
  ℕ, zero, suc, ◌+◌, ◌^◌, ◌<◌, ◌≤◌, ◌≡◌, refl, sym, ap, ◌∙◌, inl, inr, List, [], ◌∷◌, ◌++◌, ltb,
  length, take, drop, arith, All, drop-append, append_assoc, length-append, Bool-cases, length-take,
  length-drop, take-append-drop,
}
use opti_trade_engine.Core.Wire.{Bytes, load16}
use opti_trade_engine.Itch.Messages.{Message}
use opti_trade_engine.Itch.Decoder.{Decoded, delivered, failed, decode}
use opti_trade_engine.Itch.Stream.{decode_stream}
use opti_trade_engine.Itch.Stream.Frames.{deliveries, with_delivery, Partial, decode_stream-frames}
use opti_trade_engine.Core.Frames.{
  frames, Short, IsByte, store16-load16, load16_bound, All-drop, rejoin, frames-append,
}
use mathlib.Core.Path.{subst}

-- Every buffer is frames and a partial tail.
abbrev Framing : Bytes → Type 0
Framing buf =
    (bs : List Bytes) × (tail : Bytes) × (buf ≡ frames bs ++ tail) × All Short bs × Partial tail

framing : (fuel : ℕ) (buf : Bytes) → length buf ≤ fuel → All IsByte buf → Framing buf
unfolding frames
framing fuel [] k a = ([], [], refl, tt, inl (omega arith))
framing fuel (x ∷ []) k a = ([], x ∷ [], refl, tt, inl (omega arith))
framing zero (x ∷ y ∷ rest) k a = absurd (omega arith)
framing (suc fuel) (x ∷ y ∷ rest) k a =
    let len = load16 (x ∷ y ∷ rest) 0 in
    let small : len < 2 ^ 16 = load16_bound x y rest a.0 a.1.0 in
    elim (Bool-cases (ltb (length rest) len)) [
      | inl few ↦ ([], x ∷ y ∷ rest, refl, tt, inr (ground arith))
      | inr enough ↦
          let full : length (take len rest) ≡ len = ground (arith, length-take len rest) in
          let (bs, tail, e, s, p) =
            framing fuel (drop len rest) (omega (arith, length-drop len rest))
              (All-drop len rest a.1.1) in
          (
            take len rest ∷ bs,
            tail,
            rejoin x y len (take len rest) (drop len rest) rest (frames bs) tail
                (take-append-drop len rest) e full (store16-load16 x y rest a.0 a.1.0),
            (rw full small, s),
            p,
          )
    ]

with_delivery-append :
    (d : Decoded) (ms ns : List Message) → with_delivery d (ms ++ ns) ≡ with_delivery d ms ++ ns
unfolding with_delivery
with_delivery-append (delivered m) ms ns = refl
with_delivery-append (failed st) ms ns = refl

deliveries-append : (bs cs : List Bytes) → deliveries (bs ++ cs) ≡ deliveries bs ++ deliveries cs
unfolding deliveries
deliveries-append [] cs = refl
deliveries-append (b ∷ bs) cs =
    rw (deliveries-append bs cs) (with_delivery-append (decode b) (deliveries bs) (deliveries cs))

All-append : {A : Type 0} (P : A → Type 0) (xs ys : List A) → All P xs → All P ys → All P (xs ++ ys)
All-append P [] ys a b = b
All-append P (x ∷ xs) ys a b = (a.0, All-append P xs ys a.1 b)

All-tail : {A : Type 0} (P : A → Type 0) (xs ys : List A) → All P (xs ++ ys) → All P ys
All-tail P [] ys a = a
All-tail P (x ∷ xs) ys a = All-tail P xs ys a.1

-- The property for a buffer that is cut into its frames.
resume_from :
    (bs : List Bytes) (t b : Bytes)
    → All Short bs
    → Partial t
    → All IsByte (t ++ b)
    → ((decode_stream ((frames bs ++ t) ++ b)).out
        ≡ (decode_stream (frames bs ++ t)).out
          ++ (decode_stream
              (drop (decode_stream (frames bs ++ t)).consumed (frames bs ++ t) ++ b)).out)
      × ((decode_stream ((frames bs ++ t) ++ b)).consumed
          ≡ (decode_stream (frames bs ++ t)).consumed
            + (decode_stream
                (drop (decode_stream (frames bs ++ t)).consumed (frames bs ++ t) ++ b)).consumed)
resume_from bs t b s p h =
    let (c, o, g, k) = decode_stream-frames bs t s p in
    let (cs, u, e, s', p') = framing (length (t ++ b)) (t ++ b) (omega arith) h in
    let (c', o', g', k') = decode_stream-frames cs u s' p' in
    let (c2, o2, g2, k2) = decode_stream-frames (bs ++ cs) u (All-append Short bs cs s s') p' in
    let whole : (frames bs ++ t) ++ b ≡ frames (bs ++ cs) ++ u =
      append_assoc (frames bs) t b
      ∙ ap (λ l. frames bs ++ l) e
      ∙ sym (append_assoc (frames bs) (frames cs) u)
      ∙ ap (λ l. l ++ u) (sym (frames-append bs cs)) in
    let later : drop (length (frames bs)) (frames bs ++ t) ++ b ≡ frames cs ++ u =
      ap (λ l. l ++ b) (drop-append (frames bs) t) ∙ e in
    rw c (
      rw later (
        rw whole (
          o2 ∙ deliveries-append bs cs ∙ (λ i. sym o i ++ sym o' i),
          c2
              ∙ ap length (frames-append bs cs)
              ∙ omega (arith, length-append (frames bs) (frames cs), c'),
        )))

-- For every buffer `a` of bytes and whatever arrives after it: decoding both at once delivers what
-- decoding `a` delivers and then what decoding its unconsumed tail with the new bytes delivers, and
-- the bytes consumed add up. So a caller may cut the stream anywhere.
pub decode_stream-resume :
    (a b : Bytes)
    → All IsByte a
    → All IsByte b
    → ((decode_stream (a ++ b)).out
        ≡ (decode_stream a).out ++ (decode_stream (drop (decode_stream a).consumed a ++ b)).out)
      × ((decode_stream (a ++ b)).consumed
          ≡ (decode_stream a).consumed
            + (decode_stream (drop (decode_stream a).consumed a ++ b)).consumed)
decode_stream-resume a b ha hb =
    let (bs, t, e, s, p) = framing (length a) a (omega arith) ha in
    rw e (
      resume_from bs t b s p
        (All-append IsByte t b (All-tail IsByte (frames bs) t (subst (All IsByte) e ha)) hb))
