-- ===== src/Core/Frames.antt =====
-- The framing that the market data stream and the datagrams share: a 16-bit length, then that many
-- bytes, again and again.
use opti_trade_engine.Prelude.{
  ℕ, suc, ◌+◌, ◌*◌, ◌^◌, ◌<◌, ◌≤◌, ◌≡◌, refl, sym, ap, ◌∙◌, List, [], ◌∷◌, ◌++◌, length, drop, zero,
  ◌/◌, ◌%◌, All, arith, drop-append, append_assoc, length-append,
}
use opti_trade_engine.Core.Wire.{Bytes, load16, store16, load16-store16}

unfoldable pub frames : List Bytes → Bytes
frames [] = []
frames (b ∷ bs) = store16 (length b) ++ (b ++ frames bs)

abbrev pub Short : Bytes → Type 0
Short b = length b < 2 ^ 16

pub load16-frame : (b more : Bytes) → Short b → load16 (store16 (length b) ++ more) 0 ≡ length b
unfolding load16 store16
load16-frame b more h = load16-store16 (length b) h

pub drop_frame : (b more : Bytes) → drop (2 + length b) (store16 (length b) ++ (b ++ more)) ≡ more
unfolding store16
drop_frame b more =
    let e : 2 + length b ≡ suc (suc (length b)) = omega arith in rw e (drop-append b more)

pub length-frames : (bs : List Bytes) → length bs * 2 ≤ length (frames bs)
unfolding frames store16
length-frames [] = omega arith
length-frames (b ∷ bs) = omega (arith, length-append b (frames bs), length-frames bs)

pub length-frame :
    (b : Bytes) (bs : List Bytes) → length (frames (b ∷ bs)) ≡ 2 + (length b + length (frames bs))
unfolding frames store16
length-frame b bs = omega (arith, length-append b (frames bs))

abbrev pub IsByte : ℕ → Type 0
IsByte b = b < 2 ^ 8

pub store16-load16 :
    (x y : ℕ) (rest : Bytes)
    → x < 2 ^ 8
    → y < 2 ^ 8
    → store16 (load16 (x ∷ y ∷ rest) 0) ≡ x ∷ y ∷ []
unfolding store16 load16
store16-load16 x y rest hx hy =
    let high : (x * 2 ^ 8 + y) / 2 ^ 8 % 2 ^ 8 ≡ x = omega arith in
    let low : (x * 2 ^ 8 + y) % 2 ^ 8 ≡ y = omega arith in λ i. high i ∷ low i ∷ []

pub load16_bound :
    (x y : ℕ) (rest : Bytes) → x < 2 ^ 8 → y < 2 ^ 8 → load16 (x ∷ y ∷ rest) 0 < 2 ^ 16
unfolding load16
load16_bound x y rest hx hy = omega arith

pub All-drop : (n : ℕ) (bs : Bytes) → All IsByte bs → All IsByte (drop n bs)
All-drop zero bs a = a
All-drop (suc n) [] a = a
All-drop (suc n) (x ∷ xs) a = All-drop n xs a.1

pub rejoin :
    (x y len : ℕ) (body more rest fs tail : Bytes)
    → body ++ more ≡ rest
    → more ≡ fs ++ tail
    → length body ≡ len
    → store16 len ≡ x ∷ y ∷ []
    → x ∷ y ∷ rest ≡ (store16 (length body) ++ (body ++ fs)) ++ tail
rejoin x y len body more rest fs tail e f l st =
    rw l (rw st (λ i. x ∷ y ∷ (sym e ∙ ap (λ t. body ++ t) f ∙ sym (append_assoc body fs tail)) i))

pub frames-append : (bs cs : List Bytes) → frames (bs ++ cs) ≡ frames bs ++ frames cs
unfolding frames store16
frames-append [] cs = refl
frames-append (b ∷ bs) cs =
    rw (frames-append bs cs) (rw (append_assoc b (frames bs) (frames cs)) refl)
