-- ===== src/Net/Mold64/Splices.antt =====
-- net/mold64.hpp: what a write into a buffer leaves, and what is read behind a prefix.
use opti_trade_engine.Prelude.{
  ℕ, zero, suc, ◌+◌, ◌*◌, ◌^◌, ◌≡◌, refl, ap, [], ◌∷◌, ◌++◌, length, take, drop, arith, take-append,
  length-append,
}
use opti_trade_engine.Core.Wire.{Bytes, byte_at, load16, load32, load64, store16, store32, store64}
use opti_trade_engine.Net.Mold64.{write_at}

pub drop_add : (n m : ℕ) (xs ys : Bytes) → n ≡ length xs + m → drop n (xs ++ ys) ≡ drop m ys
drop_add n m [] ys e = rw e (ap (λ (k : ℕ). drop k ys) (omega arith))
drop_add zero m (x ∷ xs) ys e = absurd (omega arith)
drop_add (suc n) m (x ∷ xs) ys e = drop_add n m xs ys (omega arith)

pub take_all : (n : ℕ) (xs ys : Bytes) → n ≡ length xs → take n (xs ++ ys) ≡ xs
take_all n xs ys e = rw e (take-append xs ys)

-- A write at the end of a prefix keeps the prefix.
pub write_at-append :
    (n : ℕ) (a j src : Bytes)
    → n ≡ length a
    → write_at (a ++ j) n src ≡ a ++ (src ++ drop (length src) j)
unfolding write_at
write_at-append n a j src e =
    rw (take_all n a j e) (rw (drop_add (n + length src) (length src) a j (omega arith)) refl)

byte_skip : (i j : ℕ) (xs ys : Bytes) → i ≡ length xs + j → byte_at (xs ++ ys) i ≡ byte_at ys j
byte_skip i j [] ys e = ap (byte_at ys) (omega arith)
byte_skip zero j (x ∷ xs) ys e = absurd (omega arith)
byte_skip (suc i) j (x ∷ xs) ys e = byte_skip i j xs ys (omega arith)

pub load16_skip : (i j : ℕ) (xs ys : Bytes) → i ≡ length xs + j → load16 (xs ++ ys) i ≡ load16 ys j
unfolding load16
load16_skip i j xs ys e =
    λ k. byte_skip i j xs ys e k * 2 ^ 8 + byte_skip (i + 1) (j + 1) xs ys (omega arith) k

load32_skip : (i j : ℕ) (xs ys : Bytes) → i ≡ length xs + j → load32 (xs ++ ys) i ≡ load32 ys j
unfolding load32
load32_skip i j xs ys e =
    λ k. load16_skip i j xs ys e k * 2 ^ 16 + load16_skip (i + 2) (j + 2) xs ys (omega arith) k

pub load64_skip : (i j : ℕ) (xs ys : Bytes) → i ≡ length xs + j → load64 (xs ++ ys) i ≡ load64 ys j
unfolding load64
load64_skip i j xs ys e =
    λ k. load32_skip i j xs ys e k * 2 ^ 32 + load32_skip (i + 4) (j + 4) xs ys (omega arith) k

-- The twenty bytes of a header.
unfoldable pub head : Bytes → ℕ → ℕ → Bytes
head session sequence count = session ++ (store64 sequence ++ store16 count)

pub length-head :
    (session : Bytes) (sequence count : ℕ)
    → length session ≡ 10
    → length (head session sequence count) ≡ 20
unfolding head store64 store32 store16
length-head session sequence count e =
    omega (arith, length-append session (store64 sequence ++ store16 count))
