-- ===== src/Core/Wire.antt =====
-- include/optitrade/core/endian.hpp (namespace be) and decode_status.hpp. A span of bytes is a list
-- of numbers below 256; a store is the list of the bytes that it writes, in order. A shift by k is
-- a product or a quotient by 2 ^ k, an `|` of disjoint bits a sum, a narrowing cast a remainder.
use opti_trade_engine.Prelude.{
  ℕ, ◌+◌, ◌*◌, ◌/◌, ◌%◌, ◌^◌, ◌<◌, ◌≡◌, List, [], ◌∷◌, ◌++◌, arith, get_or,
}

abbrev pub Bytes : Type 0
Bytes = List ℕ

abbrev pub byte_at : Bytes → ℕ → ℕ
byte_at bs i = get_or bs i 0

unfoldable pub load16 : Bytes → ℕ → ℕ
load16 bs i = byte_at bs i * 2 ^ 8 + byte_at bs (i + 1)

unfoldable pub load32 : Bytes → ℕ → ℕ
unfolding load16
load32 bs i = load16 bs i * 2 ^ 16 + load16 bs (i + 2)

unfoldable pub load48 : Bytes → ℕ → ℕ
unfolding load32
load48 bs i = load16 bs i * 2 ^ 32 + load32 bs (i + 2)

unfoldable pub load64 : Bytes → ℕ → ℕ
unfolding load32
load64 bs i = load32 bs i * 2 ^ 32 + load32 bs (i + 4)

unfoldable pub store16 : ℕ → Bytes
store16 v = (v / 2 ^ 8 % 2 ^ 8) ∷ (v % 2 ^ 8) ∷ []

unfoldable pub store32 : ℕ → Bytes
unfolding store16
store32 v = store16 (v / 2 ^ 16 % 2 ^ 16) ++ store16 (v % 2 ^ 16)

unfoldable pub store48 : ℕ → Bytes
unfolding store32
store48 v = store16 (v / 2 ^ 32 % 2 ^ 16) ++ store32 (v % 2 ^ 32)

unfoldable pub store64 : ℕ → Bytes
unfolding store32
store64 v = store32 (v / 2 ^ 32 % 2 ^ 32) ++ store32 (v % 2 ^ 32)

-- What is stored is loaded again, if it fits the field.
pub load16-store16 : (v : ℕ) → v < 2 ^ 16 → load16 (store16 v) 0 ≡ v
unfolding load16 store16
load16-store16 v h = omega arith

pub load32-store32 : (v : ℕ) → v < 2 ^ 32 → load32 (store32 v) 0 ≡ v
unfolding load32 store32
load32-store32 v h = omega arith

pub load48-store48 : (v : ℕ) → v < 2 ^ 48 → load48 (store48 v) 0 ≡ v
unfolding load48 store48
load48-store48 v h = omega arith

pub load64-store64 : (v : ℕ) → v < 2 ^ 64 → load64 (store64 v) 0 ≡ v
unfolding load64 store64
load64-store64 v h = omega arith

pub data DecodeStatus : Type 0 where
  ok truncated unknown_type bad_length bad_field : DecodeStatus
