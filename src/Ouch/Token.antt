-- ===== src/Ouch/Token.antt =====
-- include/optitrade/ouch/messages.hpp, the class Token as a number: fourteen decimal digits. The loop
-- of from_id writes the digits from the last one to the first.
use opti_trade_engine.Prelude.{
  ℕ, zero, suc, ◌+◌, ◌-◌, ◌*◌, ◌/◌, ◌%◌, ◌<◌, ◌≤◌, ◌≡◌, refl, sym, ap, ◌∙◌, Bool, true, ◌&&◌, [],
  ◌∷◌, ◌++◌, Option, none, some, leb, ltb, ◌==◌, if◌then◌else◌, arith, append_assoc, append_nil,
}
use opti_trade_engine.Core.Wire.{Bytes}
use opti_trade_engine.Ouch.Messages.{Token}
use opti_trade_engine.Ouch.Fields.{put_token, get_token}

abbrev pub token_size : ℕ
token_size = 14

abbrev pub max_id : ℕ
max_id = 99999999999999

abbrev pub invalid : Token
invalid = record {
  t0 = b'#';
  t1 = b'#';
  t2 = b'#';
  t3 = b'#';
  t4 = b'#';
  t5 = b'#';
  t6 = b'#';
  t7 = b'#';
  t8 = b'#';
  t9 = b'#';
  t10 = b'#';
  t11 = b'#';
  t12 = b'#';
  t13 = b'#';
}

-- The last `n` digits.
unfoldable pub digits : ℕ → ℕ → Bytes
digits zero id = []
digits (suc n) id = digits n (id / 10) ++ (b'0' + id % 10) ∷ []

unfoldable pub from_id : ℕ → Token
from_id id = if ltb max_id id then invalid else get_token (digits token_size id) 0

unfoldable pub all_blank : Bytes → Bool
all_blank [] = true
all_blank (c ∷ cs) = (c == b' ') && all_blank cs

abbrev pub is_digit : ℕ → Bool
is_digit c = leb b'0' c && leb c b'9'

-- The loop over the characters, with the value and the number of digits so far.
unfoldable pub scan : Bytes → ℕ → ℕ → Option ℕ
unfolding all_blank
scan [] value found = if found == 0 then none else some value
scan (c ∷ cs) value found =
    let further = scan cs (value * 10 + (c - b'0')) (found + 1) in
    if is_digit c
    then further
    else if found == 0
    then none
    else if all_blank (c ∷ cs)
    then some value
    else none

unfoldable pub to_id : Token → Option ℕ
to_id t = scan (put_token t) 0 0

-- The value that the digits stand for, behind `value`.
unfoldable joined : ℕ → ℕ → ℕ → ℕ
joined zero value id = value
joined (suc n) value id = joined n value (id / 10) * 10 + id % 10

one_digit :
    (x value found : ℕ) (rest : Bytes)
    → x < 10
    → scan ((b'0' + x) ∷ rest) value found ≡ scan rest (value * 10 + x) (found + 1)
unfolding scan
one_digit x value found rest h =
    let digit : is_digit (b'0' + x) ≡ true = ground arith in
    let back : b'0' + x - b'0' ≡ x = omega arith in rw digit (rw back refl)

scan-digits :
    (n id value found : ℕ) (rest : Bytes)
    → scan (digits n id ++ rest) value found ≡ scan rest (joined n value id) (found + n)
unfolding digits joined
scan-digits zero id value found rest = ap (scan rest value) (omega arith)
scan-digits (suc n) id value found rest =
    let last : Bytes = (b'0' + id % 10) ∷ [] in
    ap (λ (l : Bytes). scan l value found) (append_assoc (digits n (id / 10)) last rest)
    ∙ scan-digits n (id / 10) value found (last ++ rest)
    ∙ one_digit (id % 10) (joined n value (id / 10)) (found + n) rest (omega arith)
    ∙ ap (scan rest (joined n value (id / 10) * 10 + id % 10)) (omega arith)

pow10 : ℕ → ℕ
pow10 zero = 1
pow10 (suc n) = pow10 n * 10

joined_all : (n id : ℕ) → id < pow10 n → joined n 0 id ≡ id
unfolding joined pow10
joined_all zero id h = omega arith
joined_all (suc n) id h = omega (arith, joined_all n (id / 10) (omega arith))

within : (id : ℕ) (x y : Token) → id ≤ max_id → (if ltb max_id id then x else y) ≡ y
within id x y h = ground arith

put_token-get_token : (id : ℕ) → put_token (get_token (digits 14 id) 0) ≡ digits 14 id
unfolding put_token get_token digits
put_token-get_token id = refl

put_token-from_id : (id : ℕ) → id ≤ max_id → put_token (from_id id) ≡ digits 14 id
unfolding from_id
put_token-from_id id h =
    ap put_token (within id invalid (get_token (digits token_size id) 0) h) ∙ put_token-get_token id

fourteen : (id : ℕ) → id ≤ max_id → id < pow10 14
unfolding pow10
fourteen id h = omega arith

ends : (value : ℕ) → scan [] value (0 + 14) ≡ some value
unfolding scan
ends value = refl

-- The token of every number of at most fourteen digits is read back as that number.
pub to_id-from_id : (id : ℕ) → id ≤ max_id → to_id (from_id id) ≡ some id
unfolding to_id
to_id-from_id id h =
    ap (λ (l : Bytes). scan l 0 0) (put_token-from_id id h ∙ sym (append_nil (digits 14 id)))
    ∙ scan-digits 14 id 0 0 []
    ∙ ends (joined 14 0 id)
    ∙ ap (λ (n : ℕ). some n) (joined_all 14 id (fourteen id h))
