-- ===== src/Core/SpscRing/Queue.antt =====
-- spsc_ring.hpp: what a new ring of a capacity rounded up to a power of two delivers and holds, whatever
-- the order of the steps of the two threads, and which cells they touch.
use Prim.Native.Nat.{◌∣◌}
use Prim.{∣◌∣₁}
use native.Mathlib.Nat.{pow-suc, mul-zero, mul-suc, mul_assoc, mul_comm}
use opti_trade_engine.Prelude.{
  ℕ, zero, suc, ◌+◌, ◌-◌, ◌*◌, ◌%◌, ◌^◌, ◌≤◌, ◌<◌, ◌≡◌, refl, sym, ◌∙◌, ap, Bool, true, false, ◌&&◌,
  List, [], ◌∷◌, ◌++◌, Option, some, none, ltb, leb, ◌==◌, length, get_or, drop, take-append-drop,
  length-take, max, arith, Bool-cases, inl, inr,
}
use opti_trade_engine.Core.SpscRing.{
  SpscRing, Producer, Consumer, Action, words, sub_word, next_word, new, run, bit_ceil,
  rounded_capacity, size_approx,
}
use opti_trade_engine.Core.SpscRing.Words.{sub_word-exact, cell_of_word, cells_apart}
use opti_trade_engine.Core.SpscRing.Fifo.{IsFifo, Producing, Consuming}
use opti_trade_engine.Core.SpscRing.Runs.{run-IsFifo, new-IsFifo}

-- The values in the ring, from an index on.
unfoldable pub gather : {A : Type 0} → A → List A → ℕ → ℕ → ℕ → List A
gather blank buf cap h zero = []
gather blank buf cap h (suc n) = get_or buf (h % cap) blank ∷ gather blank buf cap (next_word h) n

abbrev pub contents : {A : Type 0} → A → SpscRing A → List A
contents blank r = gather blank r.buf r.cap r.head (sub_word r.tail r.head)

drop_all : {A : Type 0} (h : ℕ) (xs : List A) → h ≡ length xs → drop h xs ≡ []
drop_all zero [] e = refl
drop_all (suc h) [] e = refl
drop_all zero (x ∷ xs) e = absurd (omega (arith, e))
drop_all (suc h) (x ∷ xs) e = drop_all h xs (omega (arith, e))

drop_one :
    {A : Type 0} (blank : A) (h : ℕ) (xs : List A)
    → h < length xs
    → drop h xs ≡ get_or xs h blank ∷ drop (suc h) xs
drop_one blank h [] less = elim less [ ]
drop_one blank zero (x ∷ xs) less = refl
drop_one blank (suc h) (x ∷ xs) less = drop_one blank h xs (omega arith)

gather-drop :
    {A : Type 0} (blank : A) (buf xs : List A) (cap h n : ℕ)
    → cap ∣ words
    → h + n ≡ length xs
    → ((i : ℕ) → h ≤ i → i < length xs → get_or buf (i % cap) blank ≡ get_or xs i blank)
    → gather blank buf cap (h % words) n ≡ drop h xs
unfolding gather
gather-drop blank buf xs cap h zero d e cells = sym (drop_all h xs (omega arith))
gather-drop blank buf xs cap h (suc n) d e cells =
    let after : next_word (h % words) ≡ suc h % words = omega arith in
    let here : get_or buf (h % words % cap) blank ≡ get_or xs h blank =
      ap (λ (k : ℕ). get_or buf k blank) (cell_of_word cap h d)
      ∙ cells h (omega arith) (omega arith) in
    let rest =
      gather-drop blank buf xs cap (suc h) n d (omega arith)
        (λ i from below. cells i (omega (arith, from)) below) in
    rw (after, here, rest) (sym (drop_one blank h xs (omega arith)))

doubled : (fuel p : ℕ) → 2 ^ suc fuel * p ≡ 2 ^ fuel * (2 * p)
doubled fuel p = ap (λ (k : ℕ). k * p) (pow-suc 2 fuel) ∙ mul_assoc (2 ^ fuel) 2 p

-- A capacity divides the power of two that the fuel allows.
bit_ceil-divides : (fuel p n : ℕ) → (c : ℕ) × (2 ^ fuel * p ≡ bit_ceil fuel p n * c)
unfolding bit_ceil
bit_ceil-divides zero p n = (1, omega arith)
bit_ceil-divides (suc fuel) p n = elim (Bool-cases (leb n p)) [
  | inl enough ↦ rw enough (2 ^ suc fuel, mul_comm (2 ^ suc fuel) p)
  | inr more ↦ rw more (let (c, e) = bit_ceil-divides fuel (2 * p) n in (c, doubled fuel p ∙ e))
]

bit_ceil-bounds :
    (fuel p n : ℕ) → 0 < p → n ≤ 2 ^ fuel * p → (n ≤ bit_ceil fuel p n) × (0 < bit_ceil fuel p n)
unfolding bit_ceil
bit_ceil-bounds zero p n some_cells small = (omega arith, some_cells)
bit_ceil-bounds (suc fuel) p n some_cells small = elim (Bool-cases (leb n p)) [
  | inl enough ↦ rw enough (ground arith, some_cells)
  | inr more ↦ rw more (bit_ceil-bounds fuel (2 * p) n (omega arith) (rw (← doubled fuel p) small))
]

-- What rounded_capacity() promises of a capacity.
pub record IsCapacity (n cap : ℕ) : Type 0 where
  pub enough : n ≤ cap
  pub some_cells : 0 < cap
  pub small : cap < words
  pub divides : cap ∣ words

capacity_small : (cap c : ℕ) → 9223372036854775808 ≡ cap * c → cap ≤ 9223372036854775808
capacity_small cap zero e = absurd (omega (arith, e, mul-zero cap))
capacity_small cap (suc c) e = omega (arith, e, mul-suc cap c)

twice : (cap c : ℕ) → 9223372036854775808 ≡ cap * c → words ≡ cap * (2 * c)
twice cap c e =
    ap (λ (k : ℕ). 2 * k) e
    ∙ sym (mul_assoc 2 cap c)
    ∙ ap (λ (k : ℕ). k * c) (mul_comm 2 cap)
    ∙ mul_assoc cap 2 c

pub rounded_capacity-IsCapacity : (n cap : ℕ) → rounded_capacity n ≡ some cap → IsCapacity n cap
unfolding rounded_capacity
rounded_capacity-IsCapacity n cap is = elim (Bool-cases (ltb 9223372036854775808 n)) [
  | inl large ↦ let no : ◌≡◌ {A = Option ℕ} none (some cap) = rw large at is in absurd (cc no)
  | inr fits ↦
      let kept : ◌≡◌ {A = Option ℕ} (some (bit_ceil 63 1 (max 2 n))) (some cap) = rw fits at is in
      let cap_is : bit_ceil 63 1 (max 2 n) ≡ cap =
        ap (λ (o : Option ℕ). elim o [ none ↦ 0 | some y ↦ y ]) kept in
      let (c, whole) = bit_ceil-divides 63 1 (max 2 n) in
      let bounds = bit_ceil-bounds 63 1 (max 2 n) (omega arith) (ground (arith, fits)) in
      let whole_cap : 9223372036854775808 ≡ cap * c = whole ∙ ap (λ (k : ℕ). k * c) cap_is in
      record {
        enough = omega (arith, bounds.0, cap_is);
        some_cells = omega (arith, bounds.1, cap_is);
        small = omega (arith, capacity_small cap c whole_cap);
        divides = ∣ (2 * c, twice cap c whole_cap) ∣₁;
      }
]

abbrev writes : {A : Type 0} → Producer A → Bool
writes (Producer.writing v) = true
writes other = false

abbrev reads : {A : Type 0} → Consumer A → Bool
reads Consumer.reading = true
reads other = false

-- The producer is about to write the cell that the consumer is about to read.
unfoldable pub same_cell : {A : Type 0} → SpscRing A → Bool
same_cell r = writes r.producer && reads r.consumer && (r.tail % r.cap == r.head % r.cap)

race_free :
    {A : Type 0} (blank : A) (r : SpscRing A) (f : IsFifo blank r) (p : Producer A) (c : Consumer A)
    → Producing blank r f.seen_first f.next p
    → Consuming blank r f.first f.seen_next c
    → (writes p && reads c && (r.tail % r.cap == r.head % r.cap)) ≡ false
race_free blank r f Producer.idle c h k = refl
race_free blank r f (Producer.publishing v) c h k = refl
race_free blank r f (Producer.writing v) Consumer.idle h k = refl
race_free blank r f (Producer.writing v) (Consumer.retiring w) h k = refl
race_free blank r f (Producer.writing v) Consumer.reading h k =
    let tail : r.tail % r.cap ≡ f.next % r.cap =
      rw f.tail_is (cell_of_word r.cap f.next f.divides) in
    let head : r.head % r.cap ≡ f.first % r.cap =
      rw f.head_is (cell_of_word r.cap f.first f.divides) in
    let apart =
      cells_apart r.cap f.first f.next (omega (arith, k, f.late_next))
        (omega (arith, h, f.late_first)) in
    rw (tail, head) (ground (arith, apart))

module _ {A : Type 0} (blank : A) (n cap : ℕ) (asked : rounded_capacity n ≡ some cap)
    (actions : List (Action A)) where
  abbrev ran : SpscRing A
  ran = run blank (new blank cap) actions

  run-new-IsFifo : IsFifo blank ran
  run-new-IsFifo =
      let c = rounded_capacity-IsCapacity n cap asked in
      run-IsFifo blank (new blank cap) actions (new-IsFifo blank cap c.some_cells c.small c.divides)

  -- In every interleaving, what was popped and then what the ring holds is what was pushed, in order;
  -- and what size_approx() gives with no call between its loads is how much the ring holds.
  pub run-queue :
      (ran.pushed ≡ ran.popped ++ contents blank ran)
      × (length ran.pushed ≡ length ran.popped + size_approx ran)
  unfolding size_approx
  run-queue =
      let f = run-new-IsFifo in
      let ordered : f.first ≤ f.next = omega (arith, f.ahead, f.late_next) in
      let held : sub_word ran.tail ran.head ≡ f.next - f.first =
        rw (f.tail_is, f.head_is)
          (sub_word-exact f.first f.next ordered (omega (arith, f.room, f.small, f.late_first))) in
      let rest : contents blank ran ≡ drop f.first ran.pushed =
        rw (held, f.head_is)
          (gather-drop blank ran.buf ran.pushed ran.cap f.first (f.next - f.first) f.divides
            (omega (arith, f.all_pushed, ordered))
            (λ i from below. f.cells i from (omega (arith, below, f.all_pushed)))) in
      let popped : length ran.popped ≡ f.first =
        rw f.all_popped (omega (arith, length-take f.first ran.pushed, f.all_pushed, ordered)) in
      (
        rw (rest, f.all_popped) (sym (take-append-drop f.first ran.pushed)),
        omega (arith, popped, held, f.all_pushed, ordered, f.room, f.late_first),
      )

  -- The producer is never about to write the cell that the consumer is about to read.
  pub run-no_race : same_cell ran ≡ false
  unfolding same_cell
  run-no_race =
      let f = run-new-IsFifo in
      race_free blank ran f ran.producer ran.consumer f.producing f.consuming
