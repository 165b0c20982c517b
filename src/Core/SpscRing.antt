-- ===== src/Core/SpscRing.antt =====
-- include/optitrade/core/spsc_ring.hpp, the class SpscRing: each side of the ring does one atomic step
-- at a time, in any interleaving. An acquire load of the other side's index may return any value that
-- was stored since the last one that this side saw: `lag` says how many stores it has caught up with.
-- A capacity is a power of two, so a mask is a remainder.
use opti_trade_engine.Prelude.{
  ℕ, zero, suc, ◌+◌, ◌-◌, ◌*◌, ◌%◌, Bool, true, false, List, [], ◌∷◌, ◌++◌, Option, none, some, ltb,
  leb, ◌==◌, if◌then◌else◌, get_or, set, replicate, min, max,
}
pub mod Steps
pub mod Words
pub mod Fifo
pub mod Runs
pub mod Queue
mod Tests

-- 2 ^ 64, the number of values of a std::size_t.
abbrev pub words : ℕ
words = 18446744073709551616

abbrev pub sub_word : ℕ → ℕ → ℕ
sub_word a b = (a + words - b) % words

abbrev pub next_word : ℕ → ℕ
next_word a = (a + 1) % words

-- std::bit_ceil by doubling, with fuel for the doublings.
unfoldable pub bit_ceil : ℕ → ℕ → ℕ → ℕ
bit_ceil zero p n = p
bit_ceil (suc fuel) p n = let rest = bit_ceil fuel (2 * p) n in if leb n p then p else rest

-- Where it throws there is no capacity.
unfoldable pub rounded_capacity : ℕ → Option ℕ
unfolding bit_ceil
rounded_capacity n = if ltb 9223372036854775808 n then none else some (bit_ceil 63 1 (max 2 n))

-- Where a thread stands in its call.
pub data Producer (A : Type 0) : Type 0 where
  idle : Producer A
  writing publishing : A → Producer A

pub data Consumer (A : Type 0) : Type 0 where
  idle reading : Consumer A
  retiring : A → Consumer A

pub record SpscRing (A : Type 0) : Type 0 where
  pub cap : ℕ
  pub buf : List A
  pub head : ℕ
  pub cached_tail : ℕ
  pub tail : ℕ
  pub cached_head : ℕ
  pub producer : Producer A
  pub consumer : Consumer A
  -- What try_push() has taken and what try_pop() has given, the oldest first.
  pub pushed : List A
  pub popped : List A

unfoldable pub new : {A : Type 0} → A → ℕ → SpscRing A
new blank cap = record {
  cap = cap;
  buf = replicate cap blank;
  head = 0;
  cached_tail = 0;
  tail = 0;
  cached_head = 0;
  producer = Producer.idle;
  consumer = Consumer.idle;
  pushed = [];
  popped = [];
}

-- An acquire load of an index that this side last saw as `seen`.
abbrev pub load : ℕ → ℕ → ℕ → ℕ
load index seen lag = (seen + min lag (sub_word index seen)) % words

pub data Action (A : Type 0) : Type 0 where
  push_check : A → ℕ → Action A
  push_write push_publish : Action A
  pop_check : ℕ → Action A
  pop_read pop_retire : Action A

-- try_push() up to its write: the test for a full ring.
unfoldable pub check_push : {A : Type 0} → A → ℕ → SpscRing A → SpscRing A
check_push v lag r =
    let head = load r.head r.cached_head lag in
    if leb r.cap (sub_word r.tail r.cached_head)
    then if leb r.cap (sub_word r.tail head)
      then record r { cached_head = head }
      else record r { cached_head = head; producer = Producer.writing v }
    else record r { producer = Producer.writing v }

-- try_pop() up to its read: the test for an empty ring.
unfoldable pub check_pop : {A : Type 0} → ℕ → SpscRing A → SpscRing A
check_pop lag r =
    let tail = load r.tail r.cached_tail lag in
    if r.head == r.cached_tail
    then if r.head == tail
      then record r { cached_tail = tail }
      else record r { cached_tail = tail; consumer = Consumer.reading }
    else record r { consumer = Consumer.reading }

unfoldable pub produce : {A : Type 0} → Producer A → Action A → SpscRing A → SpscRing A
unfolding check_push
produce Producer.idle (push_check v lag) r = check_push v lag r
produce (Producer.writing v) push_write r = record r {
  buf = set r.buf (r.tail % r.cap) v;
  producer = Producer.publishing v;
}
produce (Producer.publishing v) push_publish r = record r {
  tail = next_word r.tail;
  producer = Producer.idle;
  pushed = r.pushed ++ v ∷ [];
}
produce other action r = r

unfoldable pub consume : {A : Type 0} → A → Consumer A → Action A → SpscRing A → SpscRing A
unfolding check_pop
consume blank Consumer.idle (pop_check lag) r = check_pop lag r
consume blank Consumer.reading pop_read r = record r {
  consumer = Consumer.retiring (get_or r.buf (r.head % r.cap) blank);
}
consume blank (Consumer.retiring v) pop_retire r = record r {
  head = next_word r.head;
  consumer = Consumer.idle;
  popped = r.popped ++ v ∷ [];
}
consume blank other action r = r

-- A step of the thread whose action it is; an action out of turn is none.
unfoldable pub step : {A : Type 0} → A → SpscRing A → Action A → SpscRing A
unfolding produce consume
step blank r (push_check v lag) = produce r.producer (push_check v lag) r
step blank r push_write = produce r.producer push_write r
step blank r push_publish = produce r.producer push_publish r
step blank r (pop_check lag) = consume blank r.consumer (pop_check lag) r
step blank r pop_read = consume blank r.consumer pop_read r
step blank r pop_retire = consume blank r.consumer pop_retire r

unfoldable pub run : {A : Type 0} → A → SpscRing A → List (Action A) → SpscRing A
run blank r [] = r
run blank r (a ∷ actions) = run blank (step blank r a) actions

-- With no thread between its steps.
unfoldable pub size_approx : {A : Type 0} → SpscRing A → ℕ
size_approx r = min (sub_word r.tail r.head) r.cap
