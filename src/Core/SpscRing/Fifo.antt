-- ===== src/Core/SpscRing/Fifo.antt =====
-- spsc_ring.hpp: in every interleaving what is popped is what was pushed, in order, and the ring holds
-- the rest.
use Prim.Native.Nat.{◌∣◌}
use opti_trade_engine.Prelude.{
  ℕ, ◌+◌, ◌-◌, ◌%◌, ◌≤◌, ◌<◌, ◌≡◌, leb, ◌==◌, if◌then◌else◌, length, get_or, take, min, at_if,
  arith,
}
use opti_trade_engine.Core.SpscRing.{
  SpscRing, Producer, Consumer, words, sub_word, load, check_push, check_pop,
}
use opti_trade_engine.Core.SpscRing.Words.{sub_word-exact, load-exact, same_word}

module _ {A : Type 0} (blank : A) where
  -- What holds of a thread in the middle of its call.
  abbrev pub Producing : SpscRing A → ℕ → ℕ → Producer A → Type 0
  Producing r seen next Producer.idle = Unit
  Producing r seen next (Producer.writing v) = next < seen + r.cap
  Producing r seen next (Producer.publishing v) =
      (next < seen + r.cap) × (get_or r.buf (next % r.cap) blank ≡ v)

  abbrev pub Consuming : SpscRing A → ℕ → ℕ → Consumer A → Type 0
  Consuming r first seen Consumer.idle = Unit
  Consuming r first seen Consumer.reading = first < seen
  Consuming r first seen (Consumer.retiring v) = (first < seen) × (v ≡ get_or r.pushed first blank)

  -- The counters without their wrap-around: `first` and `next` are head and tail, the others what each
  -- side last saw of them.
  pub record IsFifo (r : SpscRing A) : Type 0 where
    pub first : ℕ
    pub seen_first : ℕ
    pub seen_next : ℕ
    pub next : ℕ
    pub size : length r.buf ≡ r.cap
    pub some_cells : 0 < r.cap
    pub small : r.cap < words
    pub divides : r.cap ∣ words
    pub head_is : r.head ≡ first % words
    pub cached_head_is : r.cached_head ≡ seen_first % words
    pub cached_tail_is : r.cached_tail ≡ seen_next % words
    pub tail_is : r.tail ≡ next % words
    pub late_first : seen_first ≤ first
    pub ahead : first ≤ seen_next
    pub late_next : seen_next ≤ next
    pub room : next ≤ seen_first + r.cap
    pub all_pushed : length r.pushed ≡ next
    pub all_popped : r.popped ≡ take first r.pushed
    pub cells :
        (i : ℕ) → first ≤ i → i < next → get_or r.buf (i % r.cap) blank ≡ get_or r.pushed i blank
    pub producing : Producing r seen_first next r.producer
    pub consuming : Consuming r first seen_next r.consumer

  -- The producer goes on, with what it saw of the head.
  pub producer-IsFifo :
      (r : SpscRing A) (f : IsFifo r) (seen : ℕ) (cached : ℕ) (producer : Producer A)
      → cached ≡ seen % words
      → f.seen_first ≤ seen
      → seen ≤ f.first
      → Producing r seen f.next producer
      → IsFifo (record r { cached_head = cached; producer = producer })
  producer-IsFifo r f seen cached producer is more late goes_on = record {
    first = f.first;
    seen_first = seen;
    seen_next = f.seen_next;
    next = f.next;
    size = f.size;
    some_cells = f.some_cells;
    small = f.small;
    divides = f.divides;
    head_is = f.head_is;
    cached_head_is = is;
    cached_tail_is = f.cached_tail_is;
    tail_is = f.tail_is;
    late_first = late;
    ahead = f.ahead;
    late_next = f.late_next;
    room = omega (arith, f.room, more);
    all_pushed = f.all_pushed;
    all_popped = f.all_popped;
    cells = f.cells;
    producing = goes_on;
    consuming = f.consuming;
  }

  pub consumer-IsFifo :
      (r : SpscRing A) (f : IsFifo r) (seen : ℕ) (cached : ℕ) (consumer : Consumer A)
      → cached ≡ seen % words
      → f.seen_next ≤ seen
      → seen ≤ f.next
      → Consuming r f.first seen consumer
      → IsFifo (record r { cached_tail = cached; consumer = consumer })
  consumer-IsFifo r f seen cached consumer is more late goes_on = record {
    first = f.first;
    seen_first = f.seen_first;
    seen_next = seen;
    next = f.next;
    size = f.size;
    some_cells = f.some_cells;
    small = f.small;
    divides = f.divides;
    head_is = f.head_is;
    cached_head_is = f.cached_head_is;
    cached_tail_is = is;
    tail_is = f.tail_is;
    late_first = f.late_first;
    ahead = omega (arith, f.ahead, more);
    late_next = late;
    room = f.room;
    all_pushed = f.all_pushed;
    all_popped = f.all_popped;
    cells = f.cells;
    producing = f.producing;
    consuming = goes_on;
  }

  -- The producer's test.
  pub check_push-IsFifo :
      (v : A) (lag : ℕ) (r : SpscRing A)
      → IsFifo r
      → r.producer ≡ Producer.idle
      → IsFifo (check_push v lag r)
  unfolding check_push
  check_push-IsFifo v lag r f waits =
      let head = load r.head r.cached_head lag in
      let seen = f.seen_first + min lag (f.first - f.seen_first) in
      let in_order : f.first ≤ f.next = omega (arith, f.ahead, f.late_next) in
      let head_now : head ≡ seen % words =
        rw (f.head_is, f.cached_head_is)
          (load-exact f.first f.seen_first lag f.late_first
            (omega (arith, f.room, f.small, in_order))) in
      let held : sub_word r.tail r.cached_head ≡ f.next - f.seen_first =
        rw (f.tail_is, f.cached_head_is)
          (sub_word-exact f.seen_first f.next (omega (arith, f.late_first, in_order))
            (omega (arith, f.room, f.small))) in
      let held_now : sub_word r.tail head ≡ f.next - seen =
        rw (f.tail_is, head_now)
          (sub_word-exact seen f.next (omega (arith, f.late_first, in_order))
            (omega (arith, f.room, f.small))) in
      let full = record r { cached_head = head } in
      let writes : SpscRing A = record r { cached_head = head; producer = Producer.writing v } in
      let at_once : SpscRing A = record r { producer = Producer.writing v } in
      at_if IsFifo (leb r.cap (sub_word r.tail r.cached_head))
        (if leb r.cap (sub_word r.tail head) then full else writes) at_once
        (λ looks_full.
          at_if IsFifo (leb r.cap (sub_word r.tail head)) full writes
            (λ is_full.
              producer-IsFifo r f seen head r.producer head_now (omega arith)
                (omega (arith, f.late_first)) (rw waits tt))
            (λ some_room.
              producer-IsFifo r f seen head (Producer.writing v) head_now (omega arith)
                (omega (arith, f.late_first)) (ground (arith, some_room, held_now))))
        (λ some_room.
          producer-IsFifo r f f.seen_first r.cached_head (Producer.writing v) f.cached_head_is
            (omega arith) f.late_first (ground (arith, some_room, held)))

  -- The consumer's test.
  pub check_pop-IsFifo :
      (lag : ℕ) (r : SpscRing A) → IsFifo r → r.consumer ≡ Consumer.idle → IsFifo (check_pop lag r)
  unfolding check_pop
  check_pop-IsFifo lag r f waits =
      let tail = load r.tail r.cached_tail lag in
      let seen = f.seen_next + min lag (f.next - f.seen_next) in
      let near : f.next < f.first + words = omega (arith, f.room, f.small, f.late_first) in
      let tail_now : tail ≡ seen % words =
        rw (f.tail_is, f.cached_tail_is)
          (load-exact f.next f.seen_next lag f.late_next (omega (arith, near, f.ahead))) in
      let same : (r.head == r.cached_tail) ≡ (f.first == f.seen_next) =
        rw (f.head_is, f.cached_tail_is)
          (same_word f.first f.seen_next f.ahead (omega (arith, near, f.late_next))) in
      let same_now : (r.head == tail) ≡ (f.first == seen) =
        rw (f.head_is, tail_now)
          (same_word f.first seen (omega (arith, f.ahead)) (omega (arith, near, f.late_next))) in
      let empty = record r { cached_tail = tail } in
      let reads : SpscRing A = record r { cached_tail = tail; consumer = Consumer.reading } in
      let at_once : SpscRing A = record r { consumer = Consumer.reading } in
      at_if IsFifo (r.head == r.cached_tail) (if r.head == tail then empty else reads) at_once
        (λ looks_empty.
          at_if IsFifo (r.head == tail) empty reads
            (λ is_empty.
              consumer-IsFifo r f seen tail r.consumer tail_now (omega arith)
                (omega (arith, f.late_next)) (rw waits tt))
            (λ some_value.
              consumer-IsFifo r f seen tail Consumer.reading tail_now (omega arith)
                (omega (arith, f.late_next)) (ground (arith, some_value, same_now, f.ahead))))
        (λ some_value.
          consumer-IsFifo r f f.seen_next r.cached_tail Consumer.reading f.cached_tail_is
            (omega arith) f.late_next (ground (arith, some_value, same, f.ahead)))
