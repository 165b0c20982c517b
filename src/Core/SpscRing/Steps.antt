-- ===== src/Core/SpscRing/Steps.antt =====
-- spsc_ring.hpp: each write, store and read of a call keeps the queue.
use native.Mathlib.Nat.{mod-lt}
use opti_trade_engine.Prelude.{
  ℕ, zero, suc, ◌+◌, ◌%◌, ◌≤◌, ◌<◌, ◌≡◌, refl, sym, ◌∙◌, ap, List, [], ◌∷◌, ◌++◌, ltb, length,
  get_or, set, take, length-set, length-append, get_or-set_self, get_or-set_ne, arith, Bool-cases,
  inl, inr,
}
use opti_trade_engine.Core.SpscRing.{SpscRing, Producer, Consumer, next_word}
use opti_trade_engine.Core.SpscRing.Words.{cell_of_word, cells_apart}
use opti_trade_engine.Core.SpscRing.Fifo.{Consuming, IsFifo, consumer-IsFifo}

-- A log with one more value.
module _ {A : Type 0} (blank v : A) where
  get_or-push_old :
      (i : ℕ) (xs : List A) → i < length xs → get_or (xs ++ v ∷ []) i blank ≡ get_or xs i blank
  get_or-push_old i [] h = elim h [ ]
  get_or-push_old zero (x ∷ xs) h = refl
  get_or-push_old (suc i) (x ∷ xs) h = get_or-push_old i xs (omega arith)

  get_or-push_new : (xs : List A) → get_or (xs ++ v ∷ []) (length xs) blank ≡ v
  get_or-push_new [] = refl
  get_or-push_new (x ∷ xs) = get_or-push_new xs

  take-push : (n : ℕ) (xs : List A) → n ≤ length xs → take n (xs ++ v ∷ []) ≡ take n xs
  take-push zero xs h = refl
  take-push (suc n) [] h = elim h [ ]
  take-push (suc n) (x ∷ xs) h = ap (λ (l : List A). x ∷ l) (take-push n xs (omega arith))

take_one_more :
    {A : Type 0} (blank : A) (n : ℕ) (xs : List A)
    → n < length xs
    → take (suc n) xs ≡ take n xs ++ get_or xs n blank ∷ []
take_one_more blank n [] h = elim h [ ]
take_one_more blank zero (x ∷ xs) h = refl
take_one_more blank (suc n) (x ∷ xs) h =
    ap (λ (l : List _). x ∷ l) (take_one_more blank n xs (omega arith))

module _ {A : Type 0} (blank : A) (r : SpscRing A) (f : IsFifo blank r) where
  in_order : f.first ≤ f.next
  in_order = omega (arith, f.ahead, f.late_next)

  pushed-Consuming :
      (v : A) (c : Consumer A)
      → Consuming blank r f.first f.seen_next c
      → Consuming blank
          (record r {
            tail = next_word r.tail;
            producer = Producer.idle;
            pushed = r.pushed ++ v ∷ [];
          })
          f.first
          f.seen_next
          c
  pushed-Consuming v Consumer.idle h = tt
  pushed-Consuming v Consumer.reading h = h
  pushed-Consuming v (Consumer.retiring x) h =
      let below : f.first < length r.pushed = omega (arith, f.all_pushed, h.0, f.late_next) in
      (h.0, h.1 ∙ sym (get_or-push_old blank v f.first r.pushed below))

  -- The producer writes a cell that the consumer does not own.
  pub write-IsFifo :
      (v : A)
      → f.next < f.seen_first + r.cap
      → IsFifo blank
          (record r { buf = set r.buf (r.tail % r.cap) v; producer = Producer.publishing v })
  write-IsFifo v some_room =
      let cell : r.tail % r.cap ≡ f.next % r.cap =
        rw f.tail_is (cell_of_word r.cap f.next f.divides) in
      let inside : r.tail % r.cap < length r.buf = rw f.size (mod-lt r.tail f.some_cells) in
      record {
        first = f.first;
        seen_first = f.seen_first;
        seen_next = f.seen_next;
        next = f.next;
        size = length-set r.buf (r.tail % r.cap) v ∙ f.size;
        some_cells = f.some_cells;
        small = f.small;
        divides = f.divides;
        head_is = f.head_is;
        cached_head_is = f.cached_head_is;
        cached_tail_is = f.cached_tail_is;
        tail_is = f.tail_is;
        late_first = f.late_first;
        ahead = f.ahead;
        late_next = f.late_next;
        room = f.room;
        all_pushed = f.all_pushed;
        all_popped = f.all_popped;
        cells = λ i from below.
            let apart =
              cells_apart r.cap i f.next below (omega (arith, some_room, f.late_first, from)) in
            get_or-set_ne r.buf (r.tail % r.cap) (i % r.cap) v blank (λ e. apart (sym e ∙ cell))
            ∙ f.cells i from below;
        producing =
            (some_room, rw (← cell) (get_or-set_self r.buf (r.tail % r.cap) v blank inside));
        consuming = f.consuming;
      }

  -- The value is in the ring for the consumer once the tail is stored.
  pub publish-IsFifo :
      (v : A)
      → f.next < f.seen_first + r.cap
      → get_or r.buf (f.next % r.cap) blank ≡ v
      → IsFifo blank (record r {
        tail = next_word r.tail;
        producer = Producer.idle;
        pushed = r.pushed ++ v ∷ [];
      })
  publish-IsFifo v some_room written = record {
    first = f.first;
    seen_first = f.seen_first;
    seen_next = f.seen_next;
    next = f.next + 1;
    size = f.size;
    some_cells = f.some_cells;
    small = f.small;
    divides = f.divides;
    head_is = f.head_is;
    cached_head_is = f.cached_head_is;
    cached_tail_is = f.cached_tail_is;
    tail_is = omega (arith, f.tail_is);
    late_first = f.late_first;
    ahead = f.ahead;
    late_next = omega (arith, f.late_next);
    room = omega (arith, some_room);
    all_pushed = omega (arith, length-append r.pushed (v ∷ []), f.all_pushed);
    all_popped =
        f.all_popped
        ∙ sym (take-push blank v f.first r.pushed (omega (arith, f.all_pushed, in_order)));
    cells = λ i from below. elim (Bool-cases (ltb i f.next)) [
      | inl old ↦
          f.cells i from (ground (arith, old))
          ∙ sym (get_or-push_old blank v i r.pushed (ground (arith, old, f.all_pushed)))
      | inr new_one ↦
          let is : i ≡ f.next = ground (arith, new_one, below) in
          let there : length r.pushed ≡ i = omega (arith, f.all_pushed, is) in
          ap (λ (k : ℕ). get_or r.buf (k % r.cap) blank) is
          ∙ written
          ∙ sym (
              ap (λ (k : ℕ). get_or (r.pushed ++ v ∷ []) k blank) (sym there)
              ∙ get_or-push_new blank v r.pushed)
    ];
    producing = tt;
    consuming = pushed-Consuming v r.consumer f.consuming;
  }

  pub read-IsFifo :
      f.first < f.seen_next
      → IsFifo blank
          (record r { consumer = Consumer.retiring (get_or r.buf (r.head % r.cap) blank) })
  read-IsFifo some_value =
      let cell : r.head % r.cap ≡ f.first % r.cap =
        rw f.head_is (cell_of_word r.cap f.first f.divides) in
      consumer-IsFifo blank r f f.seen_next r.cached_tail _ f.cached_tail_is (omega arith)
        f.late_next
        (
          some_value,
          ap (λ (k : ℕ). get_or r.buf k blank) cell
              ∙ f.cells f.first (omega arith) (omega (arith, some_value, f.late_next)),
        )

  pub retire-IsFifo :
      (v : A)
      → f.first < f.seen_next
      → v ≡ get_or r.pushed f.first blank
      → IsFifo blank (record r {
        head = next_word r.head;
        consumer = Consumer.idle;
        popped = r.popped ++ v ∷ [];
      })
  retire-IsFifo v some_value is =
      let one_more : f.first + 1 ≡ suc f.first = omega arith in
      record {
        first = f.first + 1;
        seen_first = f.seen_first;
        seen_next = f.seen_next;
        next = f.next;
        size = f.size;
        some_cells = f.some_cells;
        small = f.small;
        divides = f.divides;
        head_is = omega (arith, f.head_is);
        cached_head_is = f.cached_head_is;
        cached_tail_is = f.cached_tail_is;
        tail_is = f.tail_is;
        late_first = omega (arith, f.late_first);
        ahead = omega (arith, some_value);
        late_next = f.late_next;
        room = f.room;
        all_pushed = f.all_pushed;
        all_popped =
            rw (f.all_popped, is)
              (sym (
                ap (λ (k : ℕ). take k r.pushed) one_more
                ∙ take_one_more blank f.first r.pushed
                    (omega (arith, some_value, f.late_next, f.all_pushed))));
        cells = λ i from below. f.cells i (omega (arith, from)) below;
        producing = f.producing;
        consuming = tt;
      }
