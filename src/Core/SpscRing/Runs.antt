-- ===== src/Core/SpscRing/Runs.antt =====
-- spsc_ring.hpp: every interleaving of the steps of the two threads.
use Prim.Native.Nat.{◌∣◌}
use opti_trade_engine.Prelude.{ℕ, ◌<◌, ◌≡◌, refl, List, [], ◌∷◌, length-replicate, arith}
use opti_trade_engine.Core.SpscRing.{
  SpscRing, Producer, Consumer, Action, words, new, push_check, push_write, push_publish, pop_check,
  pop_read, pop_retire, produce, consume, step, run,
}
use opti_trade_engine.Core.SpscRing.Fifo.{
  Producing, Consuming, IsFifo, check_push-IsFifo, check_pop-IsFifo,
}
use opti_trade_engine.Core.SpscRing.Steps.{write-IsFifo, publish-IsFifo, read-IsFifo, retire-IsFifo}

-- What the two threads do.
produce-IsFifo :
    {A : Type 0} (blank : A) (r : SpscRing A) (p : Producer A) (a : Action A) (f : IsFifo blank r)
    → r.producer ≡ p
    → Producing blank r f.seen_first f.next p
    → IsFifo blank (produce p a r)
unfolding produce
produce-IsFifo blank r Producer.idle (push_check v lag) f is h =
    check_push-IsFifo blank v lag r f is
produce-IsFifo blank r Producer.idle push_write f is h = f
produce-IsFifo blank r Producer.idle push_publish f is h = f
produce-IsFifo blank r Producer.idle (pop_check lag) f is h = f
produce-IsFifo blank r Producer.idle pop_read f is h = f
produce-IsFifo blank r Producer.idle pop_retire f is h = f
produce-IsFifo blank r (Producer.writing v) (push_check w lag) f is h = f
produce-IsFifo blank r (Producer.writing v) push_write f is h = write-IsFifo blank r f v h
produce-IsFifo blank r (Producer.writing v) push_publish f is h = f
produce-IsFifo blank r (Producer.writing v) (pop_check lag) f is h = f
produce-IsFifo blank r (Producer.writing v) pop_read f is h = f
produce-IsFifo blank r (Producer.writing v) pop_retire f is h = f
produce-IsFifo blank r (Producer.publishing v) (push_check w lag) f is h = f
produce-IsFifo blank r (Producer.publishing v) push_write f is h = f
produce-IsFifo blank r (Producer.publishing v) push_publish f is h =
    publish-IsFifo blank r f v h.0 h.1
produce-IsFifo blank r (Producer.publishing v) (pop_check lag) f is h = f
produce-IsFifo blank r (Producer.publishing v) pop_read f is h = f
produce-IsFifo blank r (Producer.publishing v) pop_retire f is h = f

consume-IsFifo :
    {A : Type 0} (blank : A) (r : SpscRing A) (c : Consumer A) (a : Action A) (f : IsFifo blank r)
    → r.consumer ≡ c
    → Consuming blank r f.first f.seen_next c
    → IsFifo blank (consume blank c a r)
unfolding consume
consume-IsFifo blank r Consumer.idle (push_check v lag) f is h = f
consume-IsFifo blank r Consumer.idle push_write f is h = f
consume-IsFifo blank r Consumer.idle push_publish f is h = f
consume-IsFifo blank r Consumer.idle (pop_check lag) f is h = check_pop-IsFifo blank lag r f is
consume-IsFifo blank r Consumer.idle pop_read f is h = f
consume-IsFifo blank r Consumer.idle pop_retire f is h = f
consume-IsFifo blank r Consumer.reading (push_check v lag) f is h = f
consume-IsFifo blank r Consumer.reading push_write f is h = f
consume-IsFifo blank r Consumer.reading push_publish f is h = f
consume-IsFifo blank r Consumer.reading (pop_check lag) f is h = f
consume-IsFifo blank r Consumer.reading pop_read f is h = read-IsFifo blank r f h
consume-IsFifo blank r Consumer.reading pop_retire f is h = f
consume-IsFifo blank r (Consumer.retiring v) (push_check w lag) f is h = f
consume-IsFifo blank r (Consumer.retiring v) push_write f is h = f
consume-IsFifo blank r (Consumer.retiring v) push_publish f is h = f
consume-IsFifo blank r (Consumer.retiring v) (pop_check lag) f is h = f
consume-IsFifo blank r (Consumer.retiring v) pop_read f is h = f
consume-IsFifo blank r (Consumer.retiring v) pop_retire f is h = retire-IsFifo blank r f v h.0 h.1

step-IsFifo :
    {A : Type 0} (blank : A) (r : SpscRing A) (a : Action A)
    → IsFifo blank r
    → IsFifo blank (step blank r a)
unfolding step
step-IsFifo blank r (push_check v lag) f = produce-IsFifo blank r r.producer _ f refl f.producing
step-IsFifo blank r push_write f = produce-IsFifo blank r r.producer _ f refl f.producing
step-IsFifo blank r push_publish f = produce-IsFifo blank r r.producer _ f refl f.producing
step-IsFifo blank r (pop_check lag) f = consume-IsFifo blank r r.consumer _ f refl f.consuming
step-IsFifo blank r pop_read f = consume-IsFifo blank r r.consumer _ f refl f.consuming
step-IsFifo blank r pop_retire f = consume-IsFifo blank r r.consumer _ f refl f.consuming

pub run-IsFifo :
    {A : Type 0} (blank : A) (r : SpscRing A) (actions : List (Action A))
    → IsFifo blank r
    → IsFifo blank (run blank r actions)
unfolding run
run-IsFifo blank r [] f = f
run-IsFifo blank r (a ∷ actions) f =
    run-IsFifo blank (step blank r a) actions (step-IsFifo blank r a f)

pub new-IsFifo :
    {A : Type 0} (blank : A) (cap : ℕ)
    → 0 < cap
    → cap < words
    → cap ∣ words
    → IsFifo blank (new blank cap)
unfolding new
new-IsFifo blank cap some_cells small divides = record {
  first = 0;
  seen_first = 0;
  seen_next = 0;
  next = 0;
  size = length-replicate cap blank;
  some_cells = some_cells;
  small = small;
  divides = divides;
  head_is = refl;
  cached_head_is = refl;
  cached_tail_is = refl;
  tail_is = refl;
  late_first = omega arith;
  ahead = omega arith;
  late_next = omega arith;
  room = omega arith;
  all_pushed = refl;
  all_popped = refl;
  cells = λ i from below. absurd (omega (arith, below));
  producing = tt;
  consuming = tt;
}
