-- ===== src/Risk/Engine/Counts.antt =====
-- risk_engine.hpp: what a call does to the working quantity and count of each instrument and side.
use opti_trade_engine.Prelude.{
  ℕ, ◌+◌, ◌-◌, ◌<◌, ◌≡◌, refl, ◌∙◌, ap, Bool, true, false, ◌&&◌, ◌||◌, ◌==◌, if◌then◌else◌, arith,
  Bool-cases, inl, inr,
}
use opti_trade_engine.Prelude.Int.{ℤ, pos, ◌+ℤ◌, ◌-ℤ◌, min_ℤ}
use opti_trade_engine.Core.Types.{Locate, Side, side_eq, u32_max}
use opti_trade_engine.Risk.Types.{open_of, count_of, set_open, set_count, clamp64}
use opti_trade_engine.Risk.Engine.{
  Engine, slot_at, off_table, refresh, inc64, sub64, on_order_open, on_order_grow, on_order_reduce,
  on_order_end,
}
use opti_trade_engine.Risk.Engine.Ledger.{IsSound}
use opti_trade_engine.Risk.Engine.Handlers.{
  on_order_grow-IsSound, on_order_reduce-IsSound, on_order_open-IsSound, on_order_end-IsSound,
}
use opti_trade_engine.Risk.Engine.Cells.{
  table_size, Moves, open_of-set_open, count_of-set_open, open_of-set_count, count_of-set_count,
  open_of-refresh, count_of-refresh, size-refresh, same_side, clamp-pos, less-pos, eq_of,
}

-- The slot of `l` with a new quantity on one side, and the others.
module _ (r : Engine) (l k : Locate) (s t : Side) (v : ℤ) (h : l < table_size r) where
  pub open_of-resized :
      open_of t (slot_at (refresh r l (set_open s v (slot_at r l))) k)
      ≡ (if (l == k) && side_eq s t then v else open_of t (slot_at r k))
  open_of-resized = open_of-refresh r l k t _ h ∙ (elim (Bool-cases (l == k)) [
    | inl same ↦ rw (same, ← eq_of l k same) (open_of-set_open s t v (slot_at r l))
    | inr other ↦ rw other refl
  ])

  pub count_of-resized :
      count_of t (slot_at (refresh r l (set_open s v (slot_at r l))) k) ≡ count_of t (slot_at r k)
  count_of-resized = count_of-refresh r l k t _ h ∙ (elim (Bool-cases (l == k)) [
    | inl same ↦ rw (same, ← eq_of l k same) (count_of-set_open s t v (slot_at r l))
    | inr other ↦ rw other refl
  ])

abbrev pub recounted : Engine → Locate → Side → ℤ → ℕ → ℕ → Engine
recounted r l s v n total =
    refresh (record r { open_total = total }) l (set_count s n (set_open s v (slot_at r l)))

-- A new quantity and a new count; the number of working orders is the caller's.
module _ (r : Engine) (l k : Locate) (s t : Side) (v : ℤ) (n total : ℕ) (h : l < table_size r) where
  pub open_of-recounted :
      open_of t (slot_at (recounted r l s v n total) k)
      ≡ (if (l == k) && side_eq s t then v else open_of t (slot_at r k))
  open_of-recounted =
      open_of-refresh (record r { open_total = total }) l k t _ h ∙ (elim (Bool-cases (l == k)) [
        | inl same ↦
            rw (same, ← eq_of l k same)
              (open_of-set_count s t n _ ∙ open_of-set_open s t v (slot_at r l))
        | inr other ↦ rw other refl
      ])

  pub count_of-recounted :
      count_of t (slot_at (recounted r l s v n total) k)
      ≡ (if (l == k) && side_eq s t then n else count_of t (slot_at r k))
  count_of-recounted =
      count_of-refresh (record r { open_total = total }) l k t _ h ∙ (elim (Bool-cases (l == k)) [
        | inl same ↦
            rw (same, ← eq_of l k same)
              (count_of-set_count s t n _
                ∙ ap (λ (c : ℕ). if side_eq s t then n else c)
                    (count_of-set_open s t v (slot_at r l)))
        | inr other ↦ rw other refl
      ])

-- The value of a cell by whether it is the one that moves.
open_value :
    (b : Bool) (x y : ℤ) (a q q' : ℕ)
    → (b ≡ true → x ≡ pos (a + q' - q))
    → y ≡ pos a
    → (if b then x else y) ≡ pos (a + (if b then q' else 0) - (if b then q else 0))
open_value true x y a q q' there is = there refl
open_value false x y a q q' there is = is ∙ ap pos (omega arith)

count_value :
    (b : Bool) (x y n c c' : ℕ)
    → (b ≡ true → x ≡ n + c' - c)
    → y ≡ n
    → (if b then x else y) ≡ n + (if b then c' else 0) - (if b then c else 0)
count_value true x y n c c' there is = there refl
count_value false x y n c c' there is = is ∙ omega arith

kept_value : (b : Bool) (y n c : ℕ) → y ≡ n → y ≡ n + (if b then c else 0) - (if b then c else 0)
kept_value true y n c is = is ∙ omega arith
kept_value false y n c is = is ∙ omega arith

-- What the moving cell holds now.
module _ (r : Engine) (l k : Locate) (s t : Side) (e : ((l == k) && side_eq s t) ≡ true) where
  pub open_here : (a : ℕ) → open_of t (slot_at r k) ≡ pos a → open_of s (slot_at r l) ≡ pos a
  open_here a is =
      let lk = eq_of l k (ground arith) in let st = same_side s t (ground arith) in rw (lk, st) is

  pub count_here : (n : ℕ) → count_of t (slot_at r k) ≡ n → count_of s (slot_at r l) ≡ n
  count_here n is =
      let lk = eq_of l k (ground arith) in let st = same_side s t (ground arith) in rw (lk, st) is

module _ (r : Engine) (l : Locate) (s : Side) (v : IsSound r) (h : l < table_size r) where
  pub grow-Moves :
      (q extra c : ℕ) → 0 < extra → Moves r (on_order_grow r l s extra) l s q (q + extra) c c
  unfolding on_order_grow
  grow-Moves q extra c some_extra =
      let go : (off_table r l || extra == 0) ≡ false = ground arith in
      record {
        size = rw go (size-refresh r l _);
        sound = on_order_grow-IsSound r l s extra v;
        open_there = λ k t a is below room. rw go (
            open_of-resized r l k s t _ h
            ∙ open_value ((l == k) && side_eq s t) _ _ a q (q + extra)
                (λ e.
                  rw (open_here r l k s t e a is)
                    (clamp-pos a extra (omega arith) ∙ ap pos (omega arith)))
                is);
        count_there = λ k t n is below room.
            rw go (count_of-resized r l k s t _ h ∙ kept_value ((l == k) && side_eq s t) _ n c is);
      }

  pub reduce-Moves : (q less c : ℕ) → Moves r (on_order_reduce r l s less) l s (q + less) q c c
  unfolding on_order_reduce
  reduce-Moves q less c =
      let go : off_table r l ≡ false = ground arith in
      record {
        size = rw go (size-refresh r l _);
        sound = on_order_reduce-IsSound r l s less v;
        open_there = λ k t a is below room. rw go (
            open_of-resized r l k s t _ h
            ∙ open_value ((l == k) && side_eq s t) _ _ a (q + less) q
                (λ e.
                  rw (open_here r l k s t e a is)
                    (less-pos less a ∙ ap pos (omega (arith, rw e at below))))
                is);
        count_there = λ k t n is below room.
            rw go (count_of-resized r l k s t _ h ∙ kept_value ((l == k) && side_eq s t) _ n c is);
      }

  pub open-Moves :
      (qty : ℕ)
      → 0 < qty
      → count_of s (slot_at r l) < u32_max
      → Moves r (on_order_open r l s qty) l s 0 qty 0 1
  unfolding on_order_open
  open-Moves qty some_qty few =
      let go : (off_table r l || qty == 0) ≡ false = ground arith in
      let room : (count_of s (slot_at r l) == u32_max) ≡ false = ground arith in
      let more = clamp64 (open_of s (slot_at r l) +ℤ pos qty) in
      let n = count_of s (slot_at r l) + 1 in
      let e : on_order_open r l s qty ≡ recounted r l s more n (inc64 r.open_total) =
        rw (go, count_of-set_open s s more (slot_at r l), room) refl in
      record {
        size = rw e (size-refresh _ l _);
        sound = on_order_open-IsSound r l s qty v;
        open_there = λ k t a is below fits. rw e (
            open_of-recounted r l k s t _ _ _ h
            ∙ open_value ((l == k) && side_eq s t) _ _ a 0 qty
                (λ b.
                  rw (open_here r l k s t b a is)
                    (clamp-pos a qty (omega arith) ∙ ap pos (omega arith)))
                is);
        count_there = λ k t n is below fits. rw e (
            count_of-recounted r l k s t _ _ _ h
            ∙ count_value ((l == k) && side_eq s t) _ _ n 0 1
                (λ b. omega (arith, count_here r l k s t b n is)) is);
      }

  pub end-Moves :
      (q : ℕ) → 0 < count_of s (slot_at r l) → Moves r (on_order_end r l s q) l s q 0 1 0
  unfolding on_order_end
  end-Moves q some_open =
      let go : off_table r l ≡ false = ground arith in
      let some : (count_of s (slot_at r l) == 0) ≡ false = ground arith in
      let less = open_of s (slot_at r l) -ℤ min_ℤ (pos q) (open_of s (slot_at r l)) in
      let n = count_of s (slot_at r l) - 1 in
      let e : on_order_end r l s q ≡ recounted r l s less n (sub64 r.open_total 1) =
        rw (go, count_of-set_open s s less (slot_at r l), some) refl in
      record {
        size = rw e (size-refresh _ l _);
        sound = on_order_end-IsSound r l s q v;
        open_there = λ k t a is below fits. rw e (
            open_of-recounted r l k s t _ _ _ h
            ∙ open_value ((l == k) && side_eq s t) _ _ a q 0
                (λ b. rw (open_here r l k s t b a is) (less-pos q a ∙ ap pos (omega arith))) is);
        count_there = λ k t n is below fits. rw e (
            count_of-recounted r l k s t _ _ _ h
            ∙ count_value ((l == k) && side_eq s t) _ _ n 1 0
                (λ b. omega (arith, count_here r l k s t b n is)) is);
      }

kept_open :
    (b : Bool) (y : ℤ) (a q : ℕ)
    → y ≡ pos a
    → y ≡ pos (a + (if b then q else 0) - (if b then q else 0))
kept_open true y a q is = is ∙ ap pos (omega arith)
kept_open false y a q is = is ∙ ap pos (omega arith)

pub same-Moves : (r : Engine) (l : Locate) (s : Side) (q c : ℕ) → IsSound r → Moves r r l s q q c c
same-Moves r l s q c v = record {
  size = refl;
  sound = v;
  open_there = λ k t a is below room. kept_open ((l == k) && side_eq s t) _ a q is;
  count_there = λ k t n is below room. kept_value ((l == k) && side_eq s t) _ n c is;
}
