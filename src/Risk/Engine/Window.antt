-- ===== src/Risk/Engine/Window.antt =====
-- The admission window of risk_engine.hpp (`rate_has_room`, `rate_record`) against the history of
-- admissions that it stands for, newest first.
use opti_trade_engine.Prelude.{
  ℕ, zero, suc, ◌+◌, ◌-◌, ◌≤◌, ◌<◌, ◌≡◌, ◌≢◌, refl, ◌∙◌, Bool, true, false, List, [], ◌∷◌, arith,
  length, get_or, set, All, length-set, All-get_or, All-imp, length-replicate, Bool-cases, inl, inr,
  ◌==◌, leb, ltb, min, max, if◌then◌else◌, ◌&&◌, get_or-set_self, get_or-set_ne,
}
use opti_trade_engine.Core.Types.{Nanos}
use opti_trade_engine.Risk.Engine.{Rate, new_rate, rate_has_room, rate_record, rate_window_ns}

-- An admission at `t` has left the window at `now`.
abbrev pub expired : Nanos → Nanos → Bool
expired now t = leb t now && leb rate_window_ns (now - t)

-- How many admissions are still in the window at `now`.
pub recent : Nanos → List Nanos → ℕ
recent now [] = 0
recent now (t ∷ ts) = if expired now t then recent now ts else suc (recent now ts)

-- No time in the list is above `t`; newest first.
abbrev pub Falling : List Nanos → Type 0
Falling [] = Unit {0}
Falling (t ∷ ts) = All (λ u. u ≤ t) ts × Falling ts

-- The cell of the admission that `j` others followed.
pub back : ℕ → ℕ → ℕ → ℕ
back n next j = if ltb j next then next - 1 - j else next + n - 1 - j

-- The ring holds the latest admissions of the history `h`.
pub record Holds (w : Rate) (h : List Nanos) : Type 0 where
  pub next_in : w.next < length w.ring
  pub filled_is : w.filled ≡ min (length w.ring) (length h)
  pub cells :
      (j : ℕ) → j < w.filled → get_or w.ring (back (length w.ring) w.next j) 0 ≡ get_or h j 0
  pub falling : Falling h
  pub latest_is : All (λ t. t ≤ w.latest) h

recent-le : (now : Nanos) (ts : List Nanos) → recent now ts ≤ length ts
unfolding recent
recent-le now [] = omega arith
recent-le now (t ∷ ts) = ground (arith, recent-le now ts)

recent-zero :
    (now t : Nanos) (ts : List Nanos)
    → All (λ u. u ≤ t) ts
    → expired now t ≡ true
    → recent now ts ≡ 0
unfolding recent
recent-zero now t [] a h = refl
recent-zero now t (u ∷ us) a h = ground (arith, recent-zero now t us)

-- Fewer than n + 1 admissions are in the window exactly when the (n + 1)-th latest has left it.
recent-lt :
    (now : Nanos) (n : ℕ) (ts : List Nanos)
    → Falling ts
    → n < length ts
    → ltb (recent now ts) (suc n) ≡ expired now (get_or ts n 0)
unfolding recent
recent-lt now n [] f h = absurd (omega arith)
recent-lt now zero (t ∷ ts) f h = ground (arith, recent-zero now t ts)
recent-lt now (suc n) (t ∷ ts) f h =
    let older : get_or ts n 0 ≤ t = All-get_or (λ u. u ≤ t) ts 0 n f.0 (omega arith) in
    let rest = recent-lt now n ts f.1 (omega arith) in
    ground (arith, recent-zero now t ts f.0, older, rest)

recent_mono : (now later : Nanos) (ts : List Nanos) → now ≤ later → recent later ts ≤ recent now ts
unfolding recent
recent_mono now later [] h = omega arith
recent_mono now later (t ∷ ts) h = ground (arith, recent_mono now later ts)

-- There is room exactly when fewer admissions than the limit are in the window.
pub rate_has_room-recent :
    (w : Rate) (h : List Nanos) (now : Nanos)
    → Holds w h
    → rate_has_room w now ≡ ltb (recent now h) (length w.ring)
unfolding rate_has_room back
rate_has_room-recent w h now v = elim (Bool-cases (ltb w.filled (length w.ring))) [
  | inl part ↦ rw part (ground (arith, v.filled_is, v.next_in, recent-le now h))
  | inr full ↦
      let n = length w.ring - 1 in
      let size : length w.ring ≡ suc n = omega (arith, v.next_in) in
      let last : back (length w.ring) w.next n ≡ w.next = ground (arith, v.next_in) in
      let oldest : get_or w.ring w.next 0 ≡ get_or h n 0 =
        rw last at (v.cells n (ground (arith, v.filled_is, v.next_in))) in
      let exact = recent-lt now n h v.falling (ground (arith, v.filled_is)) in
      rw full (ground (arith, exact, oldest, size))
]

-- Where the next position is after a write, and which cells the others are.
next_of : ℕ → ℕ → ℕ
next_of n next = if next + 1 == n then 0 else next + 1

back_zero : (n next : ℕ) → next < n → back n (next_of n next) 0 ≡ next
unfolding back next_of
back_zero n next h = ground arith

back-suc : (n next j : ℕ) → next < n → suc j < n → back n (next_of n next) (suc j) ≡ back n next j
unfolding back next_of
back-suc n next j h k = ground arith

back_ne : (n next j : ℕ) → next < n → suc j < n → next ≢ back n next j
unfolding back
back_ne n next j h k = ground arith

cells_step :
    (xs h : List Nanos) (next filled : ℕ) (t : Nanos)
    → next < length xs
    → filled ≤ length xs
    → ((j : ℕ) → j < filled → get_or xs (back (length xs) next j) 0 ≡ get_or h j 0)
    → (j : ℕ) → j < (if ltb filled (length xs) then filled + 1 else filled)
    → get_or (set xs next t) (back (length xs) (next_of (length xs) next) j) 0 ≡ get_or (t ∷ h) j 0
cells_step xs h next filled t inside fits old zero below =
    rw (back_zero (length xs) next inside) (get_or-set_self xs next t 0 inside)
cells_step xs h next filled t inside fits old (suc j) below =
    let more : suc j < length xs = ground arith in
    rw (back-suc (length xs) next j inside more) (
      get_or-set_ne xs next (back (length xs) next j) t 0 (back_ne (length xs) next j inside more)
      ∙ old j (ground arith))

rate_record-Holds :
    (w : Rate) (h : List Nanos) (now : Nanos)
    → Holds w h
    → Holds (rate_record w now) (max w.latest now ∷ h)
unfolding rate_record next_of
rate_record-Holds w h now v =
    let some_cells : (length w.ring == 0) ≡ false = ground (arith, v.next_in) in
    let t = max w.latest now in
    rw some_cells (record {
      next_in = rw (length-set w.ring w.next t) (ground (arith, v.next_in));
      filled_is = rw (length-set w.ring w.next t) (ground (arith, v.filled_is));
      cells =
          rw (length-set w.ring w.next t)
            (cells_step w.ring h w.next w.filled t v.next_in (omega (arith, v.filled_is)) v.cells);
      falling = (All-imp _ _ (λ u k. omega arith) h v.latest_is, v.falling);
      latest_is = (omega arith, All-imp _ _ (λ u k. omega arith) h v.latest_is);
    })

-- One request: it is admitted, and joins the history, if there is room.
unfoldable pub serve : Rate × List Nanos → Nanos → Rate × List Nanos
serve (w, h) now = if rate_has_room w now then (rate_record w now, max w.latest now ∷ h) else (w, h)

unfoldable pub serve_all : Rate × List Nanos → List Nanos → Rate × List Nanos
serve_all s [] = s
serve_all s (t ∷ ts) = serve_all (serve s t) ts

-- What stays true of the window and its history as requests are served.
record IsBounded (n : ℕ) (s : Rate × List Nanos) : Type 0 where
  size : length s.0.ring ≡ n
  holds : Holds s.0 s.1
  bound : (now : Nanos) → s.0.latest ≤ now → recent now s.1 ≤ n

rate_record_kept :
    (w : Rate) (now : Nanos)
    → w.next < length w.ring
    → (length (rate_record w now).ring ≡ length w.ring)
      × ((rate_record w now).latest ≡ max w.latest now)
unfolding rate_record
rate_record_kept w now h =
    let some_cells : (length w.ring == 0) ≡ false = ground arith in
    rw some_cells (length-set w.ring w.next (max w.latest now), refl)

recent-cons : (now t : Nanos) (ts : List Nanos) → recent now (t ∷ ts) ≤ suc (recent now ts)
unfolding recent
recent-cons now t ts = ground arith

serve-IsBounded :
    (n : ℕ) (w : Rate) (h : List Nanos) (now : Nanos)
    → IsBounded n (w, h)
    → IsBounded n (serve (w, h) now)
unfolding serve
serve-IsBounded n w h now b = elim (Bool-cases (rate_has_room w now)) [
  | inr refused ↦ rw refused b
  | inl room ↦
      let (size, latest) = rate_record_kept w now b.holds.next_in in
      let fewer = rate_has_room-recent w h now b.holds in
      rw room (record {
        size = size ∙ b.size;
        holds = rate_record-Holds w h now b.holds;
        bound = λ later after.
            let since : now ≤ later = omega (arith, latest, after) in
            ground (
              arith,
              recent-cons later (max w.latest now) h,
              recent_mono now later h since,
              fewer,
              b.size,
            );
      })
]

serve_all-IsBounded :
    (n : ℕ) (s : Rate × List Nanos) (ts : List Nanos) → IsBounded n s → IsBounded n (serve_all s ts)
unfolding serve_all
serve_all-IsBounded n s [] b = b
serve_all-IsBounded n (w, h) (t ∷ ts) b =
    serve_all-IsBounded n (serve (w, h) t) ts (serve-IsBounded n w h t b)

abbrev no_time : Nanos
no_time = 0

new_rate-IsBounded : (n : ℕ) → 0 < n → IsBounded n (new_rate n, [])
unfolding new_rate recent
new_rate-IsBounded n h = record {
  size = length-replicate n no_time;
  holds = record {
    next_in = rw (length-replicate n no_time) h;
    filled_is = omega arith;
    cells = λ j below. absurd (omega arith);
    falling = tt;
    latest_is = tt;
  };
  bound = λ now after. omega arith;
}

-- However the requests come, no window of one second that ends at or after the latest admission
-- holds more admissions than the limit.
pub recent-serve_all :
    (n : ℕ) (ts : List Nanos) (now : Nanos)
    → 0 < n
    → (serve_all (new_rate n, []) ts).0.latest ≤ now
    → recent now (serve_all (new_rate n, []) ts).1 ≤ n
recent-serve_all n ts now h after =
    (serve_all-IsBounded n (new_rate n, []) ts (new_rate-IsBounded n h)).bound now after
