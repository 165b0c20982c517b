-- ===== src/Net/Mold64/Takes.antt =====
-- net/mold64.hpp: which of a caller's messages a PacketBuilder takes.
use opti_trade_engine.Prelude.{
  ℕ, ◌+◌, ◌-◌, ◌^◌, ◌<◌, ◌≤◌, ◌≡◌, refl, sym, ap, ◌∙◌, Bool, true, false, ◌&&◌, not, List, [], ◌∷◌,
  ◌++◌, ltb, leb, ◌==◌, if◌then◌else◌, length, arith, replicate, at_if, All, append_assoc,
  append_nil, length-append, Bool-cases, inl, inr,
}
use mathlib.Core.Path.{subst}
use opti_trade_engine.Core.Wire.{Bytes}
use opti_trade_engine.Core.Frames.{frames, Short}
use opti_trade_engine.Net.Mold64.{
  PacketBuilder, new_builder, write_header, refuses, add, seal, finish,
}
use opti_trade_engine.Net.Mold64.Builder.{Built, add-Built, length-frames-one}

-- A caller that adds the messages one after the other, with the answers.
unfoldable pub add_each : PacketBuilder → List Bytes → PacketBuilder × List Bool
unfolding add
add_each b [] = (b, [])
add_each b (m ∷ ms) = let r = add b m in let rest = add_each r.0 ms in (rest.0, r.1 ∷ rest.1)

-- Whether a packet of `n` messages with `left` bytes to spare has room for another message: the number
-- of messages stays below that of an end of a session, and the length of each fits 16 bits.
unfoldable pub fits : ℕ → ℕ → Bytes → Bool
fits left n m = ltb n 65534 && ltb (length m) (2 ^ 16) && leb (length m + 2) left

-- The answers that a caller gets, each message taken if it fits.
unfoldable pub answers : ℕ → ℕ → List Bytes → List Bool
unfolding fits
answers left n [] = []
answers left n (m ∷ ms) =
    let ok = fits left n m in
    ok ∷ answers (if ok then left - (length m + 2) else left) (if ok then n + 1 else n) ms

-- The messages whose answer is true.
unfoldable pub picked : List Bool → List Bytes → List Bytes
picked [] ms = []
picked (ok ∷ oks) [] = []
picked (ok ∷ oks) (m ∷ ms) = let rest = picked oks ms in if ok then m ∷ rest else rest

All-one {ℓ} :
    (P : Bytes → Type ℓ) (ms : List Bytes) (m : Bytes) → All P ms → P m → All P (ms ++ m ∷ [])
All-one P [] m a p = (p, tt)
All-one P (x ∷ ms) m a p = (a.0, All-one P ms m a.1 p)

-- A builder that holds messages, within its bounds.
pub record Holds (b : PacketBuilder) (session : Bytes) (sequence room : ℕ) (ms : List Bytes)
    : Type 0 where
  pub built : Built b session sequence room ms
  pub short : All Short ms
  pub few : length ms ≤ 0xfffe
  pub inside : 20 + length (frames ms) ≤ room

refuses-fits :
    (b : PacketBuilder) (session : Bytes) (sequence room : ℕ) (ms : List Bytes) (m : Bytes)
    → Holds b session sequence room ms
    → refuses b m ≡ not (fits (room - (20 + length (frames ms))) (length ms) m)
unfolding refuses fits
refuses-fits b session sequence room ms m h =
    let u = h.built in ground (arith, u.unsealed, u.size, u.count, u.capacity, h.inside)

-- What is left of the buffer, and the number of messages, after one more.
after_one :
    (room : ℕ) (done ms : List Bytes) (m : Bytes)
    → answers (room - (20 + length (frames (done ++ m ∷ [])))) (length (done ++ m ∷ [])) ms
      ≡ answers (room - (20 + length (frames done)) - (length m + 2)) (length done + 1) ms
after_one room done ms m =
    let a : room - (20 + length (frames (done ++ m ∷ [])))
        ≡ room - (20 + length (frames done)) - (length m + 2) =
      omega (arith, length-frames-one done m) in
    let c : length (done ++ m ∷ []) ≡ length done + 1 =
      omega (arith, length-append done (m ∷ [])) in
    rw (a, c) refl

pub add-refused : (b : PacketBuilder) (m : Bytes) → refuses b m ≡ true → add b m ≡ (b, false)
unfolding add
add-refused b m h = rw h refl

-- A message that fits is taken.
add-Holds :
    (b : PacketBuilder) (session : Bytes) (sequence room : ℕ) (done : List Bytes) (m : Bytes)
    → length session ≡ 10
    → Holds b session sequence room done
    → fits (room - (20 + length (frames done))) (length done) m ≡ true
    → Holds (add b m).0 session sequence room (done ++ m ∷ []) × ((add b m).1 ≡ true)
unfolding fits
add-Holds b session sequence room done m e h ok =
    let inside = h.inside in
    let (v, y) =
      add-Built b session sequence room done m h.built e (ground arith) (ground arith)
        (ground (arith, inside)) in
    (
      record {
        built = v;
        short = All-one Short done m h.short (ground arith);
        few = ground (arith, length-append done (m ∷ []));
        inside = ground (arith, inside, length-frames-one done m);
      },
      y,
    )

pub add_each-Holds :
    (b : PacketBuilder) (session : Bytes) (sequence room : ℕ) (done ms : List Bytes)
    → length session ≡ 10
    → Holds b session sequence room done
    → ((add_each b ms).1 ≡ answers (room - (20 + length (frames done))) (length done) ms)
      × Holds (add_each b ms).0 session sequence room (done ++ picked (add_each b ms).1 ms)
unfolding add_each answers picked
add_each-Holds b session sequence room done [] e h =
    (refl, subst (Holds b session sequence room) (sym (append_nil done)) h)
add_each-Holds b session sequence room done (m ∷ ms) e h =
    let left = room - (20 + length (frames done)) in
    let same = refuses-fits b session sequence room done m h in
    elim (Bool-cases (fits left (length done) m)) [
      | inl ok ↦
          let (v, y) = add-Holds b session sequence room done m e h ok in
          let (ih, w) = add_each-Holds (add b m).0 session sequence room (done ++ m ∷ []) ms e v in
          let rest = picked (add_each (add b m).0 ms).1 ms in
          let all : Holds (add_each (add b m).0 ms).0 session sequence room (done ++ m ∷ rest) =
            subst (Holds (add_each (add b m).0 ms).0 session sequence room)
              (append_assoc done (m ∷ []) rest) w in
          rw (y, ok) (ap (λ (l : List Bool). true ∷ l) (ih ∙ after_one room done ms m), all)
      | inr over ↦
          let clear : refuses b m ≡ true = same ∙ ap not over in
          let stays = add-refused b m clear in
          let (ih, w) = add_each-Holds b session sequence room done ms e h in
          rw (stays, over) (ap (λ (l : List Bool). false ∷ l) ih, w)
    ]

sealed-refuses : (b : PacketBuilder) (m : Bytes) → b.sealed ≡ true → refuses b m ≡ true
unfolding refuses
sealed-refuses b m h = ground (arith, h)

sealed-seal : (b : PacketBuilder) → (seal b).sealed ≡ true
unfolding seal
sealed-seal b = at_if (λ (x : PacketBuilder). x.sealed ≡ true) b.sealed b _ (λ h. h) (λ h. refl)

seal-finish : (b : PacketBuilder) → (b.size == 0) ≡ false → (finish b).0 ≡ seal b
unfolding finish
seal-finish b some_size = rw some_size refl

-- A finished packet takes no more messages.
pub add-finish :
    (b : PacketBuilder) (m : Bytes)
    → (b.size == 0) ≡ false
    → add (finish b).0 m ≡ ((finish b).0, false)
add-finish b m some_size =
    subst (λ (x : PacketBuilder). add x m ≡ (x, false)) (sym (seal-finish b some_size))
      (add-refused (seal b) m (sealed-refuses (seal b) m (sealed-seal b)))

no_room : (b : PacketBuilder) (m : Bytes) → b.size ≡ 0 → refuses b m ≡ true
unfolding refuses
no_room b m e = ground (arith, e)

empty-refuses :
    (b : PacketBuilder) (ms : List Bytes)
    → b.size ≡ 0
    → add_each b ms ≡ (b, replicate (length ms) false)
unfolding add_each
empty-refuses b [] e = refl
empty-refuses b (m ∷ ms) e = rw (add-refused b m (no_room b m e)) (rw (empty-refuses b ms e) refl)

-- On a buffer of less than the 20 bytes of a header a new builder leaves the buffer as it is, takes
-- no message and finishes an empty packet.
pub add_each-small :
    (buffer session : Bytes) (sequence : ℕ) (ms : List Bytes)
    → length buffer < 20
    → let b = new_builder buffer session sequence in
      (b.buf ≡ buffer) × (add_each b ms ≡ (b, replicate (length ms) false)) × (finish b ≡ (b, []))
unfolding finish new_builder write_header
add_each-small buffer session sequence ms h =
    let small : ltb (length buffer) 20 ≡ true = ground arith in
    let no_size : (new_builder buffer session sequence).size ≡ 0 = rw small refl in
    (rw small refl, empty-refuses (new_builder buffer session sequence) ms no_size, rw small refl)
