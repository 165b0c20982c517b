-- ===== src/Net/Mold64/Builder.antt =====
-- net/mold64.hpp: the buffer of a PacketBuilder as messages are added.
use opti_trade_engine.Prelude.{
  ℕ, ◌+◌, ◌^◌, ◌<◌, ◌≤◌, ◌≡◌, ◌≢◌, refl, sym, ap, ◌∙◌, true, false, List, [], ◌∷◌, ◌++◌, ltb,
  length, take, drop, arith, append_assoc, append_nil, length-append, length-drop, length-take,
}
use opti_trade_engine.Core.Wire.{Bytes, store16, store32, store64}
use opti_trade_engine.Core.Frames.{frames, frames-append}
use opti_trade_engine.Net.Mold64.{write_at, write_header, PacketBuilder, new_builder, refuses, add}
use opti_trade_engine.Net.Mold64.Splices.{write_at-append, head, length-head}

-- A builder that holds the messages.
pub record Built (b : PacketBuilder) (session : Bytes) (sequence room : ℕ) (ms : List Bytes)
    : Type 0 where
  pub junk : Bytes
  pub contents : b.buf ≡ (head session sequence 0 ++ frames ms) ++ junk
  pub size : b.size ≡ 20 + length (frames ms)
  pub count : b.count ≡ length ms
  pub unsealed : b.sealed ≡ false
  pub capacity : length b.buf ≡ room

pub length-store64 : (v : ℕ) → length (store64 v) ≡ 8
unfolding store64 store32 store16
length-store64 v = refl

length-store16 : (v : ℕ) → length (store16 v) ≡ 2
unfolding store16
length-store16 v = refl

-- The bytes after the header are kept.
after_head : Bytes → Bytes
after_head out = drop 2 (drop 8 (drop 10 out))

header_at :
    (out session : Bytes) (sequence count : ℕ)
    → length session ≡ 10
    → write_at (write_at (write_at out 0 session) 10 (store64 sequence)) 18 (store16 count)
      ≡ head session sequence count ++ after_head out
unfolding head after_head
header_at out session sequence count e =
    let q = store64 sequence in
    let c = store16 count in
    rw (write_at-append 0 [] out session refl) (
      rw (write_at-append 10 session (drop (length session) out) q (sym e)) (
        rw e (
          rw (sym (append_assoc session q (drop (length q) (drop 10 out)))) (
            rw
              (write_at-append 18 (session ++ q) (drop (length q) (drop 10 out)) c
                (omega (arith, length-append session q, length-store64 sequence)))
              (rw (length-store64 sequence) (
                rw (length-store16 count) (
                  sym (append_assoc (session ++ q) c (drop 2 (drop 8 (drop 10 out))))
                  ∙ ap (λ l. l ++ drop 2 (drop 8 (drop 10 out))) (append_assoc session q c))))))))

-- A write inside the buffer keeps its size.
length-write_at :
    (buf : Bytes) (i : ℕ) (src : Bytes)
    → i + length src ≤ length buf
    → length (write_at buf i src) ≡ length buf
unfolding write_at
length-write_at buf i src h = omega (
  arith,
  length-append (take i buf) (src ++ drop (i + length src) buf),
  length-append src (drop (i + length src) buf),
  length-take i buf,
  length-drop (i + length src) buf,
)

length-header_at :
    (out session : Bytes) (sequence count : ℕ)
    → length session ≡ 10
    → 20 ≤ length out
    → length (write_at (write_at (write_at out 0 session) 10 (store64 sequence)) 18 (store16 count))
      ≡ length out
length-header_at out session sequence count e h =
    let first : length (write_at out 0 session) ≡ length out =
      length-write_at out 0 session (omega arith) in
    let second : length (write_at (write_at out 0 session) 10 (store64 sequence)) ≡ length out =
      length-write_at (write_at out 0 session) 10 (store64 sequence)
        (omega (arith, length-store64 sequence))
      ∙ first in
    length-write_at (write_at (write_at out 0 session) 10 (store64 sequence)) 18 (store16 count)
      (omega (arith, length-store16 count))
    ∙ second

pub roomy : (n : ℕ) → 20 ≤ n → ltb n 20 ≡ false
roomy n h = ground arith

pub new_builder-Built :
    (buffer session : Bytes) (sequence : ℕ)
    → length session ≡ 10
    → 20 ≤ length buffer
    → Built (new_builder buffer session sequence) session sequence (length buffer) []
unfolding new_builder write_header frames after_head
new_builder-Built buffer session sequence e h = rw (roomy (length buffer) h) (record {
  junk = after_head buffer;
  contents =
      header_at buffer session sequence 0 e
      ∙ ap (λ l. l ++ after_head buffer) (sym (append_nil (head session sequence 0)));
  size = omega arith;
  count = refl;
  unsealed = refl;
  capacity = length-header_at buffer session sequence 0 e h;
})

-- The guards of `add` pass.
not_refused :
    (b : PacketBuilder) (m : Bytes)
    → b.sealed ≡ false
    → b.size ≢ 0
    → b.count < 0xfffe
    → length m < 2 ^ 16
    → b.size + 2 + length m ≤ length b.buf
    → refuses b m ≡ false
unfolding refuses
not_refused b m s z c l r = ground arith

-- The two writes of `add`, of a length and a message, behind a prefix.
add_writes :
    (n : ℕ) (a j m : Bytes)
    → n ≡ length a
    → write_at (write_at (a ++ j) n (store16 (length m))) (n + 2) m
      ≡ (a ++ (store16 (length m) ++ m)) ++ drop (length m) (drop 2 j)
add_writes n a j m e =
    let s = store16 (length m) in
    let k = drop 2 j in
    rw (write_at-append n a j s e) (
      rw (length-store16 (length m)) (
        rw (sym (append_assoc a s k)) (
          rw
            (write_at-append (n + 2) (a ++ s) k m
              (omega (arith, length-append a s, length-store16 (length m))))
            (sym (append_assoc (a ++ s) m (drop (length m) k))
              ∙ ap (λ l. l ++ drop (length m) k) (append_assoc a s m)))))

frames-one :
    (ms : List Bytes) (m : Bytes) → frames (ms ++ m ∷ []) ≡ frames ms ++ (store16 (length m) ++ m)
unfolding frames
frames-one ms m =
    frames-append ms (m ∷ []) ∙ ap (λ l. frames ms ++ (store16 (length m) ++ l)) (append_nil m)

pub length-frames-one :
    (ms : List Bytes) (m : Bytes)
    → length (frames (ms ++ m ∷ [])) ≡ length (frames ms) + 2 + length m
length-frames-one ms m =
    ap length (frames-one ms m)
    ∙ omega (
      arith,
      length-append (frames ms) (store16 (length m) ++ m),
      length-append (store16 (length m)) m,
      length-store16 (length m),
    )

pub add-Built :
    (b : PacketBuilder) (session : Bytes) (sequence room : ℕ) (ms : List Bytes) (m : Bytes)
    → Built b session sequence room ms
    → length session ≡ 10
    → length ms < 0xfffe
    → length m < 2 ^ 16
    → 20 + length (frames ms) + 2 + length m ≤ room
    → Built (add b m).0 session sequence room (ms ++ m ∷ []) × ((add b m).1 ≡ true)
unfolding add
add-Built b session sequence room ms m u e c l r =
    let clear : refuses b m ≡ false =
      not_refused b m u.unsealed (omega (arith, u.size)) (omega (arith, u.count)) l
        (omega (arith, u.size, u.capacity)) in
    let h = head session sequence 0 in
    let here : b.size ≡ length (h ++ frames ms) =
      omega (arith, u.size, length-append h (frames ms), length-head session sequence 0 e) in
    let first : length (write_at b.buf b.size (store16 (length m))) ≡ length b.buf =
      length-write_at b.buf b.size (store16 (length m))
        (omega (arith, u.size, u.capacity, length-store16 (length m))) in
    rw clear (
      record {
        junk = drop (length m) (drop 2 u.junk);
        contents =
            ap (λ l. write_at (write_at l b.size (store16 (length m))) (b.size + 2) m) u.contents
            ∙ add_writes b.size (h ++ frames ms) u.junk m here
            ∙ ap (λ l. l ++ drop (length m) (drop 2 u.junk))
                (append_assoc h (frames ms) (store16 (length m) ++ m)
                  ∙ ap (λ l. h ++ l) (sym (frames-one ms m)));
        size = omega (arith, u.size, length-frames-one ms m);
        count = omega (arith, u.count, length-append ms (m ∷ []));
        unsealed = u.unsealed;
        capacity =
            length-write_at (write_at b.buf b.size (store16 (length m))) (b.size + 2) m
              (omega (arith, first, u.size, u.capacity))
            ∙ first
            ∙ u.capacity;
      },
      refl,
    )
