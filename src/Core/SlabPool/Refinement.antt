-- ===== src/Core/SlabPool/Refinement.antt =====
-- slab_pool.hpp: the intrusive list of free nodes is a stack of handles.
use opti_trade_engine.Prelude.{
  ℕ, zero, suc, ◌+◌, ◌-◌, ◌≤◌, ◌<◌, ◌==◌, ◌≡◌, refl, sym, ◌∙◌, Bool, true, false, ◌&&◌, ◌||◌, not,
  List, [], ◌∷◌, Option, none, some, ltb, if◌then◌else◌, length, set, arith, length-set, ap,
  Bool-cases, inl, inr,
}
use mathlib.Core.Path.{subst}
use opti_trade_engine.Core.SlabPool.{
  Node, SlabPool, null, max_capacity, allocated, next_at, new_nodes, new, allocate, set_next,
}

abbrev pub contains : ℕ → List ℕ → Bool
contains h [] = false
contains h (x ∷ xs) = (h == x) || contains h xs

abbrev pub Unique : List ℕ → Type 0
Unique [] = Unit
Unique (x ∷ xs) = (contains x xs ≡ false) × Unique xs

apart :
    (i x : ℕ) (xs : List ℕ)
    → contains i (x ∷ xs) ≡ false
    → ((x == i) ≡ false) × (contains i xs ≡ false)
apart i x xs c = ground arith

module _ {ℓ} {A : Type ℓ} where
  next_at-set_self :
      (ns : List (Node A)) (i : ℕ) (n : Node A) → i < length ns → next_at (set ns i n) i ≡ n.next
  next_at-set_self [] i n h = absurd (omega arith)
  next_at-set_self (x ∷ ns) zero n h = refl
  next_at-set_self (x ∷ ns) (suc i) n h = next_at-set_self ns i n (omega arith)

  next_at-set_ne :
      (ns : List (Node A)) (i j : ℕ) (n : Node A)
      → (j == i) ≡ false
      → next_at (set ns i n) j ≡ next_at ns j
  next_at-set_ne [] i j n h = refl
  next_at-set_ne (x ∷ ns) zero zero n h = absurd (grind arith)
  next_at-set_ne (x ∷ ns) zero (suc j) n h = refl
  next_at-set_ne (x ∷ ns) (suc i) zero n h = refl
  next_at-set_ne (x ∷ ns) (suc i) (suc j) n h = next_at-set_ne ns i j n (grind arith)

  pub length-set_next : (ns : List (Node A)) (i v : ℕ) → length (set_next ns i v) ≡ length ns
  length-set_next [] i v = refl
  length-set_next (x ∷ ns) zero v = refl
  length-set_next (x ∷ ns) (suc i) v = omega (arith, length-set_next ns i v)

  next_at-set_next_self :
      (ns : List (Node A)) (i v : ℕ) → i < length ns → next_at (set_next ns i v) i ≡ v
  next_at-set_next_self [] i v h = absurd (omega arith)
  next_at-set_next_self (x ∷ ns) zero v h = refl
  next_at-set_next_self (x ∷ ns) (suc i) v h = next_at-set_next_self ns i v (omega arith)

  next_at-set_next_ne :
      (ns : List (Node A)) (i j v : ℕ)
      → (j == i) ≡ false
      → next_at (set_next ns i v) j ≡ next_at ns j
  next_at-set_next_ne [] i j v h = refl
  next_at-set_next_ne (x ∷ ns) zero zero v h = absurd (grind arith)
  next_at-set_next_ne (x ∷ ns) zero (suc j) v h = refl
  next_at-set_next_ne (x ∷ ns) (suc i) zero v h = refl
  next_at-set_next_ne (x ∷ ns) (suc i) (suc j) v h = next_at-set_next_ne ns i j v (grind arith)

  -- The free nodes from a handle on.
  abbrev pub Chain : List (Node A) → ℕ → List ℕ → Type 0
  Chain ns h [] = h ≡ null
  Chain ns h (x ∷ xs) = (h ≡ x) × ((x < length ns) × Chain ns (next_at ns x) xs)

  -- A chain of nodes whose links did not change.
  Chain-kept :
      (ns ms : List (Node A)) (i : ℕ)
      → length ms ≡ length ns
      → ((j : ℕ) → (j == i) ≡ false → next_at ms j ≡ next_at ns j)
      → (fs : List ℕ) (h : ℕ) → contains i fs ≡ false
      → Chain ns h fs
      → Chain ms h fs
  Chain-kept ns ms i len same [] h c k = k
  Chain-kept ns ms i len same (x ∷ xs) h c k = (
    k.0,
    (
      omega (arith, k.1.0, len),
      Chain-kept ns ms i len same xs _ (apart i x xs c).1 (rw (same x (apart i x xs c).0) k.1.1),
    ),
  )

eq_of : (a b : ℕ) → (a == b) ≡ true → a ≡ b
eq_of a b h = ground arith

eq_zero : (c : ℕ) → (suc c == 0) ≡ (0 == suc c)
eq_zero c = ground arith

some_same {ℓ} : {B : Type ℓ} {a b : B} → ◌≡◌ {A = Option B} (some a) (some b) → a ≡ b
some_same {B} {a} {b} h = ap (λ (o : Option B). elim o [ none ↦ a | some x ↦ x ]) h

no_some {ℓ} : {B : Type ℓ} {b : B} → ◌≡◌ {A = Option B} none (some b) → true ≡ false
no_some {B} h = ap (λ (o : Option B). elim o [ none ↦ true | some x ↦ false ]) h

-- The number of allocated nodes.
abbrev pub used {ℓ} : {A : Type ℓ} → List (Node A) → ℕ
used [] = 0
used (n ∷ ns) = (if n.next == allocated then 1 else 0) + used ns

module _ {ℓ} {A : Type ℓ} where
  used-set :
      (ns : List (Node A)) (i : ℕ) (n : Node A)
      → (n.next == allocated) ≡ true
      → (next_at ns i == allocated) ≡ false
      → i < length ns
      → used (set ns i n) ≡ used ns + 1
  used-set [] i n a f h = absurd (omega arith)
  used-set (x ∷ ns) zero n a f h = rw a (rw f (omega arith))
  used-set (x ∷ ns) (suc i) n a f h = omega (arith, used-set ns i n a f (omega arith))

  used-set_next :
      (ns : List (Node A)) (i v : ℕ)
      → (v == allocated) ≡ false
      → (next_at ns i == allocated) ≡ true
      → i < length ns
      → used (set_next ns i v) + 1 ≡ used ns
  used-set_next [] i v a f h = absurd (omega arith)
  used-set_next (x ∷ ns) zero v a f h = rw a (rw f (omega arith))
  used-set_next (x ∷ ns) (suc i) v a f h = omega (arith, used-set_next ns i v a f (omega arith))

  used-new_nodes : (blank : A) (n i : ℕ) → i + n ≤ max_capacity → used (new_nodes blank i n) ≡ 0
  unfolding new_nodes
  used-new_nodes blank zero i h = refl
  used-new_nodes blank (suc n) i h = ground (arith, used-new_nodes blank n (i + 1) (omega arith))

-- The pool's free nodes are these handles, in this order; every other node is allocated.
pub record Represents {ℓ} {A : Type ℓ} (p : SlabPool A) (fs : List ℕ) : Type ℓ where
  pub chain : Chain p.nodes p.free fs
  pub taken : (h : ℕ) → h < length p.nodes → (next_at p.nodes h == allocated) ≡ not (contains h fs)
  pub unique : Unique fs
  pub bounded : length p.nodes ≤ max_capacity
  pub count : p.size ≡ used p.nodes

-- The handles from `i` on, `n` of them.
abbrev pub handles_from : ℕ → ℕ → List ℕ
handles_from i zero = []
handles_from i (suc n) = i ∷ handles_from (i + 1) n

length-handles_from : (i n : ℕ) → length (handles_from i n) ≡ n
length-handles_from i zero = refl
length-handles_from i (suc n) = omega (arith, length-handles_from (i + 1) n)

contains-handles_from :
    (h i n : ℕ) → contains h (handles_from i n) ≡ (not (ltb h i) && ltb h (i + n))
contains-handles_from h i zero = ground arith
contains-handles_from h i (suc n) = ground (arith, contains-handles_from h (i + 1) n)

Unique-handles_from : (i n : ℕ) → Unique (handles_from i n)
Unique-handles_from i zero = tt
Unique-handles_from i (suc n) =
    (ground (arith, contains-handles_from i (i + 1) n), Unique-handles_from (i + 1) n)

module _ {ℓ} {A : Type ℓ} where
  length-new_nodes : (blank : A) (i n : ℕ) → length (new_nodes blank i n) ≡ n
  unfolding new_nodes
  length-new_nodes blank i zero = refl
  length-new_nodes blank i (suc n) = omega (arith, length-new_nodes blank (i + 1) n)

  next_at-new_nodes :
      (blank : A) (i n k : ℕ)
      → k < n
      → next_at (new_nodes blank i n) k ≡ (if k + 1 == n then null else i + k + 1)
  unfolding new_nodes
  next_at-new_nodes blank i zero k h = absurd (omega arith)
  next_at-new_nodes blank i (suc n) zero h = ground arith
  next_at-new_nodes blank i (suc n) (suc k) h =
      ground (arith, next_at-new_nodes blank (i + 1) n k (omega arith))

  next_at-made :
      (blank : A) (c i : ℕ)
      → i < c
      → next_at (new_nodes blank 0 c) i ≡ (if i + 1 == c then null else i + 1)
  next_at-made blank c i h = ground (arith, next_at-new_nodes blank 0 c i h)

  Chain-new_nodes :
      (blank : A) (c n i : ℕ)
      → i + n ≡ c
      → Chain (new_nodes blank 0 c) (if i == c then null else i) (handles_from i n)
  Chain-new_nodes blank c zero i e = ground arith
  Chain-new_nodes blank c (suc n) i e = (
    ground arith,
    (
      omega (arith, length-new_nodes blank 0 c),
      rw (next_at-made blank c i (omega arith)) (Chain-new_nodes blank c n (i + 1) (omega arith)),
    ),
  )

module _ {ℓ} {A : Type ℓ} where
  abbrev pub in_use : A → Node A
  in_use blank = record { value = blank; next = allocated }

  -- The pool after its free node `x` is handed out.
  abbrev pub taken_from : A → SlabPool A → ℕ → SlabPool A
  taken_from blank p x = record {
    nodes = set p.nodes x (in_use blank);
    free = next_at p.nodes x;
    size = p.size + 1;
  }

  handles-Chain :
      (blank : A) (c : ℕ)
      → Chain (new_nodes blank 0 c) (if c == 0 then null else 0) (handles_from 0 c)
  handles-Chain blank zero = refl
  handles-Chain blank (suc c) =
      rw (eq_zero c) (Chain-new_nodes blank (suc c) (suc c) 0 (omega arith))

  taken-new_nodes :
      (blank : A) (c h : ℕ)
      → c ≤ max_capacity
      → h < length (new_nodes blank 0 c)
      → (next_at (new_nodes blank 0 c) h == allocated) ≡ not (contains h (handles_from 0 c))
  taken-new_nodes blank c h fits inside =
      let below : h < c = omega (arith, length-new_nodes blank 0 c) in
      ground (arith, next_at-made blank c h below, contains-handles_from h 0 c)

  -- The pool that is made.
  abbrev made : A → ℕ → SlabPool A
  made blank c = record { nodes = new_nodes blank 0 c; free = if c == 0 then null else 0; size = 0 }

  new-made :
      (blank : A) (c : ℕ) (p : SlabPool A)
      → new blank c ≡ some p
      → (c ≤ max_capacity) × (made blank c ≡ p)
  unfolding new
  new-made blank c p e = elim (Bool-cases (ltb max_capacity c)) [
    | inl over ↦ absurd (grind (arith, no_some (sym (rw over refl) ∙ e)))
    | inr fits ↦
        let small : c ≤ max_capacity = ground arith in
        let same : ◌≡◌ {A = Option (SlabPool A)} (some (made blank c)) (some p) =
          sym (rw fits refl) ∙ e in
        (small, some_same same)
  ]

  pub new-Represents :
      (blank : A) (c : ℕ) (p : SlabPool A) → new blank c ≡ some p → Represents p (handles_from 0 c)
  new-Represents blank c p e =
      let small = (new-made blank c p e).0 in
      subst (λ q. Represents q (handles_from 0 c)) (new-made blank c p e).1
        record {
          chain = handles-Chain blank c;
          taken = λ h inside. taken-new_nodes blank c h small inside;
          unique = Unique-handles_from 0 c;
          bounded = rw (length-new_nodes blank 0 c) small;
          count = sym (used-new_nodes blank c 0 (omega (arith, small)));
        }

  pub new_size : (blank : A) (c : ℕ) (p : SlabPool A) → new blank c ≡ some p → length p.nodes ≡ c
  new_size blank c p e =
      sym (ap (λ (q : SlabPool A). length q.nodes) (new-made blank c p e).1)
      ∙ length-new_nodes blank 0 c

  pub allocate_head :
      (blank : A) (p : SlabPool A) (x : ℕ) (fs : List ℕ)
      → Represents p (x ∷ fs)
      → allocate blank p ≡ (taken_from blank p x, x)
  unfolding allocate
  allocate_head blank p x fs r =
      let some_free : (p.free == null) ≡ false =
        ground (arith, r.chain.0, r.chain.1.0, r.bounded) in
      rw some_free (rw r.chain.0 refl)

  taken-taken_from :
      (blank : A) (p : SlabPool A) (x h : ℕ) (fs : List ℕ)
      → Represents p (x ∷ fs)
      → h < length (taken_from blank p x).nodes
      → (next_at (taken_from blank p x).nodes h == allocated) ≡ not (contains h fs)
  taken-taken_from blank p x h fs r inside =
      let n = in_use blank in
      let here : h < length p.nodes = omega (arith, length-set p.nodes x n) in
      elim (Bool-cases (h == x)) [
        | inl same ↦
            let e = eq_of h x same in
            rw e (rw (next_at-set_self p.nodes x n r.chain.1.0) (rw r.unique.0 refl))
        | inr other ↦ rw (next_at-set_ne p.nodes x h n other) (ground (arith, r.taken h here))
      ]

  pub taken_from-Represents :
      (blank : A) (p : SlabPool A) (x : ℕ) (fs : List ℕ)
      → Represents p (x ∷ fs)
      → Represents (taken_from blank p x) fs
  taken_from-Represents blank p x fs r =
      let n = in_use blank in
      let len = length-set p.nodes x n in
      let open_node : (next_at p.nodes x == allocated) ≡ false =
        ground (arith, r.taken x r.chain.1.0) in
      record {
        chain =
            Chain-kept p.nodes (set p.nodes x n) x len (λ j h. next_at-set_ne p.nodes x j n h) fs
              (next_at p.nodes x) r.unique.0 r.chain.1.1;
        taken = λ h inside. taken-taken_from blank p x h fs r inside;
        unique = r.unique.1;
        bounded = rw len r.bounded;
        count = omega (arith, r.count, used-set p.nodes x n refl open_node r.chain.1.0);
      }

  pub allocate-exhausted :
      (blank : A) (p : SlabPool A) → Represents p [] → allocate blank p ≡ (p, null)
  unfolding allocate
  allocate-exhausted blank p r = rw r.chain refl

  free_link : (p : SlabPool A) (fs : List ℕ) → Represents p fs → (p.free == allocated) ≡ false
  free_link p [] r = rw r.chain refl
  free_link p (x ∷ fs) r = ground (arith, r.chain.0, r.chain.1.0, r.bounded)

  taken-given_to :
      (h : ℕ) (p : SlabPool A) (fs : List ℕ)
      → Represents p fs
      → h < length p.nodes
      → (j : ℕ) → j < length (set_next p.nodes h p.free)
      → (next_at (set_next p.nodes h p.free) j == allocated) ≡ not (contains j (h ∷ fs))
  taken-given_to h p fs r inside j k =
      let here : j < length p.nodes = omega (arith, length-set_next p.nodes h p.free) in
      elim (Bool-cases (j == h)) [
        | inl same ↦
            let e = eq_of j h same in
            rw same (rw e (rw (next_at-set_next_self p.nodes h p.free inside) (free_link p fs r)))
        | inr other ↦ rw other (rw (next_at-set_next_ne p.nodes h j p.free other) (r.taken j here))
      ]

  -- A node given back goes before the free ones.
  pub given_to-Represents :
      (h : ℕ) (p : SlabPool A) (fs : List ℕ)
      → Represents p fs
      → h < length p.nodes
      → contains h fs ≡ false
      → Represents
          (record { nodes = set_next p.nodes h p.free; free = h; size = p.size - 1 })
          (h ∷ fs)
  given_to-Represents h p fs r inside absent =
      let len = length-set_next p.nodes h p.free in
      let out : (next_at p.nodes h == allocated) ≡ true = rw (r.taken h inside) (rw absent refl) in
      record {
        chain = (
          refl,
          (
            omega (arith, len),
            rw (next_at-set_next_self p.nodes h p.free inside) (
                Chain-kept p.nodes (set_next p.nodes h p.free) h len
                  (λ j k. next_at-set_next_ne p.nodes h j p.free k) fs p.free absent r.chain),
          ),
        );
        taken = λ j k. taken-given_to h p fs r inside j k;
        unique = (absent, r.unique);
        bounded = rw len r.bounded;
        count =
            omega (arith, r.count, used-set_next p.nodes h p.free (free_link p fs r) out inside);
      }
