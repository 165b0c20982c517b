-- ===== src/Core/SlabPool/Runs.antt =====
-- slab_pool.hpp against a stack of handles: any calls on a new pool.
use opti_trade_engine.Prelude.{
  ℕ, ◌≡◌, refl, sym, ◌∙◌, ◌==◌, ◌+◌, zero, suc, true, false, ◌&&◌, not, List, [], ◌∷◌, some, ltb,
  if◌then◌else◌, length, arith, length-set, ap, Bool-cases, inl, inr,
}
use opti_trade_engine.Core.SlabPool.{
  SlabPool, Node, next_at, set_node_value, null, allocated, new, allocate, live, release, set_value,
}
use opti_trade_engine.Core.SlabPool.Refinement.{
  Represents, Chain, used, contains, handles_from, new-Represents, new_size, allocate_head,
  taken_from, taken_from-Represents, allocate-exhausted, given_to-Represents, length-set_next,
}

-- The calls on a pool; a write is one through the reference that operator[] gives.
pub data Call {ℓ} (A : Type ℓ) : Type ℓ where
  allocates : Call A
  releases : ℕ → Call A
  writes : ℕ → A → Call A

-- The pool after the calls, and the handles that they were given.
unfoldable pub run {ℓ} : {A : Type ℓ} → A → List (Call A) → SlabPool A → SlabPool A × List ℕ
run blank [] p = (p, [])
run blank (allocates ∷ cs) p =
    let r = allocate blank p in let rest = run blank cs r.0 in (rest.0, r.1 ∷ rest.1)
run blank (releases h ∷ cs) p = run blank cs (release h p)
run blank (writes h v ∷ cs) p = run blank cs (set_value h v p)

-- A stack of free handles below `c`: the top is handed out; what is given back goes on top, if it
-- is below `c` and not there already.
unfoldable pub stack_run {ℓ} : {A : Type ℓ} → ℕ → List (Call A) → List ℕ → List ℕ × List ℕ
stack_run c [] fs = (fs, [])
stack_run c (allocates ∷ cs) [] = let rest = stack_run c cs [] in (rest.0, null ∷ rest.1)
stack_run c (allocates ∷ cs) (x ∷ fs) = let rest = stack_run c cs fs in (rest.0, x ∷ rest.1)
stack_run c (releases h ∷ cs) fs =
    stack_run c cs (if ltb h c && not (contains h fs) then h ∷ fs else fs)
stack_run c (writes h v ∷ cs) fs = stack_run c cs fs

module _ {ℓ} {A : Type ℓ} where
  live_free :
      (h : ℕ) (p : SlabPool A) (fs : List ℕ)
      → Represents p fs
      → live h p ≡ (ltb h (length p.nodes) && not (contains h fs))
  unfolding live
  live_free h p fs r = elim (Bool-cases (ltb h (length p.nodes))) [
    | inl inside ↦ rw inside (r.taken h (ground arith))
    | inr outside ↦ rw outside refl
  ]

  release-Represents :
      (h : ℕ) (p : SlabPool A) (fs : List ℕ)
      → Represents p fs
      → Represents
          (release h p)
          (if ltb h (length p.nodes) && not (contains h fs) then h ∷ fs else fs)
  unfolding release
  release-Represents h p fs r = elim (Bool-cases (ltb h (length p.nodes) && not (contains h fs))) [
    | inl free ↦
        let lives : live h p ≡ true = live_free h p fs r ∙ free in
        rw free (rw lives (given_to-Represents h p fs r (ground arith) (ground arith)))
    | inr held ↦ let dead : live h p ≡ false = live_free h p fs r ∙ held in rw held (rw dead r)
  ]

  length-release : (h : ℕ) (p : SlabPool A) → length (release h p).nodes ≡ length p.nodes
  unfolding release
  length-release h p = elim (Bool-cases (live h p)) [
    | inl lives ↦ rw lives (length-set_next p.nodes h p.free)
    | inr dead ↦ rw dead refl
  ]

  length-set_node_value :
      (ns : List (Node A)) (i : ℕ) (v : A) → length (set_node_value ns i v) ≡ length ns
  length-set_node_value [] i v = refl
  length-set_node_value (n ∷ ns) zero v = refl
  length-set_node_value (n ∷ ns) (suc i) v = ap suc (length-set_node_value ns i v)

  next_at-set_node_value :
      (ns : List (Node A)) (i : ℕ) (v : A) (j : ℕ)
      → next_at (set_node_value ns i v) j ≡ next_at ns j
  next_at-set_node_value [] i v j = refl
  next_at-set_node_value (n ∷ ns) zero v zero = refl
  next_at-set_node_value (n ∷ ns) zero v (suc j) = refl
  next_at-set_node_value (n ∷ ns) (suc i) v zero = refl
  next_at-set_node_value (n ∷ ns) (suc i) v (suc j) = next_at-set_node_value ns i v j

  used-set_node_value :
      (ns : List (Node A)) (i : ℕ) (v : A) → used (set_node_value ns i v) ≡ used ns
  used-set_node_value [] i v = refl
  used-set_node_value (n ∷ ns) zero v = refl
  used-set_node_value (n ∷ ns) (suc i) v =
      ap (λ (k : ℕ). (if n.next == allocated then 1 else 0) + k) (used-set_node_value ns i v)

  Chain-relinked :
      (ns ms : List (Node A))
      → length ms ≡ length ns
      → ((j : ℕ) → next_at ms j ≡ next_at ns j)
      → (fs : List ℕ) (h : ℕ) → Chain ns h fs
      → Chain ms h fs
  Chain-relinked ns ms len same [] h k = k
  Chain-relinked ns ms len same (x ∷ xs) h k =
      (k.0, (omega (arith, k.1.0, len), Chain-relinked ns ms len same xs _ (rw (same x) k.1.1)))

  -- Nodes with the same links.
  relinked-Represents :
      (p : SlabPool A) (ms : List (Node A)) (fs : List ℕ)
      → length ms ≡ length p.nodes
      → ((j : ℕ) → next_at ms j ≡ next_at p.nodes j)
      → used ms ≡ used p.nodes
      → Represents p fs
      → Represents (record p { nodes = ms }) fs
  relinked-Represents p ms fs len same total r = record {
    chain = Chain-relinked p.nodes ms len same fs p.free r.chain;
    taken = λ h inside. rw (same h) (r.taken h (omega (arith, inside, len)));
    unique = r.unique;
    bounded = omega (arith, len, r.bounded);
    count = r.count ∙ sym total;
  }

  set_value-Represents :
      (h : ℕ) (v : A) (p : SlabPool A) (fs : List ℕ)
      → Represents p fs
      → Represents (set_value h v p) fs
  unfolding set_value
  set_value-Represents h v p fs r =
      relinked-Represents p (set_node_value p.nodes h v) fs (length-set_node_value p.nodes h v)
        (next_at-set_node_value p.nodes h v) (used-set_node_value p.nodes h v) r

  run-Represents :
      (blank : A) (c : ℕ) (cs : List (Call A)) (p : SlabPool A) (fs : List ℕ)
      → Represents p fs
      → length p.nodes ≡ c
      → ((run blank cs p).1 ≡ (stack_run c cs fs).1)
        × Represents (run blank cs p).0 (stack_run c cs fs).0
  unfolding run stack_run set_value
  run-Represents blank c [] p fs r e = (refl, r)
  run-Represents blank c (allocates ∷ cs) p [] r e =
      let ih = run-Represents blank c cs p [] r e in
      rw (allocate-exhausted blank p r) (ap (λ l. null ∷ l) ih.0, ih.1)
  run-Represents blank c (allocates ∷ cs) p (x ∷ fs) r e =
      let len = length-set p.nodes x record { value = blank; next = allocated } in
      let ih =
        run-Represents blank c cs (taken_from blank p x) fs (taken_from-Represents blank p x fs r)
          (len ∙ e) in
      rw (allocate_head blank p x fs r) (ap (λ l. x ∷ l) ih.0, ih.1)
  run-Represents blank c (releases h ∷ cs) p fs r e =
      run-Represents blank c cs (release h p) _ (rw e at (release-Represents h p fs r))
        (length-release h p ∙ e)
  run-Represents blank c (writes h v ∷ cs) p fs r e =
      run-Represents blank c cs (set_value h v p) fs (set_value-Represents h v p fs r)
        (length-set_node_value p.nodes h v ∙ e)

-- For every capacity, a pool that is made gives out, under any sequence of allocate(), release() and
-- writes through operator[], the handles that a stack gives which starts as 0, 1, ... capacity - 1, kNull when it is empty,
-- and takes back only a handle below the capacity that it does not hold; at the end the list of
-- free nodes is that stack, every other node is allocated, and the size is the number of those.
pub run-stack_run {ℓ} :
    {A : Type ℓ} (blank : A) (c : ℕ) (p : SlabPool A) (cs : List (Call A))
    → new blank c ≡ some p
    → ((run blank cs p).1 ≡ (stack_run c cs (handles_from 0 c)).1)
      × Represents (run blank cs p).0 (stack_run c cs (handles_from 0 c)).0
run-stack_run blank c p cs e =
    run-Represents blank c cs p (handles_from 0 c) (new-Represents blank c p e)
      (new_size blank c p e)
