-- ===== src/Core/SlabPool.antt =====
-- include/optitrade/core/slab_pool.hpp: the class SlabPool. `blank` is the value T{}.
use opti_trade_engine.Prelude.{
  ℕ, zero, suc, ◌+◌, ◌-◌, ◌==◌, Bool, ◌&&◌, not, List, [], ◌∷◌, Option, none, some, ltb,
  if◌then◌else◌, length, set,
}
pub mod Refinement
pub mod Runs
mod Tests

abbrev pub null : ℕ
null = 4294967295

abbrev pub max_capacity : ℕ
max_capacity = 4294967294

abbrev pub allocated : ℕ
allocated = null - 1

pub record Node {ℓ} (A : Type ℓ) : Type ℓ where
  pub value : A
  pub next : ℕ

pub record SlabPool {ℓ} (A : Type ℓ) : Type ℓ where
  pub nodes : List (Node A)
  pub free : ℕ
  pub size : ℕ

-- `nodes_[i].next`; the code reads it inside the vector alone.
abbrev pub next_at {ℓ} : {A : Type ℓ} → List (Node A) → ℕ → ℕ
next_at [] i = null
next_at (n ∷ ns) zero = n.next
next_at (n ∷ ns) (suc i) = next_at ns i

-- The nodes from `i` on of a new pool, `n` of them.
unfoldable pub new_nodes {ℓ} : {A : Type ℓ} → A → ℕ → ℕ → List (Node A)
new_nodes blank i zero = []
new_nodes blank i (suc n) =
    record { value = blank; next = if n == 0 then null else i + 1 } ∷ new_nodes blank (i + 1) n

-- `none` is the exception of a capacity that is too large.
unfoldable pub new {ℓ} : {A : Type ℓ} → A → ℕ → Option (SlabPool A)
new blank capacity =
    if ltb max_capacity capacity
    then none
    else some record {
      nodes = new_nodes blank 0 capacity;
      free = if capacity == 0 then null else 0;
      size = 0;
    }

unfoldable pub allocate {ℓ} : {A : Type ℓ} → A → SlabPool A → SlabPool A × ℕ
allocate blank p = if p.free == null then (p, null) else (
  record {
    nodes = set p.nodes p.free record { value = blank; next = allocated };
    free = next_at p.nodes p.free;
    size = p.size + 1;
  },
  p.free,
)

unfoldable pub live {ℓ} : {A : Type ℓ} → ℕ → SlabPool A → Bool
live h p = ltb h (length p.nodes) && (next_at p.nodes h == allocated)

-- `nodes_[h].next = v`.
abbrev pub set_next {ℓ} : {A : Type ℓ} → List (Node A) → ℕ → ℕ → List (Node A)
set_next [] i v = []
set_next (n ∷ ns) zero v = record n { next = v } ∷ ns
set_next (n ∷ ns) (suc i) v = n ∷ set_next ns i v

unfoldable pub release {ℓ} : {A : Type ℓ} → ℕ → SlabPool A → SlabPool A
unfolding live
release h p =
    if not (live h p)
    then p
    else record { nodes = set_next p.nodes h p.free; free = h; size = p.size - 1 }

-- `nodes_[h].value = v`, through the reference that operator[] gives; the code asserts that the handle
-- is inside the vector, and outside nothing is written here.
abbrev pub set_node_value {ℓ} : {A : Type ℓ} → List (Node A) → ℕ → A → List (Node A)
set_node_value [] i v = []
set_node_value (n ∷ ns) zero v = record n { value = v } ∷ ns
set_node_value (n ∷ ns) (suc i) v = n ∷ set_node_value ns i v

unfoldable pub set_value {ℓ} : {A : Type ℓ} → ℕ → A → SlabPool A → SlabPool A
set_value h v p = record p { nodes = set_node_value p.nodes h v }
