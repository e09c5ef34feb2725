-- ===== src/Buffers/Pooled.antt =====
-- The pool of lt_pool.c as the allocator of the buffers.
use leactor.Prelude.{ℕ, zero, suc, ◌+◌, ◌*◌, ◌≤◌, ◌<◌, Ptr, List, [], ◌∷◌, arith, NotIn, Distinct}
use leactor.Pool
use leactor.Pool.{sizeof_pool, alloc}
use leactor.Pool.Bounds.{IsFilled, IsSized, alloc-IsFilled}
use leactor.Buffers.{Allocator}
use leactor.Buffers.Chain.{Supplies}

-- lt_alloc; what aligned_alloc would answer depends on the state.
abbrev pub pool_allocator : (aligned_alloc : Pool.State → Ptr) → Allocator Pool.State
pool_allocator aligned_alloc = record { alloc = λ s. alloc (aligned_alloc s) s }

-- The elements from number `k` on of the pool at `start`.
abbrev pub elements : (start size k n : ℕ) → List Ptr
elements start size k zero = []
elements start size k (suc n) = (start + sizeof_pool + k * size) ∷ elements start size (k + 1) n

product_lt : (size k j : ℕ) → 0 < size → k < j → k * size < j * size
product_lt size k j pos less = grind arith

elements-NotIn :
    (start size k j n : ℕ)
    → 0 < size
    → k < j
    → NotIn (start + sizeof_pool + k * size) (elements start size j n)
elements-NotIn start size k j zero pos less = tt
elements-NotIn start size k j (suc n) pos less = (
  λ e. absurd (omega (arith, product_lt size k j pos less)),
  elements-NotIn start size k (j + 1) n pos (omega arith),
)

elements-Distinct : (start size k n : ℕ) → 0 < size → Distinct (elements start size k n)
elements-Distinct start size k zero pos = tt
elements-Distinct start size k (suc n) pos = (
  elements-NotIn start size k (k + 1) n pos (omega arith),
  elements-Distinct start size (k + 1) n pos,
)

-- A pool with aligned sizes that do not wrap round, of which `k` elements are handed out, supplies the
-- following `n` elements as long as these are within its count; they are not NULL, and all
-- different.
pub elements-Supplies :
    (aligned_alloc : Pool.State → Ptr) (start size count k n : ℕ) (s : Pool.State)
    → IsSized start size count
    → 0 < size
    → IsFilled s start size count k
    → k + n ≤ count
    → Supplies ⦃a = pool_allocator aligned_alloc⦄ s (elements start size k n)
      × Distinct (elements start size k n)
elements-Supplies aligned_alloc start size count k zero s z pos v h = (tt, tt)
elements-Supplies aligned_alloc start size count k (suc n) s z pos v h =
    let (t, run, filled, inside) =
      alloc-IsFilled (aligned_alloc s) start size count k s z v (omega arith) in
    let rest =
      elements-Supplies aligned_alloc start size count (k + 1) n t z pos filled (omega arith) in
    ((t, run, omega arith, rest.0), elements-Distinct start size k (suc n) pos)
