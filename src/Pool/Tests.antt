-- ===== src/Pool/Tests.antt =====
-- Runs of lt_pool.c, and the theorems at concrete pools.
use leactor.Prelude.{
  ℕ, ◌+◌, ◌*◌, ◌%◌, ◌^◌, ◌<◌, ◌≤◌, ◌≡◌, ◌≢◌, refl, arith, none, some, ok, ◌>>=◌, update, ◌==◌,
  if◌then◌else◌,
}
use leactor.Pool.{State, sizeof_pool, sizeof_manager, alloc}
use leactor.Pool.Bounds.{IsFilled, IsSized, filled_pool, alloc-IsFilled, alloc-overflows}

-- A pool at 4096 for 32 elements of 24 bytes, of which `k` are handed out.
abbrev sample : ℕ → State
sample k = record {
  manager = record {
    cur = 4096;
    one_element_size = 24;
    element_count = 32;
    head = 4096;
    tail = 4096;
  };
  pools = λ a. if a == 4096 then some (filled_pool 4096 24 32 k) else none;
}

sample-IsFilled : (k : ℕ) → IsFilled (sample k) 4096 24 32 k
sample-IsFilled k = record { tail = refl; element_size = refl; element_count = refl; pool = refl }

sized : (start : ℕ) → start ≢ 0 → start % 16 ≡ 0 → start < 2 ^ 32 → IsSized start 24 32
sized start h k l = record {
  not_null = h;
  start_aligned = k;
  size_aligned = refl;
  no_wrap = omega arith;
}

alloc_run : (alloc 8192 (sample 31) >>= λ (s, p). ok p) ≡ ok (4096 + 40 + 31 * 24)
unfolding alloc update
alloc_run = refl

alloc-IsFilled_example :
    (t : State) × (alloc 8192 (sample 31) ≡ ok (t, 4096 + sizeof_pool + 31 * 24))
    × IsFilled t 4096 24 32 (31 + 1)
    × (4096 + sizeof_pool + 31 * 24 + 24 ≤ 4096 + sizeof_manager + 32 * 24)
alloc-IsFilled_example =
    alloc-IsFilled 8192 4096 24 32 31 (sample 31) (sized 4096 (omega arith) refl (omega arith))
      (sample-IsFilled 31) (omega arith)

alloc-overflows_example :
    (t : State) × (alloc 8192 (sample 32) ≡ ok (t, 4096 + sizeof_pool + 32 * 24))
    × (4096 + sizeof_manager + 32 * 24 < 4096 + sizeof_pool + 32 * 24 + 24)
    × IsFilled t 8192 24 32 0
alloc-overflows_example =
    alloc-overflows 8192 4096 24 32 (sample 32) (sized 4096 (omega arith) refl (omega arith))
      (sized 8192 (omega arith) refl (omega arith)) (sample-IsFilled 32) (omega arith) (omega arith)
      (omega arith)
