-- ===== src/Pool/Destroy.antt =====
-- lt_destroy_memory_pool on one pool and on a chain.
use leactor.Prelude.{
  ◌≡◌, ◌≢◌, refl, arith, null, none, some, update, update_self, ok, undefined, ◌==◌, true, false,
}
use leactor.Pool.{Pool, State, destroy_memory_pool}

-- lt_destroy_memory_pool frees the block of a manager with one pool, and no other block.
pub destroy_one :
    (s : State) (p : Pool)
    → s.pools s.manager.head ≡ some p
    → p.next ≡ null
    → destroy_memory_pool s ≡ ok (update s.pools s.manager.head none)
unfolding destroy_memory_pool
destroy_one s p there last = let test : (p.next == 0) ≡ true = ground arith in rw (there, test) refl

-- On a manager whose first pool has a successor lt_destroy_memory_pool never frees the successor: its
-- loop goes back to the first pool, which it has just freed, and reads it.
destroy_chain :
    (s : State) (p : Pool)
    → s.pools s.manager.head ≡ some p
    → p.next ≢ null
    → destroy_memory_pool s ≡ undefined
unfolding destroy_memory_pool
destroy_chain s p there more =
    let test : (p.next == 0) ≡ false = ground arith in
    rw (there, test, update_self s.pools s.manager.head none) refl
