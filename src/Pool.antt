-- ===== src/Pool.antt =====
-- lt_pool.c: pools of elements of one size, chained under a manager. A pool's header lies at the
-- start of its own block, so a pool is known by the address of the block; `none` in the memory is a
-- block that is not allocated. What aligned_alloc returns is the argument `fresh`, NULL if it fails.
-- Sizes are those of a 64-bit machine: 40 bytes for lt_memory_pool_t, 48 for the manager.
pub mod Bounds
pub mod Destroy
mod Tests
use leactor.Prelude.{
  ℕ, zero, suc, ◌+◌, ◌-◌, ◌*◌, ◌/◌, ◌%◌, ◌^◌, Ptr, null, Option, none, some, ltb, ◌==◌,
  if◌then◌else◌, update, Run, ok, undefined, out_of_fuel, ◌>>=◌, ◌>>◌, present,
}

-- lt_memory_pool_t, less its link back to the manager.
pub record Pool : Type 0 where
  pub start : ℕ
  pub end : ℕ
  pub pos : ℕ
  pub next : Ptr

-- lt_memory_pool_manager_t
pub record Manager : Type 0 where
  pub cur : Ptr
  pub one_element_size : ℕ
  pub element_count : ℕ
  pub head : Ptr
  pub tail : Ptr

pub record State : Type 0 where
  pub manager : Manager
  pub pools : Ptr → Option Pool

abbrev pub sizeof_pool : ℕ
sizeof_pool = 40

abbrev pub sizeof_manager : ℕ
sizeof_manager = 48

-- alignment_ptr(p, a), for an `a` that is a power of two: the low bits of p + a - 1 are cleared.
abbrev pub alignment_ptr : ℕ → ℕ → ℕ
alignment_ptr p a = (p + (a - 1)) % 2 ^ 64 / a * a

-- size_of_pool_struct_and_all_elements, which adds the size of the manager, not of the pool.
abbrev pub block_size : Manager → ℕ
block_size m = (sizeof_manager + m.element_count * m.one_element_size) % 2 ^ 64

-- `manager->tail->next = pool`
link_tail : State → Ptr → Run State
link_tail s pool = do
  tail ← present (s.pools s.manager.tail)
  ok (record s { pools = update s.pools s.manager.tail (some (record tail { next = pool })) })

-- lt_new_memory_pool: the state and the returned pointer.
unfoldable pub new_memory_pool : Ptr → State → Run (State × Ptr)
unfolding link_tail
new_memory_pool fresh s =
    let pool : Pool = record {
      start = fresh;
      pos = alignment_ptr ((fresh + sizeof_pool) % 2 ^ 64) 8;
      end = (fresh + block_size s.manager) % 2 ^ 64;
      next = null;
    } in
    let t : State = record s { pools = update s.pools fresh (some pool) } in
    let finish : State → Run (State × Ptr) =
      λ u. ok (record u { manager = record (s.manager) { cur = fresh; tail = fresh } }, fresh) in
    if fresh == null
    then ok (s, null)
    else (if s.manager.cur == null then finish t else link_tail t fresh >>= finish)

-- lt_new_memory_pool_manager on a manager that is there.
unfoldable pub new_memory_pool_manager :
    Ptr → (Ptr → Option Pool) → (head tail : Ptr) → (size count : ℕ) → Run State
unfolding new_memory_pool
new_memory_pool_manager fresh pools head tail size count = do
  let blank : Manager = record {
    cur = null;
    one_element_size = size;
    element_count = count;
    head = head;
    tail = tail;
  }
  (s, cur) ← new_memory_pool fresh (record { manager = blank; pools = pools })
  ok (record s { manager = record (s.manager) { cur = cur; tail = cur; head = cur } })

-- lt_alloc: the state and the address of the new element.
unfoldable pub alloc : Ptr → State → Run (State × Ptr)
unfolding new_memory_pool
alloc fresh s = do
  cur ← present (s.pools s.manager.tail)
  let pos = alignment_ptr ((cur.pos + s.manager.one_element_size) % 2 ^ 64) 8
  let t : State = record s {
    pools = update s.pools s.manager.tail (some (record cur { pos = pos }));
  }
  let more = new_memory_pool fresh t >>= λ (u, _). ok (u, cur.pos)
  if ltb cur.end pos then more else ok (t, cur.pos)

-- The loop of lt_destroy_memory_pool: `pool` is never set to `next`.
destroy_loop : ℕ → (Ptr → Option Pool) → Ptr → Run (Ptr → Option Pool)
destroy_loop zero pools pool = out_of_fuel
destroy_loop (suc k) pools pool = do
  p ← present (pools pool)
  let freed = update pools pool none
  let rest = destroy_loop k freed pool
  if p.next == null then ok freed else rest

-- lt_destroy_memory_pool, with two rounds for its loop: the second never passes on.
unfoldable pub destroy_memory_pool : State → Run (Ptr → Option Pool)
unfolding destroy_loop
destroy_memory_pool s = destroy_loop 2 s.pools s.manager.head
