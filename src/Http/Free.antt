-- ===== src/Http/Free.antt =====
-- http_create_request and http_finish_request of http.c: the requests of a connection that can be used again.
-- Each has a pool of header elements, which http_create_request sets up and http_finish_request destroys.
pub mod Queue
mod Tests
use leactor.Prelude.{ℕ, Ptr, null, ◌==◌, if◌then◌else◌, update, Run, ok, undefined, ◌>>=◌}
use leactor.Pool
use leactor.Pool.{new_memory_pool_manager, destroy_memory_pool}
use leactor.Buffers.{Allocator}

-- The fields of request_t that the two functions write.
pub record Req : Type 0 where
  pub conn : Ptr
  pub header_in : Ptr
  pub state : ℕ
  pub next : Ptr

-- The connection's pool and list of requests, the requests in memory, and the pool of each for its header elements.
pub record State (S : Type 0) : Type 0 where
  pub manager : S
  pub head : Ptr
  pub tail : Ptr
  pub reqs : Ptr → Req
  pub header_pools : Ptr → Pool.State

-- DEFAULT_HEADER_ELEMENT_COUNT, and the size of an element on a 64-bit machine.
abbrev pub header_element_count : ℕ
header_element_count = 16

abbrev pub sizeof_element : ℕ
sizeof_element = 88

module _ {S : Type 0} where
  -- The assignments to the request.
  abbrev pub prepare : (conn buf : Ptr) → State S → (req : Ptr) → State S
  prepare conn buf s req = record s {
    reqs = update s.reqs req (record (s.reqs req) { conn = conn; header_in = buf; state = 0 });
  }

  -- `p->next = next`
  abbrev pub set_next : State S → (p next : Ptr) → State S
  set_next s p next = record s { reqs = update s.reqs p (record (s.reqs p) { next = next }) }

  -- http_finish_request
  unfoldable pub finish_request : (req : Ptr) → State S → Run (State S)
  finish_request req s = destroy_memory_pool (s.header_pools req) >>= λ pools.
      let destroyed : State S = record s {
        header_pools = update s.header_pools req (record (s.header_pools req) { pools = pools });
      } in
      let t = set_next destroyed req null in
      if t.tail == null
      then ok (record t { tail = req; head = req })
      else ok (record (set_next t t.tail req) { tail = req })

  -- The pool for the header elements, where aligned_alloc answers `block`.
  abbrev pub with_pool : (block : Ptr) → (req : Ptr) → State S → Run (State S × Ptr)
  with_pool block req s =
      let old = s.header_pools req in
      new_memory_pool_manager block old.pools old.manager.head old.manager.tail sizeof_element
        header_element_count
      >>= λ pool. ok (record s { header_pools = update s.header_pools req pool }, req)

module _ {S : Type 0} ⦃a : Allocator S⦄ where
  -- http_create_request; a NULL from lt_alloc is written through at once.
  unfoldable pub create_request : (conn buf block : Ptr) → State S → Run (State S × Ptr)
  create_request conn buf block s =
      let fresh = a.alloc s.manager >>= λ (m, p).
      if p == null
      then undefined
      else with_pool block p (prepare conn buf (record s { manager = m }) p) in
      let again =
        with_pool block s.head
          (prepare conn buf (record s { head = (s.reqs s.head).next }) s.head) in
      if s.head == null then fresh else again
