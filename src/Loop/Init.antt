-- ===== src/Loop/Init.antt =====
-- event_lea.c: lt_base_init and lt_new_post_callback. What malloc and epoll_create1 return are arguments. Memory from
-- malloc is not cleared: the fields that are not written are those of the state before.
-- `struct event` has 88 bytes on a 64-bit machine.
pub mod Laws
mod Tests
use leactor.Prelude.{
  ℕ, ℤ, pos, negsuc, Ptr, null, Bool, false, Option, none, some, ◌==◌, if◌then◌else◌, List, [],
  update, Run, ok, undefined, ◌>>=◌,
}
use leactor.Event.{Event, Events}
use leactor.Heap.{constructor}
use leactor.Pool.{new_memory_pool_manager}
use leactor.Loop.{Base, store, new_event, ev_init, is_unset}
use leactor.Loop.Active.{State, events_of}

abbrev pub sizeof_event : ℕ
sizeof_event = 88

abbrev pub event_pool_length : ℕ
event_pool_length = 64

-- lt_base_init, with the blocks of the base, of the head of the free list and of the first pool, and the
-- descriptor, which is -1 if epoll_create1 fails; `none` is NULL.
unfoldable pub base_init :
    {W : Type 0} (base : Ptr) (epfd : ℤ) (free_ev_head pool : Ptr)
    → State W
    → Run (Option (State W))
base_init base epfd free_ev_head pool s =
    let b = s.base in
    let events =
      update (events_of s) free_ev_head (record (events_of s free_ev_head) { next = null }) in
    let made =
      new_memory_pool_manager pool b.event_pool.pools b.event_pool.manager.head
        b.event_pool.manager.tail sizeof_event event_pool_length in
    let rest = made >>= λ event_pool. ok (
      some (record s {
        base = record {
          address = base;
          timers = record { heap = constructor b.timers.heap.p; events = events };
          event_pool = event_pool;
          free_ev_head = free_ev_head;
          calls = [];
        };
        head = null;
      })) in
    if base == null
    then ok none
    else if is_unset epfd
    then ok none
    else if free_ev_head == null
    then undefined
    else rest

-- lt_new_post_callback
unfoldable pub new_post_callback :
    (fresh : Ptr) → Base → (callback : Ptr) (fd : ℤ) (arg : Ptr) → Run (Base × Ptr)
unfolding ev_init store
new_post_callback fresh b callback fd arg = new_event fresh b >>= λ (c, event).
    ok (store c event (ev_init (c.timers.events event) 16 fd callback arg false), event)
