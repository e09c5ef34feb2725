-- ===== src/Loop.antt =====
-- event_lea.c: adding, changing and removing the events of the loop, and the free list of events.
-- The heap and the events in memory are one state, since the heap writes into the events. What is asked
-- of epoll is kept as the list of the calls of epoll_ctl, the latest one first; their result
-- is only printed. The clock's time, the block that the pool may get and realloc are arguments.
pub mod Timers
pub mod FreeList
pub mod Init
pub mod Active
pub mod Serve
mod Tests
use leactor.Prelude.{
  ℕ, ◌/◌, ◌%◌, ◌^◌, ℤ, pos, negsuc, Ptr, null, Bool, true, false, Option, none, some, List, ◌∷◌,
  ◌==◌, if◌then◌else◌, update, Run, ok, undefined, ◌>>=◌,
}
use leactor.Time.{Time, time_addition}
use leactor.Event.{Event, Events}
use leactor.Heap
use leactor.Heap.{Realloc, elem_init, push, erase}
use leactor.Pool
use leactor.Pool.{alloc}

-- What an event is watched for, besides EPOLLRDHUP: EPOLLIN, EPOLLOUT and EPOLLET.
pub record Interest : Type 0 where
  pub readable : Bool
  pub writable : Bool
  pub edge : Bool

-- The calls of epoll_ctl.
pub data Ctl : Type 0 where
  ctl_add : (fd : ℤ) → Interest → Ptr → Ctl
  ctl_mod : (fd : ℤ) → Interest → Ptr → Ctl
  ctl_del : (fd : ℤ) → Ctl

pub record Base : Type 0 where
  pub address : Ptr
  pub timers : Heap.State
  pub event_pool : Pool.State
  pub free_ev_head : Ptr
  pub calls : List Ctl

abbrev pub has_flag : ℕ → ℕ → Bool
has_flag flag bit = flag / bit % 2 == 1

-- LV_FDRD is 1, LV_FDWR is 2 and LV_CONN is 4.
unfoldable pub interest : ℕ → Interest
interest flag = record {
  readable = has_flag flag 1;
  writable = has_flag flag 2;
  edge = has_flag flag 4;
}

-- `*ev = value`
unfoldable pub store : Base → Ptr → Event → Base
store b ev value = record b {
  timers = record (b.timers) { events = update b.timers.events ev value };
}

-- The access `p->field = ...` for a link `p`.
store_link : Base → Ptr → (Event → Event) → Run Base
store_link b p f = if p == null then undefined else ok (store b p (f (b.timers.events p)))

-- lt_new_event, with the pool's next block `fresh`.
unfoldable pub new_event : (fresh : Ptr) → Base → Run (Base × Ptr)
unfolding store store_link
new_event fresh b =
    let ev = (b.timers.events b.free_ev_head).next in
    let reuse =
      store_link b (b.timers.events ev).prev (λ e. record e { next = (b.timers.events ev).next })
      >>= λ c.
          store_link c (c.timers.events ev).next
            (λ e. record e { prev = (c.timers.events ev).prev })
          >>= λ d. ok (d, ev) in
    let more =
      alloc fresh b.event_pool >>= λ (pool, new). ok (record b { event_pool = pool }, new) in
    if ev == null then more else reuse

-- lt_del_event
unfoldable pub del_event : Base → Ptr → Run Base
unfolding store store_link
del_event b event =
    let free_ev = (b.timers.events b.free_ev_head).next in
    let linked =
      store b event (record (b.timers.events event) {
        prev = (b.timers.events free_ev).prev;
        next = free_ev;
      }) in
    let backed = store linked free_ev (record (linked.timers.events free_ev) { prev = event }) in
    let chained =
      store_link backed (backed.timers.events free_ev).prev (λ e. record e { next = event }) in
    let headed =
      store b b.free_ev_head (record (b.timers.events b.free_ev_head) { next = event }) in
    let first =
      ok (store headed event (record (headed.timers.events event) { prev = b.free_ev_head })) in
    if free_ev == null then first else chained

-- lt_ev_init_
unfoldable pub ev_init : Event → (flag_set : ℕ) (fd : ℤ) (callback arg : Ptr) → Bool → Event
ev_init e flag_set fd callback arg deleted = record e {
  callback = callback;
  arg = arg;
  flag = flag_set;
  fd = fd;
  deleted = deleted;
  next_active_ev = null;
}

-- lt_timeout_add: the base, where the push may have failed, and the end time.
unfoldable pub timeout_add : Realloc → (now : Time) → Base → Ptr → (to : ℕ) → Run (Base × Time)
timeout_add realloc now b ev to =
    let s : Heap.State = record (b.timers) { events = elem_init b.timers.events ev } in
    time_addition now to >>= λ endtime. ok (record b { timers = (push realloc s ev).0 }, endtime)

-- The part that lt_io_add and lt_io_mod share: the timer, if the timeout is not negative.
unfoldable pub set_timer : Realloc → Time → Base → Ptr → (timeout : ℤ) → Run Base
unfolding timeout_add store
set_timer realloc now b ev (pos to) = timeout_add realloc now b ev to >>= λ (c, endtime).
    ok (store c ev (record (c.timers.events ev) { endtime = endtime }))
set_timer realloc now b ev (negsuc n) =
    ok (store b ev (record (b.timers.events ev) { min_heap_idx = negsuc 0 }))

-- lt_io_add
unfoldable pub io_add :
    Realloc
    → Time
    → (fresh : Ptr) → Base
    → (fd : ℤ) (flag_set : ℕ) (callback arg : Ptr) (timeout : ℤ) → Run (Base × Ptr)
unfolding new_event ev_init set_timer store
io_add realloc now fresh b fd flag_set callback arg timeout = new_event fresh b >>= λ (c, ev).
    let d = store c ev (ev_init (c.timers.events ev) flag_set fd callback arg false) in
    set_timer realloc now d ev timeout >>= λ e.
    let f = record e { calls = ctl_add fd (interest flag_set) ev ∷ e.calls } in
    ok (store f ev (record (f.timers.events ev) { base = f.address }), ev)

-- lt_io_mod
unfoldable pub io_mod :
    Realloc → Time → Base → Ptr → (flag_set : ℕ) (callback arg : Ptr) (timeout : ℤ) → Run Base
unfolding set_timer store
io_mod realloc now b ev flag_set callback arg timeout =
    let changed = set_timer realloc now b ev timeout >>= λ c.
    let d =
      store c ev
        (record (c.timers.events ev) { flag = flag_set; callback = callback; arg = arg }) in
    ok (record d { calls = ctl_mod (d.timers.events ev).fd (interest flag_set) ev ∷ d.calls }) in
    if ev == null then ok b else changed

-- Whether an index is the -1 of an event that is not in the heap.
abbrev pub is_unset : ℤ → Bool
is_unset (negsuc n) = n == 0
is_unset (pos i) = false

-- What lt_io_remove does after the heap.
forget : Ptr → Base → Base
forget ev b =
    let c = record b { calls = ctl_del (b.timers.events ev).fd ∷ b.calls } in
    store c ev (record (c.timers.events ev) { deleted = true })

-- The base after the heap's part, if that was defined.
with_timers : Base → Option Heap.State → Option Base
with_timers b none = none
with_timers b (some s) = some (record b { timers = s })

forgotten : Ptr → Option Base → Option Base
forgotten ev none = none
forgotten ev (some b) = some (forget ev b)

-- lt_io_remove; `none` where the heap is accessed out of its bounds.
unfoldable pub io_remove : Base → Ptr → Option Base
unfolding forget with_timers forgotten store
io_remove b ev =
    let erased = with_timers b (erase b.timers ev) in
    forgotten ev (if is_unset (b.timers.events ev).min_heap_idx then some b else erased)
