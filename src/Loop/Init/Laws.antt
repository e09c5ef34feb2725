-- ===== src/Loop/Init/Laws.antt =====
-- The events that lt_io_add hands out from a new base on.
use leactor.Prelude.{
  ℕ, ◌+◌, ◌*◌, ◌≤◌, ◌<◌, ◌≡◌, ◌≢◌, refl, ap, ◌∙◌, inl, inr, ℤ, pos, negsuc, Ptr, null, true, false,
  Bool-cases, ◌==◌, some, [], ◌∷◌, update, update_self, update_ne, Run, ok, arith, Bool,
  if◌then◌else◌,
}
use leactor.Time.{Time}
use leactor.Event.{Event, Events}
use leactor.Heap.{Realloc, constructor}
use leactor.Pool.{sizeof_pool, sizeof_manager}
use leactor.Pool.Bounds.{IsSized, IsFilled, new_manager-IsFilled, alloc-IsFilled}
use leactor.Loop.{Base, has_flag, ctl_add, interest, store, new_event, ev_init, set_timer, io_add}
use leactor.Loop.Active.{State, events_of}
use leactor.Loop.Init.{sizeof_event, event_pool_length, base_init}

-- Element number `k` of the block at `pool`.
abbrev pub element : (pool : Ptr) (k : ℕ) → Ptr
element pool k = pool + sizeof_pool + k * sizeof_event

-- Nothing is on the free list or in the heap, and `k` events of the first pool are handed out; the head
-- of the free list is no event of the pool.
pub record IsServing (b : Base) (pool : Ptr) (k : ℕ) : Type 0 where
  pub free : (b.timers.events b.free_ev_head).next ≡ null
  pub filled : IsFilled b.event_pool pool sizeof_event event_pool_length k
  pub timers : b.timers.heap.n ≡ 0
  pub apart : (i : ℕ) → i < event_pool_length → element pool i ≢ b.free_ev_head

-- lt_base_init, where there is a block for the base, a descriptor, a block for the head of the free list, and one
-- for the pool that this head is not in: it returns a base with an empty heap, an empty free list,
-- an empty list of active events, no call of epoll_ctl and no event of the pool handed out,
-- whatever the memory held before.
pub base_init-IsServing :
    {W : Type 0} (base : Ptr) (fd : ℕ) (free_ev_head pool : Ptr) (s : State W)
    → base ≢ null
    → free_ev_head ≢ null
    → IsSized pool sizeof_event event_pool_length
    → ((i : ℕ) → i < event_pool_length → element pool i ≢ free_ev_head)
    → (t : State W) × (base_init base (pos fd) free_ev_head pool s ≡ ok (some t))
      × IsServing t.base pool 0
      × (t.head ≡ null)
      × (t.base.calls ≡ [])
unfolding base_init constructor
base_init-IsServing base fd free_ev_head pool s there head z apart =
    let b = s.base in
    let first = record (events_of s free_ev_head) { next = null } in
    let (p, made, filled) =
      new_manager-IsFilled b.event_pool.pools b.event_pool.manager.head b.event_pool.manager.tail
        pool sizeof_event event_pool_length z in
    let there' : (base == null) ≡ false = ground arith in
    let head' : (free_ev_head == null) ≡ false = ground arith in
    let t = record s {
      base = record {
        address = base;
        timers = record {
          heap = constructor b.timers.heap.p;
          events = update (events_of s) free_ev_head first;
        };
        event_pool = p;
        free_ev_head = free_ev_head;
        calls = [];
      };
      head = null;
    } in
    (
      t,
      rw (there', head', made) refl,
      record {
        free = ap (λ (e : Event). e.next) (update_self (events_of s) free_ev_head first);
        filled = filled;
        timers = refl;
        apart = apart;
      },
      refl,
      refl,
    )

-- The event that lt_io_add makes of an old one.
abbrev pub watched : Base → Event → (fd : ℤ) (flag_set : ℕ) (callback arg : Ptr) → Event
watched b e fd flag_set callback arg = record e {
  callback = callback;
  arg = arg;
  flag = flag_set;
  fd = fd;
  min_heap_idx = negsuc 0;
  deleted = false;
  next_active_ev = null;
  base = b.address;
}

-- Two writes to one event, the second one from what the first one has left.
update-update :
    (events : Events) (ev : Ptr) (x : Event) (f : Event → Event)
    → update (update events ev x) ev (f (update events ev x ev)) ≡ update events ev (f x)
unfolding update
update-update events ev x f i p =
    (elim (Bool-cases (ev == p))
        as (λ c.
          update (update events ev x) ev (f (update events ev x ev)) p ≡ update events ev (f x) p) [
            | inl same ↦ rw same (ap f (update_self events ev x))
            | inr other ↦ rw other refl
          ])
      i

-- A set of flags, with LV_FDRD, LV_FDWR and LV_CONN or not, and the flags from 8 on.
abbrev pub flags : (fdrd fdwr conn : Bool) → (others : ℕ) → ℕ
flags fdrd fdwr conn others =
    (if fdrd then 1 else 0) + (if fdwr then 2 else 0) + (if conn then 4 else 0) + 8 * others

interest-flags :
    (fdrd fdwr conn : Bool) (others : ℕ)
    → interest (flags fdrd fdwr conn others)
      ≡ record { readable = fdrd; writable = fdwr; edge = conn }
unfolding interest
interest-flags fdrd fdwr conn others =
    let r : has_flag (flags fdrd fdwr conn others) 1 ≡ fdrd = ground arith in
    let w : has_flag (flags fdrd fdwr conn others) 2 ≡ fdwr = ground arith in
    let c : has_flag (flags fdrd fdwr conn others) 4 ≡ conn = ground arith in rw (r, w, c) refl

-- lt_io_add with NO_TIMEOUT on a base as lt_base_init and such calls leave it, with `k` events of the first pool
-- handed out, below the length of the pool: it returns the next one, which lies inside the pool's
-- block, with the callback, its argument, the flags and the descriptor set, not deleted, not in the
-- heap and on no list; the last call of epoll_ctl asks for EPOLLIN with LV_FDRD, for EPOLLOUT with LV_FDWR
-- and for EPOLLET with LV_CONN, and carries that event; the other events stay as they are, and so does
-- the base but for its pool.
pub io_add-IsServing :
    (realloc : Realloc) (now : Time) (fresh pool : Ptr) (k : ℕ) (b : Base) (fd : ℤ)
    (fdrd fdwr conn : Bool) (others : ℕ) (callback arg : Ptr)
    → IsSized pool sizeof_event event_pool_length
    → IsServing b pool k
    → k < event_pool_length
    → (c : Base) × (io_add realloc now fresh b fd
          (flags fdrd fdwr conn others)
          callback
          arg
          (negsuc 0)
        ≡ ok (c, element pool k))
      × IsServing c pool (k + 1)
      × (c ≡ record b {
        event_pool = c.event_pool;
        timers = record (b.timers) {
          events = update b.timers.events (element pool k) (
              watched b
                (b.timers.events (element pool k))
                fd
                (flags fdrd fdwr conn others)
                callback
                arg);
        };
        calls =
            ctl_add fd (record { readable = fdrd; writable = fdwr; edge = conn }) (element pool k)
            ∷ b.calls;
      })
      × (element pool k + sizeof_event ≤ pool + sizeof_manager + event_pool_length * sizeof_event)
unfolding io_add new_event ev_init set_timer store
io_add-IsServing realloc now fresh pool k b fd fdrd fdwr conn others callback arg z v small =
    let flag_set = flags fdrd fdwr conn others in
    let (p, served, filled, inside) =
      alloc-IsFilled fresh pool sizeof_event event_pool_length k b.event_pool z v.filled small in
    let none_free : ((b.timers.events b.free_ev_head).next == null) ≡ true =
      ground (arith, v.free) in
    let ev = element pool k in
    let new = watched b (b.timers.events ev) fd flag_set callback arg in
    let c = record b {
      event_pool = p;
      timers = record (b.timers) { events = update b.timers.events ev new };
      calls = ctl_add fd (record { readable = fdrd; writable = fdwr; edge = conn }) ev ∷ b.calls;
    } in
    let first = ev_init (b.timers.events ev) flag_set fd callback arg false in
    let unset : Event → Event = λ e. record e { min_heap_idx = negsuc 0 } in
    let based : Event → Event = λ e. record e { base = b.address } in
    let writes =
      ap (λ (events : Events). update events ev (based (events ev)))
        (update-update b.timers.events ev first unset)
      ∙ update-update b.timers.events ev (unset first) based in
    let given : Base → Run (Base × Ptr) = λ d. ok (d, ev) in
    let run : io_add realloc now fresh b fd flag_set callback arg (negsuc 0) ≡ ok (c, ev) =
      rw (none_free, served, interest-flags fdrd fdwr conn others)
        (ap
          (λ (events : Events). given (record c { timers = record (b.timers) { events = events } }))
          writes) in
    (
      c,
      run,
      record {
        free =
            ap (λ (e : Event). e.next)
              (update_ne b.timers.events ev b.free_ev_head new (v.apart k small))
            ∙ v.free;
        filled = filled;
        timers = v.timers;
        apart = v.apart;
      },
      refl,
      inside,
    )
