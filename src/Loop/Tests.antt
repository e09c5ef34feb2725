-- ===== src/Loop/Tests.antt =====
-- The theorems on the loop's events at concrete bases.
use leactor.Prelude.{
  ℕ, ◌+◌, ◌≡◌, ◌⊎◌, refl, inl, inr, ℤ, pos, negsuc, arith, true, false, none, some, ok, undefined,
  ◌==◌, if◌then◌else◌, [],
}
use leactor.Time.{Time, nanoseconds}
use leactor.Event.{Event}
use leactor.Heap.{Realloc}
use leactor.Heap.Sift.{IsIndexed, In}
use leactor.Heap.Push.{IsAdded}
use leactor.Heap.Remove.{cleared}
use leactor.Loop.{Base, del_event, new_event, timeout_add, io_mod, io_remove, interest}
use leactor.Loop.FreeList.{del_event-new_event}
use leactor.Loop.Timers.{IsForgotten, io_remove-IsForgotten, timeout_add-IsAdded, io_mod-stale}

abbrev at_second : ℕ → Time
at_second n = record { tv_sec = n; tv_nsec = 0 }

abbrev event : ℕ → ℤ → Event
event n i = record {
  callback = 0;
  arg = 0;
  flag = 0;
  fd = pos n;
  min_heap_idx = i;
  endtime = at_second 5;
  deleted = false;
  next_active_ev = 0;
  next = 0;
  prev = 0;
  base = 0;
}

-- Events 1 and 2 in the slots 0 and 1, and others outside; the free list with its head 9 is empty.
abbrev sample : Base
sample = record {
  address = 50;
  timers = record {
    heap = record { p = λ i. i + 1; n = 2; a = 8 };
    events = λ x.
        if x == 1 then event 1 (pos 0) else if x == 2 then event 2 (pos 1) else event x (negsuc 0);
  };
  event_pool = record {
    manager = record { cur = 0; one_element_size = 8; element_count = 4; head = 0; tail = 0 };
    pools = λ x. none;
  };
  free_ev_head = 9;
  calls = [];
}

sample-IsIndexed : IsIndexed sample.timers
sample-IsIndexed = record { at = λ i q. ground arith; room = omega arith }

three_new : ¬ In 3 sample.timers
three_new (i, q, e) = omega arith

abbrev same_block : Realloc
same_block p a size = some p

io_remove-IsForgotten_example : (c : Base) × (io_remove sample 1 ≡ some c) × IsForgotten sample 1 c
io_remove-IsForgotten_example =
    io_remove-IsForgotten sample 1 sample-IsIndexed (inr (0, omega arith, refl, inl (omega arith)))

timeout_add-IsAdded_example :
    (c : Base) × (endtime : Time) × (timeout_add same_block (at_second 7) sample 3 500
      ≡ ok (c, endtime))
    × (IsAdded (cleared sample.timers 3) 3 c.timers
        ⊎ ((c.timers ≡ cleared sample.timers 3) × (sample.timers.heap.n ≡ sample.timers.heap.a)))
    × (nanoseconds endtime ≡ nanoseconds (at_second 7) + 500)
timeout_add-IsAdded_example =
    timeout_add-IsAdded same_block (at_second 7) sample 3 500
      (λ p q a size i e lt lt'. ground arith) (omega arith) sample-IsIndexed three_new (omega arith)
      (omega arith)

io_mod-stale_example :
    (d c : Base) × (io_mod same_block (at_second 7) sample 1 3 0 0 (negsuc 0) ≡ ok d)
    × (io_remove d 1 ≡ some c)
    × In 1 c.timers
io_mod-stale_example =
    io_mod-stale same_block (at_second 7) sample 1 3 0 0 0 (omega arith) (0, omega arith, refl)

del_event-new_event_example : (c : Base) × (del_event sample 3 ≡ ok c) × (new_event 0 c ≡ undefined)
del_event-new_event_example =
    del_event-new_event 0 sample 3 (omega arith) (omega arith) (omega arith) refl refl

-- The interest of LV_FDRD | LV_CONN.
interest_run : interest 5 ≡ record { readable = true; writable = false; edge = true }
unfolding interest
interest_run = refl
