-- ===== src/Loop/Init/Tests.antt =====
-- The theorems on a new base at concrete addresses.
use leactor.Prelude.{
  ◌+◌, ◌≤◌, ◌≡◌, refl, ◌==◌, if◌then◌else◌, pos, negsuc, Ptr, null, arith, none, some, List, [],
  ◌∷◌, update, ok, true, false,
}
use leactor.Heap.{Realloc}
use leactor.Pool.{sizeof_manager}
use leactor.Pool.Bounds.{IsSized, filled_pool}
use leactor.Loop.{Base, ctl_add, io_add}
use leactor.Loop.Active.{State}
use leactor.Loop.Active.Sample.{at_second, event, sample}
use leactor.Loop.Init.{sizeof_event, event_pool_length, base_init}
use leactor.Loop.Init.Laws.{element, IsServing, watched, base_init-IsServing, io_add-IsServing}

sized : IsSized 4096 sizeof_event event_pool_length
sized = record {
  not_null = omega arith;
  start_aligned = refl;
  size_aligned = refl;
  no_wrap = omega arith;
}

base_init-IsServing_example :
    (t : State (List Ptr)) × (base_init 50 (pos 4) 9 4096 sample ≡ ok (some t))
    × IsServing t.base 4096 0
    × (t.head ≡ null)
    × (t.base.calls ≡ [])
base_init-IsServing_example =
    base_init-IsServing 50 4 9 4096 sample (omega arith) (omega arith) sized (λ i lt. omega arith)

-- Two events of the pool are handed out.
abbrev serving : Base
serving = record {
  address = 50;
  timers = record { heap = record { p = λ i. 0; n = 0; a = 0 }; events = event };
  event_pool = record {
    manager = record {
      cur = 4096;
      one_element_size = sizeof_event;
      element_count = event_pool_length;
      head = 4096;
      tail = 4096;
    };
    pools =
        λ x. if x == 4096 then some (filled_pool 4096 sizeof_event event_pool_length 2) else none;
  };
  free_ev_head = 9;
  calls = [];
}

serving-IsServing : IsServing serving 4096 2
serving-IsServing = record {
  free = refl;
  filled = record { tail = refl; element_size = refl; element_count = refl; pool = refl };
  timers = refl;
  apart = λ i lt. omega arith;
}

abbrev same_block : Realloc
same_block p a size = some p

io_add-IsServing_example :
    (c : Base) × (io_add same_block (at_second 7) 0 serving (pos 6) 5 11 12 (negsuc 0)
      ≡ ok (c, element 4096 2))
    × IsServing c 4096 3
    × (c ≡ record serving {
      event_pool = c.event_pool;
      timers = record (serving.timers) {
        events =
            update event
              (element 4096 2)
              (watched serving (event (element 4096 2)) (pos 6) 5 11 12);
      };
      calls =
          ctl_add
            (pos 6)
            (record { readable = true; writable = false; edge = true })
            (element 4096 2)
          ∷ [];
    })
    × (element 4096 2 + sizeof_event ≤ 4096 + sizeof_manager + 5632)
io_add-IsServing_example =
    io_add-IsServing same_block (at_second 7) 0 4096 2 serving (pos 6) true false true 0 11 12 sized
      serving-IsServing (omega arith)
