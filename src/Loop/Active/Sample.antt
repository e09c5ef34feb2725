-- ===== src/Loop/Active/Sample.antt =====
-- A concrete base whose callbacks note the event that they are called for.
use leactor.Prelude.{
  ℕ, ◌+◌, ◌%◌, pos, negsuc, Ptr, null, none, List, [], ◌∷◌, ◌++◌, ◌==◌, if◌then◌else◌, ok,
}
use leactor.Time.{Time}
use leactor.Event.{Event}
use leactor.Loop.Active.{State, Callbacks}

abbrev pub at_second : ℕ → Time
at_second n = record { tv_sec = n; tv_nsec = 0 }

-- The odd events have LV_LAG, and 3 is deleted.
abbrev pub event : ℕ → Event
event n = record {
  callback = n + 10;
  arg = 0;
  flag = if n % 2 == 0 then 5 else 13;
  fd = pos n;
  min_heap_idx = negsuc 0;
  endtime = at_second 5;
  deleted = n == 3;
  next_active_ev = 0;
  next = 0;
  prev = 0;
  base = 0;
}

abbrev pub sample : State (List Ptr)
sample = record {
  base = record {
    address = 50;
    timers = record { heap = record { p = λ i. 0; n = 0; a = 0 }; events = event };
    event_pool = record {
      manager = record { cur = 0; one_element_size = 8; element_count = 4; head = 0; tail = 0 };
      pools = λ x. none;
    };
    free_ev_head = 9;
    calls = [];
  };
  head = null;
  tail = null;
  world = [];
}

abbrev pub note : (callback ev arg : Ptr) → List Ptr → List Ptr
note callback ev arg w = w ++ ev ∷ []

abbrev pub notes : Callbacks (List Ptr)
notes = record {
  call = λ callback ev arg s. ok (record s { world = note callback ev arg s.world });
}
