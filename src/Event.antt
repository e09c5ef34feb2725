-- ===== src/Event.antt =====
-- `struct event` of event_lea.h. Function pointers, the opaque argument and the links are addresses.
use leactor.Prelude.{ℕ, ℤ, Ptr, Bool}
use leactor.Time.{Time}

pub record Event : Type 0 where
  pub callback : Ptr
  pub arg : Ptr
  pub flag : ℕ
  pub fd : ℤ
  pub min_heap_idx : ℤ
  pub endtime : Time
  pub deleted : Bool
  pub next_active_ev : Ptr
  pub next : Ptr
  pub prev : Ptr
  pub base : Ptr

-- The events in memory, by address.
abbrev pub Events : Type 0
Events = Ptr → Event
