-- ===== src/Loop/Active.antt =====
-- event_lea.c: one round of the loop after epoll_wait. lt_loop_init_actlist calls the callbacks of the ready
-- events or puts the events on the list of active ones, which lt_ev_process_and_moveout then serves.
-- The callbacks are an interface: they may change everything, the rest of the program's state
-- included.
pub mod Sample
pub mod Walk
pub mod Serving
pub mod Order
pub mod Stale
mod Tests
use leactor.Prelude.{
  ℕ, zero, suc, Ptr, null, Bool, true, false, ◌==◌, ◌&&◌, if◌then◌else◌, List, [], ◌∷◌, length, Run,
  ok, out_of_fuel, ◌>>=◌,
}
use leactor.Time.{Time, check_timeout}
use leactor.Event.{Event, Events}
use leactor.Loop.{Base, has_flag, store}

-- The base with its list of active events, and the rest of the program.
pub record State (W : Type 0) : Type 0 where
  pub base : Base
  pub head : Ptr
  pub tail : Ptr
  pub world : W

abbrev pub events_of : {W : Type 0} → State W → Events
events_of s = s.base.timers.events

-- What a call of `callback(ev, arg)` does.
pub record Callbacks (W : Type 0) : Type 0 where
  pub call : (callback ev arg : Ptr) → State W → Run (State W)

-- An entry of the array of epoll_wait: the event that it carries, and whether its bits have EPOLLIN or EPOLLOUT.
pub record Ready : Type 0 where
  pub ev : Ptr
  pub io : Bool

-- LV_LAG and LV_ONESHOT
abbrev pub lags : Event → Bool
lags e = has_flag e.flag 8

abbrev pub one_shot : Event → Bool
one_shot e = has_flag e.flag 16

abbrev pub store_event : {W : Type 0} → State W → Ptr → Event → State W
store_event s ev e = record s { base = store s.base ev e }

module _ {W : Type 0} ⦃c : Callbacks W⦄ where
  abbrev pub call_back : Ptr → State W → Run (State W)
  call_back ev s = let e = events_of s ev in c.call e.callback ev e.arg s

  -- The second loop of lt_loop_init_actlist, behind the event `ev_prev` of the list.
  pub link_rest : (ready : List Ready) → (ev_prev : Ptr) → State W → Run (State W)
  link_rest [] ev_prev s = ok (record s { tail = ev_prev })
  link_rest (r ∷ rs) ev_prev s =
      let linked =
        link_rest rs r.ev
          (store_event s ev_prev (record (events_of s ev_prev) { next_active_ev = r.ev })) in
      let called = call_back r.ev s >>= link_rest rs ev_prev in
      if lags (events_of s r.ev) && r.io then linked else called

  -- lt_loop_init_actlist, from its first loop on.
  unfoldable pub init_actlist : (ready : List Ready) → State W → Run (State W)
  unfolding link_rest
  init_actlist [] s = ok (record s { tail = s.head })
  init_actlist (r ∷ rs) s =
      let first = link_rest rs r.ev (record s { head = r.ev; tail = r.ev }) in
      let called = call_back r.ev s >>= init_actlist rs in
      if r.io then (if lags (events_of s r.ev) then first else called) else init_actlist rs s

  -- What the loop of lt_ev_process_and_moveout does with one event.
  abbrev pub process : (nowtime : Time) → Ptr → State W → Run (State W)
  process nowtime event s =
      let e = events_of s event in
      let called = call_back event s >>= λ t.
      let f = events_of t event in ok (store_event t event (record f { deleted = one_shot f })) in
      if check_timeout e.endtime nowtime
      then ok (store_event s event (record e { deleted = true }))
      else if e.deleted
      then ok s
      else called

  -- The loop of lt_ev_process_and_moveout, on `fuel` rounds.
  unfoldable pub process_list :
      (fuel : ℕ) → (nowtime : Time) → (event : Ptr) → State W → Run (State W)
  process_list zero nowtime event s = out_of_fuel
  process_list (suc fuel) nowtime event s =
      let rest = process nowtime event s >>= λ t.
      process_list fuel nowtime (events_of t event).next_active_ev t in
      if event == null then ok (record s { head = null; tail = null }) else rest

  -- lt_ev_process_and_moveout
  unfoldable pub process_and_moveout : (fuel : ℕ) → (nowtime : Time) → State W → Run (State W)
  process_and_moveout fuel nowtime s = process_list fuel nowtime s.head s

  -- What lt_base_loop does with the ready events: for `n` of them, `n` + 1 rounds are enough unless a
  -- link of an earlier round is left.
  unfoldable pub dispatch : (ready : List Ready) → (nowtime : Time) → State W → Run (State W)
  dispatch ready nowtime s =
      init_actlist ready s >>= process_and_moveout (suc (length ready)) nowtime
