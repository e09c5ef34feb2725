-- ===== src/Loop/Active/Stale.antt =====
-- The links of the list of active events outlast the round.
use leactor.Prelude.{
  ℕ, zero, suc, ◌≡◌, ◌≢◌, refl, sym, ap, ◌∙◌, Ptr, null, true, false, ◌==◌, [], ◌∷◌, update_self,
  update_ne, ok, out_of_fuel, arith,
}
use leactor.Time.{Time}
use leactor.Event.{Event}
use leactor.Loop.{has_flag, store}
use leactor.Loop.Active.{
  State, events_of, Callbacks, Ready, lags, store_event, link_rest, init_actlist, process_list,
  process_and_moveout, dispatch,
}
use leactor.Loop.Active.Walk.{next_of, lagging, LeavesLoop}
use leactor.Loop.Active.Serving.{process-IsServed}
use leactor.Loop.Active.Order.{dispatch-links}

abbrev pub ready : Ptr → Ready
ready p = record { ev = p; io = true }

module _ {W : Type 0} ⦃c : Callbacks W⦄ (effect : (callback ev arg : Ptr) → W → W)
    (leaves : LeavesLoop effect) where
  spin :
      (nowtime : Time) (fuel : ℕ) (x y : Ptr) (s : State W)
      → x ≢ null
      → y ≢ null
      → next_of (events_of s) x ≡ y
      → next_of (events_of s) y ≡ x
      → process_list fuel nowtime x s ≡ out_of_fuel
  unfolding process_list
  spin nowtime zero x y s some_x some_y to_y to_x = refl
  spin nowtime (suc fuel) x y s some_x some_y to_y to_x =
      let (t, done, v) =
        process-IsServed effect leaves (events_of s) nowtime x s (next_of (events_of s) x, refl) in
      let there : (x == null) ≡ false = ground arith in
      rw (there, done, (v.kept x).0, to_y)
        (spin nowtime fuel y x t some_y some_x ((v.kept y).0 ∙ to_x) ((v.kept x).0 ∙ to_y))

  -- The second round, for the events in the other order.
  second_round :
      (later : Time) (p q : Ptr) (t : State W)
      → p ≢ null
      → q ≢ null
      → p ≢ q
      → lags (events_of t p) ≡ true
      → lags (events_of t q) ≡ true
      → next_of (events_of t) p ≡ q
      → (u : State W) × (init_actlist (ready q ∷ ready p ∷ []) t ≡ ok u)
        × ((fuel : ℕ) → process_and_moveout fuel later u ≡ out_of_fuel)
  unfolding init_actlist link_rest process_and_moveout store
  second_round later p q t some_p some_q ne lag_p lag_q link_p =
      let e = record (events_of t q) { next_active_ev = p } in
      let linked = store_event (record t { head = q; tail = q }) q e in
      let u = record linked { tail = p } in
      (
        u,
        rw (lag_q, lag_p) refl,
        λ fuel.
            spin later fuel q p u some_q some_p
              (ap (λ (x : Event). x.next_active_ev) (update_self (events_of t) q e))
              (ap (λ (x : Event). x.next_active_ev)
                  (update_ne (events_of t) q p e (λ z. ne (sym z)))
                ∙ link_p),
      )

  -- Two events with LV_LAG that are ready together, then once more in the other order, for callbacks that work on
  -- the rest of the program only: the first round ends, and lt_ev_process_and_moveout in the second one
  -- does not, whatever the times are. The links of the first round are not cleared, so the
  -- list of the second one is a cycle.
  pub dispatch-out_of_fuel :
      (nowtime later : Time) (p q : Ptr) (s : State W)
      → p ≢ null
      → q ≢ null
      → p ≢ q
      → lags (events_of s p) ≡ true
      → lags (events_of s q) ≡ true
      → next_of (events_of s) p ≡ null
      → next_of (events_of s) q ≡ null
      → s.head ≡ null
      → (t u : State W) × (dispatch (ready p ∷ ready q ∷ []) nowtime s ≡ ok t)
        × (init_actlist (ready q ∷ ready p ∷ []) t ≡ ok u)
        × ((fuel : ℕ) → process_and_moveout fuel later u ≡ out_of_fuel)
  dispatch-out_of_fuel nowtime later p q s some_p some_q ne lag_p lag_q unlinked_p unlinked_q
        empty =
      let both : lagging (events_of s) (ready p ∷ ready q ∷ []) ≡ p ∷ q ∷ [] =
        rw (lag_p, lag_q) refl in
      let (m, t, done, v, world, head, tail, kept) =
        dispatch-links effect leaves nowtime (ready p ∷ ready q ∷ []) s (refl, (refl, tt)) empty
          (rw both (some_p, unlinked_p, (some_q, unlinked_q, tt))) (rw both ((ne, tt), (tt, tt))) in
      let chain = rw both at v.chain in
      let link_p : next_of (events_of t) p ≡ q = (kept p).0 ∙ chain.1.0 in
      let flag : (x : Ptr) → lags (events_of t x) ≡ lags (events_of s x) = λ x.
        ap (λ (n : ℕ). has_flag n 8) ((kept x).1 ∙ ap (λ (e : Event). e.flag) (v.relinked x).1) in
      let (u, started, endless) =
        second_round later p q t some_p some_q ne (flag p ∙ lag_p) (flag q ∙ lag_q) link_p in
      (t, u, done, started, endless)
