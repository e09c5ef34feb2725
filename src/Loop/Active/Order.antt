-- ===== src/Loop/Active/Order.antt =====
-- One round of the loop after epoll_wait: the list of active events as it is built, and as it is left.
use leactor.Prelude.{
  suc, ◌≤◌, ◌≡◌, refl, inl, inr, Ptr, null, Bool-cases, List, [], ◌∷◌, length, ok, arith, first_or,
  Distinct,
}
use leactor.Time.{Time}
use leactor.Event.{Events}
use leactor.Loop.Active.{
  State, events_of, Callbacks, Ready, lags, init_actlist, process_and_moveout, dispatch,
}
use leactor.Loop.Active.Walk.{
  direct, lagging, AllIo, AllUnlinked, Relinked, run, LeavesLoop, link_rest-IsLinked,
}
use leactor.Loop.Active.Serving.{runnable, SameLink, Chain, Relinked-AllKept, process_list-Serves}

length-lagging : (events : Events) (rs : List Ready) → length (lagging events rs) ≤ length rs
length-lagging events [] = omega arith
length-lagging events (r ∷ rs) = ground (arith, length-lagging events rs)

module _ {W : Type 0} ⦃c : Callbacks W⦄ (effect : (callback ev arg : Ptr) → W → W)
    (leaves : LeavesLoop effect) where
  pub record IsStarted (before : Events) (s t : State W) (called linked : List Ptr) : Type 0 where
    pub world : t.world ≡ run effect before called s.world
    pub head : t.head ≡ first_or null linked
    pub chain : Chain (events_of t) linked
    pub relinked : Relinked before (events_of t)

  pub init_actlist-IsStarted :
      (rs : List Ready) (s : State W)
      → AllIo rs
      → s.head ≡ null
      → AllUnlinked (events_of s) (lagging (events_of s) rs)
      → Distinct (lagging (events_of s) rs)
      → (t : State W) × (init_actlist rs s ≡ ok t)
        × IsStarted (events_of s) s t (direct (events_of s) rs) (lagging (events_of s) rs)
  unfolding init_actlist
  init_actlist-IsStarted [] s io empty unlinked apart = (
    record s { tail = s.head },
    refl,
    record {
      world = refl;
      head = empty;
      chain = tt;
      relinked = λ p. ((events_of s p).next_active_ev, refl);
    },
  )
  init_actlist-IsStarted (r ∷ rs) s io empty unlinked apart =
      elim (Bool-cases (lags (events_of s r.ev))) [
        | inl lag ↦
            (let u = rw lag at unlinked in
              let a = rw lag at apart in
              let (t, done, v) =
                link_rest-IsLinked effect leaves (events_of s) rs r.ev
                  (record s { head = r.ev; tail = r.ev }) io.1
                  (λ p. ((events_of s p).next_active_ev, refl)) u.1 u.2 a in
              (
                t,
                rw (lag, io.0) done,
                rw lag (record {
                  world = v.world;
                  head = v.head;
                  chain = (u.0, v.chain);
                  relinked = v.relinked;
                }),
              ))
        | inr now ↦
            (let e = events_of s r.ev in
              let (t, done, v) =
                init_actlist-IsStarted rs
                  (record s { world = effect e.callback r.ev e.arg s.world }) io.1 empty
                  (rw now at unlinked) (rw now at apart) in
              (
                t,
                rw (now, io.0, leaves e.callback r.ev e.arg s) done,
                rw now (record {
                  world = v.world;
                  head = v.head;
                  chain = v.chain;
                  relinked = v.relinked;
                }),
              ))
      ]

  -- One round, with the list as it was built.
  pub dispatch-links :
      (nowtime : Time) (rs : List Ready) (s : State W)
      → AllIo rs
      → s.head ≡ null
      → AllUnlinked (events_of s) (lagging (events_of s) rs)
      → Distinct (lagging (events_of s) rs)
      → (t u : State W) × (dispatch rs nowtime s ≡ ok u)
        × IsStarted (events_of s) s t (direct (events_of s) rs) (lagging (events_of s) rs)
        × (u.world
            ≡ run effect
                (events_of s)
                (runnable (events_of s) nowtime (lagging (events_of s) rs))
                t.world)
        × (u.head ≡ null)
        × (u.tail ≡ null)
        × ((p : Ptr) → SameLink (events_of t p) (events_of u p))
  unfolding dispatch process_and_moveout
  dispatch-links nowtime rs s io empty unlinked apart =
      let before = events_of s in
      let (t, done, v) = init_actlist-IsStarted rs s io empty unlinked apart in
      let (u, rest, world, head, tail, kept) =
        process_list-Serves effect leaves before nowtime (suc (length rs)) (lagging before rs) t
          (omega (arith, length-lagging before rs)) v.chain
          (Relinked-AllKept before (events_of t) (lagging before rs) v.relinked) apart in
      (t, u, rw (done, v.head) rest, v, world, head, tail, kept)
