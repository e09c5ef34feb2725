-- ===== src/Loop/Active/Walk.antt =====
-- The list of active events as it is built and as it is served, for callbacks that leave the loop alone.
use leactor.Prelude.{
  ◌≡◌, ◌≢◌, refl, sym, ap, ◌∙◌, inl, inr, Ptr, null, true, ◌==◌, Bool-cases, if◌then◌else◌, List,
  [], ◌∷◌, update, update_self, update_ne, ok, arith, last_or, NotIn, Distinct, Behind,
}
use leactor.Event.{Event, Events}
use leactor.Loop.{store}
use leactor.Loop.Active.{State, events_of, Callbacks, Ready, lags, store_event, link_rest}

abbrev pub next_of : Events → Ptr → Ptr
next_of events p = (events p).next_active_ev

-- The ready events that are called at once, and those that are put on the list.
abbrev pub direct : Events → List Ready → List Ptr
direct events [] = []
direct events (r ∷ rs) = if lags (events r.ev) then direct events rs else r.ev ∷ direct events rs

abbrev pub lagging : Events → List Ready → List Ptr
lagging events [] = []
lagging events (r ∷ rs) = if lags (events r.ev) then r.ev ∷ lagging events rs else lagging events rs

-- Every entry has EPOLLIN or EPOLLOUT.
abbrev pub AllIo : List Ready → Type 0
AllIo [] = Unit
AllIo (r ∷ rs) = (r.io ≡ true) × AllIo rs

abbrev pub AllUnlinked : Events → List Ptr → Type 0
AllUnlinked events [] = Unit
AllUnlinked events (p ∷ ps) = (p ≢ null) × (next_of events p ≡ null) × AllUnlinked events ps

-- The events are the same but for their links on the list.
abbrev pub Relinked : Events → Events → Type 0
Relinked events after = (p : Ptr) → (n : Ptr) × (after p ≡ record (events p) { next_active_ev = n })

module _ {W : Type 0} (effect : (callback ev arg : Ptr) → W → W) where
  -- The effects of the callbacks of these events, one after the other.
  abbrev pub run : Events → List Ptr → W → W
  run events [] w = w
  run events (p ∷ ps) w = run events ps (effect (events p).callback p (events p).arg w)

  -- The callbacks work on the rest of the program only.
  abbrev pub LeavesLoop : ⦃c : Callbacks W⦄ → Type 0
  LeavesLoop ⦃c⦄ =
      (callback ev arg : Ptr) (s : State W)
      → c.call callback ev arg s ≡ ok (record s { world = effect callback ev arg s.world })

-- A link that is set keeps the rest.
link-Relinked :
    (before events : Events) (p n : Ptr)
    → Relinked before events
    → Relinked before (update events p (record (events p) { next_active_ev = n }))
unfolding update
link-Relinked before events p n h q = elim (Bool-cases (p == q)) [
  | inl same ↦ (let at : p ≡ q = ground arith in (n, rw same (rw at (rw (h q).1 refl))))
  | inr other ↦ ((h q).0, rw other (h q).1)
]

link-AllUnlinked :
    (events : Events) (p : Ptr) (e : Event) (ps : List Ptr)
    → NotIn p ps
    → AllUnlinked events ps
    → AllUnlinked (update events p e) ps
link-AllUnlinked events p e [] away h = tt
link-AllUnlinked events p e (q ∷ qs) away h = (
  h.0,
  ap (λ (x : Event). x.next_active_ev) (update_ne events p q e away.0) ∙ h.1,
  link-AllUnlinked events p e qs away.1 h.2,
)

module _ {W : Type 0} ⦃c : Callbacks W⦄ (effect : (callback ev arg : Ptr) → W → W)
    (leaves : LeavesLoop effect) where
  -- What the second loop leaves, for the events `before` but for the links.
  pub record IsLinked (before : Events) (s t : State W) (prev : Ptr) (called linked : List Ptr)
      : Type 0 where
    pub world : t.world ≡ run effect before (called) s.world
    pub chain : Behind (next_of (events_of t)) prev linked
    pub tail : t.tail ≡ last_or prev linked
    pub head : t.head ≡ s.head
    pub relinked : Relinked before (events_of t)
    pub others : (p : Ptr) → NotIn p (prev ∷ linked) → events_of t p ≡ events_of s p

  pub link_rest-IsLinked :
      (before : Events) (rs : List Ready) (prev : Ptr) (s : State W)
      → AllIo rs
      → Relinked before (events_of s)
      → next_of (events_of s) prev ≡ null
      → AllUnlinked (events_of s) (lagging before rs)
      → Distinct (prev ∷ lagging before rs)
      → (t : State W) × (link_rest rs prev s ≡ ok t)
        × IsLinked before s t prev (direct before rs) (lagging before rs)
  unfolding link_rest store
  link_rest-IsLinked before [] prev s io rel last unlinked apart = (
    record s { tail = prev },
    refl,
    record {
      world = refl;
      chain = last;
      tail = refl;
      head = refl;
      relinked = rel;
      others = λ p away. refl;
    },
  )
  link_rest-IsLinked before (r ∷ rs) prev s io rel last unlinked apart =
      let lag' = ap (λ (e : Event). lags e) (rel r.ev).1 in
      elim (Bool-cases (lags (before r.ev))) [
        | inl lag ↦
            (let u = rw lag at unlinked in
              let a = rw lag at apart in
              let s' = store_event s prev (record (events_of s prev) { next_active_ev = r.ev }) in
              let at_prev =
                update_self (events_of s) prev
                  (record (events_of s prev) { next_active_ev = r.ev }) in
              let ne : prev ≢ r.ev = a.0.0 in
              let (t, done, v) =
                link_rest-IsLinked before rs r.ev s' io.1
                  (link-Relinked before (events_of s) prev r.ev rel)
                  (ap (λ (x : Event). x.next_active_ev) (update_ne (events_of s) prev r.ev _ ne)
                    ∙ u.1)
                  (link-AllUnlinked (events_of s) prev _ (lagging before rs) a.0.1 u.2) a.1 in
              (
                t,
                rw (lag', lag, io.0) done,
                rw lag (record {
                  world = v.world;
                  chain = (
                    ap (λ (x : Event). x.next_active_ev) (v.others prev (ne, a.0.1) ∙ at_prev),
                    u.0,
                    v.chain,
                  );
                  tail = v.tail;
                  head = v.head;
                  relinked = v.relinked;
                  others = λ p away.
                      v.others p away.1 ∙ update_ne (events_of s) prev p _ (λ e. away.0 (sym e));
                }),
              ))
        | inr now ↦
            (let u = rw now at unlinked in
              let a = rw now at apart in
              let e = events_of s r.ev in
              let s' = record s { world = effect e.callback r.ev e.arg s.world } in
              let (t, done, v) = link_rest-IsLinked before rs prev s' io.1 rel last u a in
              let same_call : effect e.callback r.ev e.arg
                  ≡ effect (before r.ev).callback r.ev (before r.ev).arg =
                ap (λ (x : Event). effect x.callback r.ev x.arg) (rel r.ev).1 in
              (
                t,
                rw (lag', now, leaves e.callback r.ev e.arg s) done,
                rw now (record {
                  world =
                      v.world
                      ∙ ap (λ (f : W → W). run effect before (direct before rs) (f s.world))
                          same_call;
                  chain = v.chain;
                  tail = v.tail;
                  head = v.head;
                  relinked = v.relinked;
                  others = v.others;
                }),
              ))
      ]
