-- ===== src/Loop/Active/Serving.antt =====
-- Serving the list of active events: what each event's turn does.
use leactor.Prelude.{
  ℕ, zero, suc, ◌<◌, ◌≡◌, ◌≢◌, refl, ap, ◌∙◌, inl, inr, Ptr, null, Bool, true, false, ◌==◌, ◌||◌,
  Bool-cases, if◌then◌else◌, List, [], ◌∷◌, length, update, update_ne, ok, arith, first_or, NotIn,
  Distinct, Behind,
}
use leactor.Time.{Time, check_timeout}
use leactor.Event.{Event, Events}
use leactor.Loop.{store}
use leactor.Loop.Active.{State, events_of, Callbacks, one_shot, store_event, process, process_list}
use leactor.Loop.Active.Walk.{next_of, Relinked, run, LeavesLoop}

-- The events of the list whose callbacks are called: no end time ahead, and not deleted.
abbrev idle : Time → Event → Bool
idle nowtime e = check_timeout e.endtime nowtime || e.deleted

abbrev pub runnable : Events → Time → List Ptr → List Ptr
runnable events nowtime [] = []
runnable events nowtime (p ∷ ps) =
    if idle nowtime (events p) then runnable events nowtime ps else p ∷ runnable events nowtime ps

-- What serving an event keeps of all of them.
abbrev pub SameLink : Event → Event → Type 0
SameLink e f = (f.next_active_ev ≡ e.next_active_ev) × (f.flag ≡ e.flag)

SameLink-update :
    (events : Events) (p : Ptr) (e : Event)
    → SameLink (events p) e
    → (q : Ptr) → SameLink (events q) (update events p e q)
unfolding update
SameLink-update events p e h q = elim (Bool-cases (p == q)) [
  | inl same ↦ (let at : p ≡ q = ground arith in rw same (rw at at h))
  | inr other ↦ rw other (refl, refl)
]

pub SameLink-trans : (e f g : Event) → SameLink e f → SameLink f g → SameLink e g
SameLink-trans e f g h k = (k.0 ∙ h.0, k.1 ∙ h.1)

-- The list from its head on.
abbrev pub Chain : Events → List Ptr → Type 0
Chain events [] = Unit
Chain events (p ∷ ps) = (p ≢ null) × Behind (next_of events) p ps

-- These events are the same but for their links.
abbrev pub AllKept : Events → Events → List Ptr → Type 0
AllKept before events [] = Unit
AllKept before events (p ∷ ps) =
    ((n : Ptr) × (events p ≡ record (before p) { next_active_ev = n })) × AllKept before events ps

pub Relinked-AllKept :
    (before events : Events) (ps : List Ptr) → Relinked before events → AllKept before events ps
Relinked-AllKept before events [] h = tt
Relinked-AllKept before events (p ∷ ps) h = (h p, Relinked-AllKept before events ps h)

-- What is known of events stays known where they are not changed.
AllKept-others :
    (before events other : Events) (x : Ptr) (ps : List Ptr)
    → ((p : Ptr) → x ≢ p → other p ≡ events p)
    → NotIn x ps
    → AllKept before events ps
    → AllKept before other ps
AllKept-others before events other x [] same away h = tt
AllKept-others before events other x (p ∷ ps) same away h =
    ((h.0.0, same p away.0 ∙ h.0.1), AllKept-others before events other x ps same away.1 h.1)

Behind-others :
    (events other : Events) (x y : Ptr) (ys : List Ptr)
    → ((p : Ptr) → x ≢ p → other p ≡ events p)
    → NotIn x (y ∷ ys)
    → Behind (next_of events) y ys
    → Behind (next_of other) y ys
Behind-others events other x y [] same away h =
    ap (λ (e : Event). e.next_active_ev) (same y away.0) ∙ h
Behind-others events other x y (z ∷ zs) same away h = (
  ap (λ (e : Event). e.next_active_ev) (same y away.0) ∙ h.0,
  h.1,
  Behind-others events other x z zs same away.1 h.2,
)

module _ {W : Type 0} ⦃c : Callbacks W⦄ (effect : (callback ev arg : Ptr) → W → W)
    (leaves : LeavesLoop effect) where
  -- One event of the list.
  pub record IsServed (before : Events) (event : Ptr) (s t : State W) (called : List Ptr)
      : Type 0 where
    pub world : t.world ≡ run effect before called s.world
    pub kept : (p : Ptr) → SameLink (events_of s p) (events_of t p)
    pub others : (p : Ptr) → event ≢ p → events_of t p ≡ events_of s p

  stored-IsServed :
      (before : Events) (event : Ptr) (s : State W) (e : Event) (w : W) (called : List Ptr)
      → SameLink (events_of s event) e
      → w ≡ run effect before called s.world
      → IsServed before event s (record (store_event s event e) { world = w }) called
  unfolding store
  stored-IsServed before event s e w called same done = record {
    world = done;
    kept = SameLink-update (events_of s) event e same;
    others = λ p ne. update_ne (events_of s) event p e ne;
  }

  pub process-IsServed :
      (before : Events) (nowtime : Time) (event : Ptr) (s : State W)
      → ((n : Ptr) × (events_of s event ≡ record (before event) { next_active_ev = n }))
      → (t : State W) × (process nowtime event s ≡ ok t)
        × IsServed before event s t (runnable before nowtime (event ∷ []))
  unfolding store
  process-IsServed before nowtime event s (n, e) =
      let x = events_of s event in
      let same_end : check_timeout x.endtime nowtime
          ≡ check_timeout (before event).endtime nowtime =
        ap (λ (y : Event). check_timeout y.endtime nowtime) e in
      let same_deleted : x.deleted ≡ (before event).deleted = ap (λ (y : Event). y.deleted) e in
      elim (Bool-cases (check_timeout (before event).endtime nowtime)) [
        | inl ahead ↦ (
          store_event s event (record x { deleted = true }),
          rw (same_end, ahead) refl,
          rw ahead (
              stored-IsServed before event s (record x { deleted = true }) s.world [] (refl, refl)
                refl),
        )
        | inr past ↦ elim (Bool-cases (before event).deleted) [
          | inl gone ↦ (
            s,
            rw (same_end, past, same_deleted, gone) refl,
            rw (past, gone)
                (record { world = refl; kept = λ p. (refl, refl); others = λ p ne. refl }),
          )
          | inr there ↦
              (let w = effect x.callback event x.arg s.world in
                (
                  record (store_event s event (record x { deleted = one_shot x })) { world = w },
                  rw (same_end, past, same_deleted, there, leaves x.callback event x.arg s) refl,
                  rw (past, there)
                      (stored-IsServed before event s (record x { deleted = one_shot x }) w
                        (event ∷ []) (refl, refl)
                        (ap (λ (y : Event). effect y.callback event y.arg s.world) e)),
                ))
        ]
      ]

  run-runnable :
      (before : Events) (nowtime : Time) (p : Ptr) (ps : List Ptr) (w : W)
      → run effect before
          (runnable before nowtime ps)
          (run effect before (runnable before nowtime (p ∷ [])) w)
        ≡ run effect before (runnable before nowtime (p ∷ ps)) w
  run-runnable before nowtime p ps w = elim (Bool-cases (idle nowtime (before p))) [
    | inl rests ↦ rw rests refl
    | inr runs ↦ rw runs refl
  ]

  abbrev Serves : (before : Events) → (nowtime : Time) → (fuel : ℕ) → State W → List Ptr → Type 0
  Serves before nowtime fuel s ps =
      (t : State W) × (process_list fuel nowtime (first_or null ps) s ≡ ok t)
      × (t.world ≡ run effect before (runnable before nowtime ps) s.world)
      × (t.head ≡ null)
      × (t.tail ≡ null)
      × ((p : Ptr) → SameLink (events_of s p) (events_of t p))

  pub process_list-Serves :
      (before : Events) (nowtime : Time) (fuel : ℕ) (ps : List Ptr) (s : State W)
      → length ps < fuel
      → Chain (events_of s) ps
      → AllKept before (events_of s) ps
      → Distinct ps
      → Serves before nowtime fuel s ps
  unfolding process_list
  process_list-Serves before nowtime zero ps s enough chain kept apart = absurd (omega arith)
  process_list-Serves before nowtime (suc fuel) [] s enough chain kept apart =
      (record s { head = null; tail = null }, refl, refl, refl, refl, λ p. (refl, refl))
  process_list-Serves before nowtime (suc fuel) (p ∷ []) s enough chain kept apart =
      let (t, done, v) = process-IsServed before nowtime p s kept.0 in
      let there : (p == null) ≡ false = let ne = chain.0 in ground arith in
      let (u, rest, world, head, tail, kept') =
        process_list-Serves before nowtime fuel [] t (omega (arith, enough)) tt tt tt in
      (
        u,
        rw (there, done, (v.kept p).0, chain.1) rest,
        world ∙ v.world,
        head,
        tail,
        λ x. SameLink-trans (events_of s x) (events_of t x) (events_of u x) (v.kept x) (kept' x),
      )
  process_list-Serves before nowtime (suc fuel) (p ∷ q ∷ qs) s enough chain kept apart =
      let (t, done, v) = process-IsServed before nowtime p s kept.0 in
      let there : (p == null) ≡ false = let ne = chain.0 in ground arith in
      let (u, rest, world, head, tail, kept') =
        process_list-Serves before nowtime fuel (q ∷ qs) t (omega (arith, enough))
          (chain.1.1, Behind-others (events_of s) (events_of t) p q qs v.others apart.0 chain.1.2)
          (AllKept-others before (events_of s) (events_of t) p (q ∷ qs) v.others apart.0 kept.1)
          apart.1 in
      (
        u,
        rw (there, done, (v.kept p).0, chain.1.0) rest,
        world
            ∙ ap (λ (w : W). run effect before (runnable before nowtime (q ∷ qs)) w) v.world
            ∙ run-runnable before nowtime p (q ∷ qs) s.world,
        head,
        tail,
        λ x. SameLink-trans (events_of s x) (events_of t x) (events_of u x) (v.kept x) (kept' x),
      )
