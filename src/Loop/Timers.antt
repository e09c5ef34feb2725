-- ===== src/Loop/Timers.antt =====
-- The timers of the loop's events: what lt_io_mod, lt_io_remove and lt_timeout_add do to the heap.
use leactor.Prelude.{
  ℕ, ◌+◌, ◌/◌, ok, ◌<◌, ◌≡◌, ◌≢◌, ◌^◌, refl, sym, subst, ap, ◌∙◌, ◌⊎◌, inl, inr, ℤ, pos, negsuc,
  Ptr, null, true, false, some, Option, ◌∷◌, ◌==◌, if◌then◌else◌, arith, update, update_self,
  update_ne,
}
use leactor.Time.{Time, nanoseconds, second}
use leactor.Time.Laws.{time_addition-sum}
use leactor.Event.{Event}
use leactor.Heap
use leactor.Heap.{Realloc, elem_init, push, erase}
use leactor.Heap.Sift.{IsIndexed, In}
use leactor.Heap.Push.{Keeps, IsAdded, Pushed, push-Pushed}
use leactor.Heap.Remove.{IsRemoved, cleared}
use leactor.Heap.Erase.{IsErasable, erase-IsRemoved}
use leactor.Loop.{
  Base, ctl_del, ctl_mod, interest, store, timeout_add, io_mod, io_remove, forget, forgotten,
  with_timers, is_unset,
}

-- The event is not in the heap and says so, or it is in a slot from which it can be erased.
abbrev pub IsKnown : Heap.State → Ptr → Type 0
IsKnown s ev =
    ((s.events ev).min_heap_idx ≡ negsuc 0)
    ⊎ ((i : ℕ) × (i < s.heap.n) × (s.heap.p i ≡ ev) × IsErasable s i)

-- `c` is `b` after the event is removed: it is out of the heap, marked, and no longer watched.
pub record IsForgotten (b : Base) (ev : Ptr) (c : Base) : Type 0 where
  pub indexed : IsIndexed c.timers
  pub gone : ¬ In ev c.timers
  pub kept : (x : Ptr) → x ≢ ev → In x b.timers → In x c.timers
  pub only : (x : Ptr) → In x c.timers → In x b.timers
  pub deleted : (c.timers.events ev).deleted ≡ true
  pub unset : (c.timers.events ev).min_heap_idx ≡ negsuc 0
  pub others :
      (x : Ptr)
      → x ≢ ev
      → c.timers.events x
        ≡ record (b.timers.events x) { min_heap_idx = (c.timers.events x).min_heap_idx }
  pub unwatched : c.calls ≡ ctl_del (b.timers.events ev).fd ∷ b.calls

module _ (b : Base) (ev : Ptr) where
  abbrev marked : Heap.State → Event
  marked u = record (u.events ev) { deleted = true }

  -- The heap's part of the removal, `u`, is followed by the mark.
  forget-IsForgotten :
      (u : Heap.State)
      → IsIndexed u
      → ¬ In ev u
      → (u.events ev).min_heap_idx ≡ negsuc 0
      → ((x : Ptr) → x ≢ ev → In x b.timers → In x u)
      → ((x : Ptr) → In x u → In x b.timers)
      → ((x : Ptr)
          → u.events x ≡ record (b.timers.events x) { min_heap_idx = (u.events x).min_heap_idx })
      → IsForgotten b ev (forget ev (record b { timers = u }))
  unfolding forget store
  forget-IsForgotten u v gone unset kept only fields =
      let other : (x : Ptr) → x ≢ ev → update u.events ev (marked u) x ≡ u.events x =
        λ x ne. update_ne u.events ev x (marked u) (λ e. ne (sym e)) in
      let self = update_self u.events ev (marked u) in
      record {
        indexed = record {
          at = λ i q.
              ap (λ (e : Event). e.min_heap_idx) (other (u.heap.p i) (λ e. gone (i, q, e)))
              ∙ v.at i q;
          room = v.room;
        };
        gone = gone;
        kept = kept;
        only = only;
        deleted = ap (λ (e : Event). e.deleted) self;
        unset = ap (λ (e : Event). e.min_heap_idx) self ∙ unset;
        others = λ x ne. rw (other x ne) (fields x);
        unwatched = ap (λ (e : Event). ctl_del e.fd ∷ b.calls) (fields ev);
      }

  -- On a heap whose events know their slots, lt_io_remove of an event that has the index -1, or stands
  -- in a slot from which it can be erased, takes exactly that event out of the heap, marks it as
  -- deleted, has its descriptor removed from epoll, and leaves all other events as they are but
  -- for their indices.
  pub io_remove-IsForgotten :
      IsIndexed b.timers
      → IsKnown b.timers ev
      → (c : Base) × (io_remove b ev ≡ some c) × IsForgotten b ev c
  unfolding io_remove
  io_remove-IsForgotten v (inl unset) = (
    forget ev b,
    ap (λ (z : ℤ). forgotten ev (if is_unset z then some b else with_timers b (erase b.timers ev)))
        unset,
    forget-IsForgotten b.timers v
        (λ (i, q, e).
          absurd
            (ground (arith, v.at i q, unset, ap (λ (x : Ptr). (b.timers.events x).min_heap_idx) e)))
        unset (λ x ne h. h) (λ x h. h) (λ x. refl),
  )
  io_remove-IsForgotten v (inr (i, q, e, erasable)) =
      let (u, run, removed) =
        subst (λ (x : Ptr). (u : Heap.State) × (erase b.timers x ≡ some u) × IsRemoved b.timers x u)
          e (erase-IsRemoved b.timers i v q erasable) in
      let at : (b.timers.events ev).min_heap_idx ≡ pos i =
        ap (λ (x : Ptr). (b.timers.events x).min_heap_idx) (sym e) ∙ v.at i q in
      (
        forget ev (record b { timers = u }),
        ap
              (λ (z : ℤ).
                forgotten ev (if is_unset z then some b else with_timers b (erase b.timers ev)))
              at
            ∙ ap (λ (o : Option Heap.State). forgotten ev (with_timers b o)) run,
        forget-IsForgotten u removed.indexed removed.gone removed.marked removed.kept removed.only
            removed.fields,
      )

-- A heap is still indexed after the index of an event that is not in it is reset.
cleared-IsIndexed : (s : Heap.State) (ev : Ptr) → IsIndexed s → ¬ In ev s → IsIndexed (cleared s ev)
unfolding elem_init
cleared-IsIndexed s ev v out = record {
  at = λ i q.
      ap (λ (e : Event). e.min_heap_idx)
        (update_ne s.events ev (s.heap.p i) (record (s.events ev) { min_heap_idx = negsuc 0 })
          (λ e. out (i, q, sym e)))
      ∙ v.at i q;
  room = v.room;
}

Pushed-cases :
    (s : Heap.State) (e : Ptr) (r : Heap.State × ℤ)
    → Pushed s e r
    → IsAdded s e r.0 ⊎ ((r.0 ≡ s) × (s.heap.n ≡ s.heap.a))
Pushed-cases s e (t, pos n) (_, h) = inl h
Pushed-cases s e (t, negsuc n) (_, same, full) = inr (same, full)

module _ (realloc : Realloc) (now : Time) (b : Base) (ev : Ptr) where
  -- lt_timeout_add of an event that is not in the heap, whose events know their slots: the event is added
  -- to the heap, or the heap is full and stays as it is, the event's index then being -1; the
  -- returned end time is `to` nanoseconds from now. The nanoseconds and the seconds of the sum are
  -- below 2 ^ 63, the size plus 1 is below 2 ^ 32, and realloc keeps the contents.
  pub timeout_add-IsAdded :
      (to : ℕ)
      → Keeps realloc
      → b.timers.heap.n + 1 < 2 ^ 32
      → IsIndexed b.timers
      → ¬ In ev b.timers
      → to + now.tv_nsec < 2 ^ 63
      → now.tv_sec + (to + now.tv_nsec) / second < 2 ^ 63
      → (c : Base) × (endtime : Time) × (timeout_add realloc now b ev to ≡ ok (c, endtime))
        × (IsAdded (cleared b.timers ev) ev c.timers
            ⊎ ((c.timers ≡ cleared b.timers ev) × (b.timers.heap.n ≡ b.timers.heap.a)))
        × (nanoseconds endtime ≡ nanoseconds now + to)
  unfolding timeout_add
  timeout_add-IsAdded to keeps small v out fits fits' =
      let s = cleared b.timers ev in
      let (endtime, added, at, rest, rest') = time_addition-sum now to fits fits' in
      (
        record b { timers = (push realloc s ev).0 },
        endtime,
        rw added refl,
        Pushed-cases s ev (push realloc s ev)
            (push-Pushed s ev (cleared-IsIndexed b.timers ev v out) out realloc keeps small),
        at,
      )

stale :
    (c : Base) (ev : Ptr)
    → (c.timers.events ev).min_heap_idx ≡ negsuc 0
    → In ev c.timers
    → (d : Base) × (io_remove c ev ≡ some d) × In ev d.timers
unfolding io_remove
stale c ev unset inside = (
  forget ev c,
  ap (λ (z : ℤ). forgotten ev (if is_unset z then some c else with_timers c (erase c.timers ev)))
      unset,
  inside,
)

-- lt_io_mod without a timeout, of an event that is in the heap, resets its index but leaves it in the
-- heap; lt_io_remove then takes it for one that is not in the heap, and leaves it there too.
pub io_mod-stale :
    (realloc : Realloc) (now : Time) (b : Base) (ev : Ptr) (flag_set : ℕ) (callback arg : Ptr)
    (n : ℕ)
    → ev ≢ null
    → In ev b.timers
    → (d c : Base) × (io_mod realloc now b ev flag_set callback arg (negsuc n) ≡ ok d)
      × (io_remove d ev ≡ some c)
      × In ev c.timers
unfolding io_mod
io_mod-stale realloc now b ev flag_set callback arg n real inside =
    let test : (ev == null) ≡ false = ground arith in
    let reset = record (b.timers.events ev) { min_heap_idx = negsuc 0 } in
    let self = update_self b.timers.events ev reset in
    let first = store b ev reset in
    let set = record (first.timers.events ev) { flag = flag_set; callback = callback; arg = arg } in
    let second = store first ev set in
    let d = record second {
      calls = ctl_mod (second.timers.events ev).fd (interest flag_set) ev ∷ second.calls;
    } in
    let (c, removed, still) =
      stale d ev
        (ap (λ (e : Event). e.min_heap_idx) (update_self first.timers.events ev set)
          ∙ ap (λ (e : Event). e.min_heap_idx) self)
        inside in
    (d, c, rw test refl, removed, still)
