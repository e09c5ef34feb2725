-- ===== src/Loop/FreeList.antt =====
-- The free list of events: lt_del_event puts an event on it, and lt_new_event takes one off.
use leactor.Prelude.{
  ◌≡◌, ◌≢◌, refl, sym, ap, ◌∙◌, Ptr, null, true, false, ◌==◌, arith, update, update_self, update_ne,
  ok, undefined,
}
use leactor.Event.{Event}
use leactor.Loop.{Base, store, del_event, new_event}

-- What lt_del_event leaves on an empty free list.
unfoldable freed : Base → Ptr → Base
freed b ev =
    let headed = store b b.free_ev_head (record (b.timers.events b.free_ev_head) { next = ev }) in
    store headed ev (record (headed.timers.events ev) { prev = b.free_ev_head })

freed-head :
    (b : Base) (ev : Ptr)
    → ev ≢ b.free_ev_head
    → (freed b ev).timers.events b.free_ev_head
      ≡ record (b.timers.events b.free_ev_head) { next = ev }
unfolding freed store
freed-head b ev ne = update_ne _ ev b.free_ev_head _ ne ∙ update_self _ b.free_ev_head _

freed-event :
    (b : Base) (ev : Ptr)
    → ev ≢ b.free_ev_head
    → (freed b ev).timers.events ev ≡ record (b.timers.events ev) { prev = b.free_ev_head }
unfolding freed store
freed-event b ev ne =
    update_self _ ev _
    ∙ ap (λ (e : Event). record e { prev = b.free_ev_head })
        (update_ne b.timers.events b.free_ev_head ev _ (λ e. ne (sym e)))

-- Taking the only event of a free list writes through its link to the next one.
new_event-undefined :
    (fresh : Ptr) (c : Base) (ev h : Ptr)
    → (c.timers.events c.free_ev_head).next ≡ ev
    → (c.timers.events ev).prev ≡ h
    → (c.timers.events ev).next ≡ null
    → ev ≢ null
    → h ≢ null
    → h ≢ ev
    → new_event fresh c ≡ undefined
unfolding new_event
new_event-undefined fresh c ev h first back last real head ne =
    let real' : (ev == null) ≡ false = ground arith in
    let head' : (h == null) ≡ false = ground arith in
    let same : update c.timers.events h (record (c.timers.events h) { next = null }) ev
        ≡ c.timers.events ev =
      update_ne c.timers.events h ev _ ne in
    rw (first, real', back, head', last, same, last) refl

-- On an empty free list, after lt_del_event of an event whose `next` is NULL, lt_new_event writes through
-- NULL.
pub del_event-new_event :
    (fresh : Ptr) (b : Base) (ev : Ptr)
    → ev ≢ null
    → b.free_ev_head ≢ null
    → ev ≢ b.free_ev_head
    → (b.timers.events b.free_ev_head).next ≡ null
    → (b.timers.events ev).next ≡ null
    → (c : Base) × (del_event b ev ≡ ok c) × (new_event fresh c ≡ undefined)
unfolding del_event freed
del_event-new_event fresh b ev real head ne empty last =
    let none : ((b.timers.events b.free_ev_head).next == null) ≡ true = ground arith in
    let served =
      new_event-undefined fresh (freed b ev) ev b.free_ev_head
        (ap (λ (e : Event). e.next) (freed-head b ev ne))
        (ap (λ (e : Event). e.prev) (freed-event b ev ne))
        (ap (λ (e : Event). e.next) (freed-event b ev ne) ∙ last) real head (λ e. ne (sym e)) in
    (freed b ev, rw none refl, served)
