-- ===== src/Heap/Order.antt =====
-- The order of the heap: the test by which the upward loop rises is that the end times differ.
use leactor.Prelude.{
  ℕ, zero, suc, ◌+◌, ◌≤◌, ◌<◌, ◌≡◌, ◌≢◌, refl, pos, Ptr, arith, true, ltb, false, inl, inr,
  Bool-cases, ◌↔◌, ◌==◌, ◌%◌, ◌^◌,
}
use leactor.Time.{nanoseconds}
use leactor.Time.Laws.{differs_iff}
use leactor.Heap.{State, Realloc, parent, elem_greater, shift_up_loop, push}
use leactor.Heap.Sift.{place-p, place-endtime}

elem_greater_iff :
    (s : State) (a b : Ptr)
    → (elem_greater s.events a b ≡ true)
      ↔ (nanoseconds (s.events a).endtime ≢ nanoseconds (s.events b).endtime)
unfolding elem_greater
elem_greater_iff s a b = differs_iff (s.events a).endtime (s.events b).endtime

-- An upward loop whose tests all succeed ends at the root.
shift_up_loop-root :
    (k : ℕ) (s : State) (hole : ℕ) (e : Ptr)
    → hole ≤ k
    → ((i : ℕ)
        → i < hole
        → nanoseconds (s.events (s.heap.p i)).endtime ≢ nanoseconds (s.events e).endtime)
    → (shift_up_loop k s hole e).heap.p 0 ≡ e
unfolding shift_up_loop
shift_up_loop-root zero s hole e f h = ground (arith, place-p s hole e 0)
shift_up_loop-root (suc k) s hole e f h = elim (Bool-cases (hole == 0)) [
  | inl root ↦ rw root (ground (arith, place-p s hole e 0))
  | inr inner ↦
      let filler = s.heap.p (parent hole) in
      let up : elem_greater s.events filler e ≡ true =
        (elem_greater_iff s filler e).1 (h (parent hole) (ground arith)) in
      rw (inner, up)
        (shift_up_loop-root k _ (parent hole) e (omega arith) λ i r. ground (
          arith,
          place-p s hole filler i,
          place-endtime s hole filler (s.heap.p i),
          place-endtime s hole filler e,
          h i,
        ))
]

-- The end times are never compared for order: an event whose end time is none of those in the heap is
-- put at the root by min_heap_push_, whichever is earlier, where the array has room for it.
pub push-root :
    (realloc : Realloc) (s : State) (e : Ptr)
    → s.heap.n + 1 < 2 ^ 32
    → s.heap.n < s.heap.a
    → ((i : ℕ)
        → i < s.heap.n
        → nanoseconds (s.events (s.heap.p i)).endtime ≢ nanoseconds (s.events e).endtime)
    → ((push realloc s e).0.heap.p 0 ≡ e) × ((push realloc s e).1 ≡ pos 0)
unfolding push
push-root realloc s e small room h =
    let exact : (s.heap.n + 1) % 2 ^ 32 ≡ s.heap.n + 1 = omega arith in
    let free : ltb s.heap.a (s.heap.n + 1) ≡ false = ground arith in
    rw (exact, free, exact) (shift_up_loop-root s.heap.n _ s.heap.n e (omega arith) h, refl)
