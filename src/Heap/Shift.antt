-- ===== src/Heap/Shift.antt =====
-- The upward and the downward loop of lea_heap.c put the event into the hole's place without losing
-- an event or leaving the slots below `n`.
use leactor.Prelude.{
  ℕ, zero, suc, ◌+◌, ◌*◌, ◌≤◌, ◌<◌, ◌≢◌, Ptr, arith, Bool-cases, inl, inr, leb, ◌==◌, ◌&&◌, not,
}
use leactor.Heap.{
  State, parent, elem_greater, shift_up_loop, shift_up, shift_up_unconditional, min_child,
  shift_down_loop, shift_down,
}
use leactor.Heap.Sift.{IsHollow, IsSifted, place-n, place-IsSifted, moved-IsHollow, moved-IsSifted}

module _ (e : Ptr) where
  shift_up_loop-IsSifted :
      (k : ℕ) (s : State) (hole : ℕ)
      → hole ≤ k
      → IsHollow s hole e
      → IsSifted s hole e (shift_up_loop k s hole e)
  unfolding shift_up_loop
  shift_up_loop-IsSifted zero s hole f h = place-IsSifted s hole e h
  shift_up_loop-IsSifted (suc k) s hole f h =
      elim (Bool-cases (not (hole == 0) && elem_greater s.events (s.heap.p (parent hole)) e)) [
        | inl up ↦
            let ne : hole ≢ 0 = ground arith in
            let below : parent hole < s.heap.n = omega (arith, h.inside) in
            rw up (
              moved-IsSifted s hole (parent hole) e h below (omega arith) _ (
                shift_up_loop-IsSifted k _ (parent hole) (omega arith)
                  (moved-IsHollow s hole (parent hole) e h below (omega arith))))
        | inr stop ↦ rw stop (place-IsSifted s hole e h)
      ]

  pub shift_up-IsSifted :
      (s : State) (hole : ℕ) → IsHollow s hole e → IsSifted s hole e (shift_up s hole e)
  unfolding shift_up
  shift_up-IsSifted s hole h = shift_up_loop-IsSifted hole s hole (omega arith) h

  pub shift_up_unconditional-IsSifted :
      (s : State) (hole : ℕ)
      → hole ≢ 0
      → IsHollow s hole e
      → IsSifted s hole e (shift_up_unconditional s hole e)
  unfolding shift_up_unconditional
  shift_up_unconditional-IsSifted s hole ne h =
      let below : parent hole < s.heap.n = omega (arith, h.inside) in
      moved-IsSifted s hole (parent hole) e h below (omega arith) _ (
        shift_up-IsSifted _ (parent hole)
          (moved-IsHollow s hole (parent hole) e h below (omega arith)))

  -- The child to descend to lies below the hole, and inside if the test of the loop holds.
  min_child_bounds :
      (s : State) (hole : ℕ)
      → 2 * (hole + 1) ≤ s.heap.n
      → (hole < min_child s hole) × (min_child s hole < s.heap.n)
  unfolding min_child
  min_child_bounds s hole h = ground arith

  shift_down_loop-IsSifted :
      (k : ℕ) (s : State) (hole : ℕ)
      → s.heap.n ≤ hole + k
      → IsHollow s hole e
      → IsSifted s hole e (shift_down_loop k s hole e)
  unfolding shift_down_loop
  shift_down_loop-IsSifted zero s hole f h = place-IsSifted s hole e h
  shift_down_loop-IsSifted (suc k) s hole f h = elim (Bool-cases (leb (2 * (hole + 1)) s.heap.n)) [
    | inl more ↦
        let child = min_child s hole in
        let (below, inside) = min_child_bounds s hole (ground arith) in
        rw more (elim (Bool-cases (not (elem_greater s.events e (s.heap.p child)))) [
          | inl stop ↦ rw stop (place-IsSifted s hole e h)
          | inr down ↦ rw down (
              moved-IsSifted s hole child e h inside (omega arith) _ (
                shift_down_loop-IsSifted k _ child (omega (arith, place-n s hole (s.heap.p child)))
                  (moved-IsHollow s hole child e h inside (omega arith))))
        ])
    | inr done ↦ rw done (place-IsSifted s hole e h)
  ]

  pub shift_down-IsSifted :
      (s : State) (hole : ℕ) → IsHollow s hole e → IsSifted s hole e (shift_down s hole e)
  unfolding shift_down
  shift_down-IsSifted s hole h = shift_down_loop-IsSifted s.heap.n s hole (omega arith) h
