-- ===== src/Heap/Erase.antt =====
-- What min_heap_pop_ and min_heap_erase_ do to the events of the heap.
use leactor.Prelude.{
  ℕ, ◌+◌, ◌-◌, ◌<◌, ◌≡◌, ◌≢◌, refl, sym, ◌∙◌, ap, ◌⊎◌, inl, inr, negsuc, Ptr, null, arith, true,
  false, Bool-cases, some, ◌==◌, ◌&&◌, not, ℕ_discrete,
}
use leactor.Heap.{
  State, place, elem_greater, parent, shift_up, shift_up_unconditional, pop, erase_at, erase,
}
use leactor.Heap.Sift.{IsIndexed, In, IsHollow, IsSifted, place-p, place-events, place-n}
use leactor.Heap.Shift.{shift_up-IsSifted, shift_up_unconditional-IsSifted, shift_down-IsSifted}
use leactor.Heap.Remove.{
  IsRemoved, shorter, cleared, elem_init-events, shorter-IsHollow, cleared-IsRemoved,
  leaf-IsRemoved,
}

-- The outcome of a pop: nothing and NULL from an empty heap, else the event of slot 0, taken out.
abbrev pub Popped : State → State × Ptr → Type 0
Popped s (t, e) =
    ((s.heap.n ≡ 0) × (t ≡ s) × (e ≡ null)) ⊎ ((0 < s.heap.n) × (e ≡ s.heap.p 0) × IsRemoved s e t)

-- min_heap_pop_ on a heap whose events know their slots: from an empty heap it returns NULL and
-- changes nothing; otherwise it returns the event of slot 0, takes exactly that one out and sets its
-- index to -1, and the others still know their slots.
pub pop-Popped : (s : State) → IsIndexed s → Popped s (pop s)
unfolding pop
pop-Popped s v = elim (ℕ_discrete s.heap.n 0) [
  | yes empty ↦
      let test : (s.heap.n == 0) ≡ true = ground arith in rw test (inl (empty, refl, refl))
  | no ne ↦
      let test : (s.heap.n == 0) ≡ false = ground arith in
      rw test (
        inr (
          omega arith,
          refl,
          elim (ℕ_discrete s.heap.n 1) [
            | yes one ↦
                let only : s.heap.p (s.heap.n - 1) ≡ s.heap.p 0 = ap s.heap.p (omega arith) in
                rw only (leaf-IsRemoved s 0 v (omega arith))
            | no more ↦
                cleared-IsRemoved s v 0 (omega arith) _
                  (shift_down-IsSifted _ (shorter s) 0 (shorter-IsHollow s v 0 (omega arith)))
          ],
        ))
]

-- When the loops of min_heap_erase_ leave the last slot's event where it does not matter: the event
-- to erase is not in the last slot, or is the root, or has its parent's end time.
abbrev pub IsErasable : State → ℕ → Type 0
IsErasable s i =
    (i + 1 < s.heap.n)
    ⊎ ((i + 1 ≡ s.heap.n)
        × ((not (i == 0) && elem_greater s.events (s.heap.p (parent i)) (s.heap.p i)) ≡ false))

erase_at-IsRemoved :
    (s : State) (i : ℕ)
    → IsIndexed s
    → i < s.heap.n
    → IsErasable s i
    → IsRemoved s (s.heap.p i) (erase_at s (s.heap.p i) i)
unfolding erase_at
erase_at-IsRemoved s i v q (inl inner) =
    let hollow = shorter-IsHollow s v i inner in
    elim (Bool-cases
      (not (i == 0) && elem_greater s.events (s.heap.p (parent i)) (s.heap.p (s.heap.n - 1)))) [
        | inl up ↦ rw up (
            cleared-IsRemoved s v i inner _
              (shift_up_unconditional-IsSifted _ (shorter s) i (ground arith) hollow))
        | inr down ↦
            rw down (cleared-IsRemoved s v i inner _ (shift_down-IsSifted _ (shorter s) i hollow))
      ]
erase_at-IsRemoved s i v q (inr (end, test)) =
    let same : s.heap.p (s.heap.n - 1) ≡ s.heap.p i = ap s.heap.p (omega arith) in
    rw (same, test) (leaf-IsRemoved s i v end)

-- min_heap_erase_ of an event that is in the heap, unless it stands in the last slot below a parent
-- of another end time: it takes exactly that event out, sets its index to -1, and the others still
-- know their slots.
pub erase-IsRemoved :
    (s : State) (i : ℕ)
    → IsIndexed s
    → i < s.heap.n
    → IsErasable s i
    → (t : State) × (erase s (s.heap.p i) ≡ some t) × IsRemoved s (s.heap.p i) t
unfolding erase
erase-IsRemoved s i v q ok =
    let test : (s.heap.n == 0) ≡ false = ground arith in
    (erase_at s (s.heap.p i) i, rw (v.at i q, test) refl, erase_at-IsRemoved s i v q ok)

-- min_heap_erase_ of the event in the last slot, where its end time is not its parent's: the event
-- stays in the heap although its index becomes -1, and its parent is what the heap loses.
pub erase_last_keeps :
    (s : State) (i : ℕ)
    → IsIndexed s
    → i + 1 ≡ s.heap.n
    → 0 < i
    → elem_greater s.events (s.heap.p (parent i)) (s.heap.p i) ≡ true
    → (t : State) × (erase s (s.heap.p i) ≡ some t)
      × In (s.heap.p i) t
      × ((t.events (s.heap.p i)).min_heap_idx ≡ negsuc 0)
      × ¬ In (s.heap.p (parent i)) t
unfolding erase erase_at shift_up_unconditional
erase_last_keeps s i v end inner greater = (
  cleared t e,
  rw (v.at i (omega arith), test, same, up) refl,
  (m.placed.0, omega (arith, size, m.size, m.placed.1), m.placed.2),
  ground (arith, elem_init-events t.events e e),
  λ (j, r, eq). lost j (omega (arith, size, m.size)) eq,
)
  where
    e : Ptr
    e = s.heap.p i

    test : (s.heap.n == 0) ≡ false
    test = ground arith

    same : s.heap.p (s.heap.n - 1) ≡ s.heap.p i
    same = ap s.heap.p (omega arith)

    up : (not (i == 0) && elem_greater s.events (s.heap.p (parent i)) (s.heap.p i)) ≡ true
    up = ground arith

    filled : State
    filled = place (shorter s) i (s.heap.p (parent i))

    size : filled.heap.n ≡ s.heap.n - 1
    size = place-n (shorter s) i (s.heap.p (parent i))

    distinct' : (j k : ℕ) → j < s.heap.n → k < s.heap.n → j ≢ k → s.heap.p j ≢ s.heap.p k
    distinct' j k a b ne eq =
        ground (arith, v.at j, v.at k, ap (λ (x : Ptr). (s.events x).min_heap_idx) eq)

    below : (j : ℕ) → j < filled.heap.n → filled.heap.p j ≡ s.heap.p j
    below j r = ground (arith, size, place-p (shorter s) i (s.heap.p (parent i)) j)

    hollow : IsHollow filled (parent i) e
    hollow = record {
      inside = omega (arith, size);
      at = λ j r ne. ground (
        arith,
        size,
        below j,
        v.at j,
        distinct' j (parent i),
        place-events (shorter s) i (s.heap.p (parent i)) (s.heap.p j),
      );
      fresh = λ j r ne eq.
          distinct' j i (omega (arith, size)) (omega arith) (omega (arith, size))
            (sym (below j r) ∙ eq);
    }

    t : State
    t = shift_up filled (parent i) e

    m : IsSifted filled (parent i) e t
    m = shift_up-IsSifted e filled (parent i) hollow

    lost : (j : ℕ) → j < filled.heap.n → t.heap.p j ≢ s.heap.p (parent i)
    lost j r eq = elim (m.only j r) [
      | inl eq' ↦ distinct' i (parent i) (omega arith) (omega arith) (omega arith) (sym eq' ∙ eq)
      | inr (k, lt, ne, eq') ↦
          distinct' k (parent i) (omega (arith, size)) (omega arith) ne
            (sym (below k lt) ∙ sym eq' ∙ eq)
    ]
