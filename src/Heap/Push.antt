-- ===== src/Heap/Push.antt =====
-- min_heap_push_ and the reservation that it makes.
use leactor.Prelude.{
  ℕ, ◌+◌, ◌%◌, ◌^◌, ◌≤◌, ◌<◌, ◌≡◌, ◌≢◌, refl, sym, ◌∙◌, ◌⊎◌, inl, inr, ℤ, pos, negsuc, Ptr, arith,
  Bool-cases, Option-cases, some, ltb,
}
use leactor.Heap.{State, Realloc, shift_up, new_capacity, push}
use leactor.Heap.Sift.{IsIndexed, In, IsHollow}
use leactor.Heap.Shift.{shift_up-IsSifted}

-- realloc keeps the contents up to the smaller of the two sizes.
abbrev pub Keeps : Realloc → Type 0
Keeps realloc =
    (p q : ℕ → Ptr) (a size i : ℕ) → realloc p a size ≡ some q → i < a → i < size → q i ≡ p i

-- `t` is `s` with the event `e` added.
pub record IsAdded (s : State) (e : Ptr) (t : State) : Type 0 where
  pub indexed : IsIndexed t
  pub size : t.heap.n ≡ s.heap.n + 1
  pub added : In e t
  pub kept : (x : Ptr) → In x s → In x t
  pub only : (x : Ptr) → In x t → (x ≡ e) ⊎ In x s
  pub fields :
      (x : Ptr) → t.events x ≡ record (s.events x) { min_heap_idx = (t.events x).min_heap_idx }
  pub strangers : (x : Ptr) → x ≢ e → ¬ In x s → t.events x ≡ s.events x

-- What a push may do: add the event and answer 0, or leave all as it is and answer -1, which needs a
-- full array.
abbrev pub Pushed : State → Ptr → State × ℤ → Type 0
Pushed s e (t, pos r) = (r ≡ 0) × IsAdded s e t
Pushed s e (t, negsuc r) = (r ≡ 0) × (t ≡ s) × (s.heap.n ≡ s.heap.a)

new_capacity_le : (a n : ℕ) → n ≤ new_capacity a n
unfolding new_capacity
new_capacity_le a n = ground arith

module _ (s : State) (e : Ptr) (v : IsIndexed s) (new : ¬ In e s) where
  -- The state that the upward loop starts from: more room, the same events, one slot more.
  abbrev grown : (ℕ → Ptr) → ℕ → State
  grown p a = record s { heap = record { p = p; n = s.heap.n + 1; a = a } }

  module _ (p : ℕ → Ptr) (a : ℕ) (same : (i : ℕ) → i < s.heap.n → p i ≡ s.heap.p i)
      (fits : s.heap.n + 1 ≤ a) where
    grown-IsHollow : IsHollow (grown p a) s.heap.n e
    grown-IsHollow = record {
      inside = omega arith;
      at = λ i q ne. rw (same i (omega arith)) (v.at i (omega arith));
      fresh = λ i q ne eq. new (i, omega arith, sym (same i (omega arith)) ∙ eq);
    }

    shift_up-IsAdded : IsAdded s e (shift_up (grown p a) s.heap.n e)
    shift_up-IsAdded =
        let m = shift_up-IsSifted e (grown p a) s.heap.n grown-IsHollow in
        let size = m.size in
        record {
          indexed = record {
            at = λ i q. m.at i (omega (arith, size));
            room = omega (arith, size, m.capacity);
          };
          size = size;
          added = (m.placed.0, omega (arith, size, m.placed.1), m.placed.2);
          kept = λ x (i, q, eq).
              let (j, r, eq') = m.kept i (omega arith) (omega arith) in
              (j, omega (arith, size), eq' ∙ same i q ∙ eq);
          only = λ x (i, q, eq). elim (m.only i (omega (arith, size))) [
            | inl eq' ↦ inl (sym eq ∙ eq')
            | inr (j, r, ne, eq') ↦
                let below : j < s.heap.n = omega arith in
                inr (j, below, sym (same j below) ∙ sym eq' ∙ eq)
          ];
          fields = m.fields;
          strangers = λ x ne out.
              m.strangers x ne
                (λ i q other eq. out (i, omega arith, sym (same i (omega arith)) ∙ eq));
        }

  -- On a heap whose events know their slots, min_heap_push_ of an event that is not in it adds exactly
  -- that event, with every event knowing its slot, and answers 0; or it answers -1 and changes
  -- nothing, which happens only when the array is full. The size plus 1 is below 2 ^ 32, and realloc
  -- keeps the contents that it copies.
  pub push-Pushed :
      (realloc : Realloc) → Keeps realloc → s.heap.n + 1 < 2 ^ 32 → Pushed s e (push realloc s e)
  unfolding push
  push-Pushed realloc keeps small =
      let n = s.heap.n in
      let a = new_capacity s.heap.a (n + 1) in
      let exact : (n + 1) % 2 ^ 32 ≡ n + 1 = omega arith in
      let room = v.room in
      let enough = new_capacity_le s.heap.a (n + 1) in
      rw exact (elim (Bool-cases (ltb s.heap.a (n + 1))) [
        | inl full ↦
            let end : s.heap.n ≡ s.heap.a = ground arith in
            rw full (elim (Option-cases (realloc s.heap.p s.heap.a a)) [
              | inl failed ↦ rw failed (refl, refl, end)
              | inr (p, got) ↦
                  rw (got, exact)
                    (
                      refl,
                      shift_up-IsAdded p a
                          (λ i q. keeps s.heap.p p s.heap.a a i got (omega arith) (omega arith))
                          enough,
                    )
            ])
        | inr free ↦
            rw (free, exact) (refl, shift_up-IsAdded s.heap.p s.heap.a (λ i q. refl) (ground arith))
      ])
