-- ===== src/Heap/Sift.antt =====
-- The loops of lea_heap.c move events between the slots below `n` and lose none: what the upward and
-- the downward loop have in common.
use leactor.Prelude.{
  ℕ, ◌≤◌, ◌<◌, ◌≡◌, ◌≢◌, refl, sym, ◌∙◌, ap, ◌⊎◌, inl, inr, pos, Ptr, arith, update, ◌==◌,
  if◌then◌else◌, ℕ_discrete,
}
use leactor.Heap.{State, place}

-- The event in each slot knows its slot.
pub record IsIndexed (s : State) : Type 0 where
  pub at : (i : ℕ) → i < s.heap.n → (s.events (s.heap.p i)).min_heap_idx ≡ pos i
  pub room : s.heap.n ≤ s.heap.a

-- `e` is in one of the slots below `n`.
abbrev pub In : Ptr → State → Type 0
In e s = (i : ℕ) × (i < s.heap.n) × (s.heap.p i ≡ e)

-- The slot `hole` is free for `e`: the other slots are indexed, and none holds `e`.
pub record IsHollow (s : State) (hole : ℕ) (e : Ptr) : Type 0 where
  pub inside : hole < s.heap.n
  pub at : (i : ℕ) → i < s.heap.n → i ≢ hole → (s.events (s.heap.p i)).min_heap_idx ≡ pos i
  pub fresh : (i : ℕ) → i < s.heap.n → i ≢ hole → s.heap.p i ≢ e

-- In `t` the slots below `n` hold `e` and the events that `s` holds outside `hole`, each indexed;
-- nothing else differs.
pub record IsSifted (s : State) (hole : ℕ) (e : Ptr) (t : State) : Type 0 where
  pub size : t.heap.n ≡ s.heap.n
  pub capacity : t.heap.a ≡ s.heap.a
  pub at : (i : ℕ) → i < s.heap.n → (t.events (t.heap.p i)).min_heap_idx ≡ pos i
  pub placed : (i : ℕ) × (i < s.heap.n) × (t.heap.p i ≡ e)
  pub kept :
      (j : ℕ) → j < s.heap.n → j ≢ hole → (i : ℕ) × (i < s.heap.n) × (t.heap.p i ≡ s.heap.p j)
  pub only :
      (i : ℕ)
      → i < s.heap.n
      → (t.heap.p i ≡ e) ⊎ ((j : ℕ) × (j < s.heap.n) × (j ≢ hole) × (t.heap.p i ≡ s.heap.p j))
  pub outside : (i : ℕ) → s.heap.n ≤ i → t.heap.p i ≡ s.heap.p i
  pub fields :
      (x : Ptr) → t.events x ≡ record (s.events x) { min_heap_idx = (t.events x).min_heap_idx }
  pub strangers :
      (x : Ptr)
      → x ≢ e
      → ((i : ℕ) → i < s.heap.n → i ≢ hole → s.heap.p i ≢ x)
      → t.events x ≡ s.events x

module _ (s : State) (i : ℕ) (e : Ptr) where
  pub place-p : (j : ℕ) → (place s i e).heap.p j ≡ (if i == j then e else s.heap.p j)
  unfolding place update
  place-p j = refl

  pub place-events :
      (x : Ptr)
      → (place s i e).events x
        ≡ (if e == x then record (s.events e) { min_heap_idx = pos i } else s.events x)
  unfolding place update
  place-events x = refl

  pub place-n : (place s i e).heap.n ≡ s.heap.n
  unfolding place
  place-n = refl

  pub place-a : (place s i e).heap.a ≡ s.heap.a
  unfolding place
  place-a = refl

  pub place-endtime : (x : Ptr) → ((place s i e).events x).endtime ≡ (s.events x).endtime
  place-endtime x = ground (arith, place-events x)

-- The write that ends a loop.
pub place-IsSifted :
    (s : State) (hole : ℕ) (e : Ptr) → IsHollow s hole e → IsSifted s hole e (place s hole e)
place-IsSifted s hole e h = record {
  size = place-n s hole e;
  capacity = place-a s hole e;
  at = λ i q. ground (
    arith,
    place-p s hole e i,
    place-events s hole e ((place s hole e).heap.p i),
    h.at i,
    h.fresh i,
  );
  placed = (hole, h.inside, ground (arith, place-p s hole e hole));
  kept = λ j q ne. (j, q, ground (arith, place-p s hole e j));
  only = λ i q. elim (ℕ_discrete i hole) [
    | yes same ↦ inl (ground (arith, place-p s hole e i))
    | no ne ↦ inr (i, q, ne, ground (arith, place-p s hole e i))
  ];
  outside = λ i q. ground (arith, place-p s hole e i, h.inside);
  fields = λ x. ground (arith, place-events s hole e x);
  strangers = λ x ne out. ground (arith, place-events s hole e x);
}

-- One round of a loop: the event of slot `j` fills the hole, and `j` is the new hole.
module _ (s : State) (hole j : ℕ) (e : Ptr) (h : IsHollow s hole e) (q : j < s.heap.n)
    (ne : j ≢ hole) where
  abbrev moved : State
  moved = place s hole (s.heap.p j)

  moved-n : moved.heap.n ≡ s.heap.n
  moved-n = place-n s hole (s.heap.p j)

  -- Two slots that are not the hole hold different events.
  apart : (i : ℕ) → i < s.heap.n → i ≢ hole → i ≢ j → s.heap.p i ≢ s.heap.p j
  apart i r other ne' same =
      ground (arith, h.at i, h.at j, ap (λ (x : Ptr). (s.events x).min_heap_idx) same)

  pub moved-IsHollow : IsHollow moved j e
  moved-IsHollow = record {
    inside = omega (arith, moved-n);
    at = λ i r other. ground (
      arith,
      moved-n,
      place-p s hole (s.heap.p j) i,
      place-events s hole (s.heap.p j) (moved.heap.p i),
      h.at i,
      apart i,
    );
    fresh =
        λ i r other. ground (arith, moved-n, place-p s hole (s.heap.p j) i, h.fresh i, h.fresh j);
  }

  pub moved-IsSifted : (t : State) → IsSifted moved j e t → IsSifted s hole e t
  moved-IsSifted t m = record {
    size = m.size ∙ moved-n;
    capacity = m.capacity ∙ place-a s hole (s.heap.p j);
    at = λ i r. m.at i (omega (arith, moved-n));
    placed = (m.placed.0, omega (arith, moved-n, m.placed.1), m.placed.2);
    kept = λ i r other. elim (ℕ_discrete i j) [
      | yes same ↦
          let (x, lt, eq) = m.kept hole (omega (arith, moved-n, h.inside)) (λ e. ne (sym e)) in
          (x, omega (arith, moved-n), ground (arith, place-p s hole (s.heap.p j) hole))
      | no ne' ↦
          let (x, lt, eq) = m.kept i (omega (arith, moved-n)) ne' in
          (x, omega (arith, moved-n), ground (arith, place-p s hole (s.heap.p j) i))
    ];
    only = λ i r. elim (m.only i (omega (arith, moved-n))) [
      | inl eq ↦ inl eq
      | inr (x, lt, other, eq) ↦ inr (elim (ℕ_discrete x hole) [
        | yes same ↦ (j, q, ne, ground (arith, place-p s hole (s.heap.p j) x))
        | no ne' ↦ (x, omega (arith, moved-n), ne', ground (arith, place-p s hole (s.heap.p j) x))
      ])
    ];
    outside = λ i r.
        m.outside i (omega (arith, moved-n))
        ∙ ground (arith, place-p s hole (s.heap.p j) i, h.inside);
    fields = λ x. ground (arith, m.fields x, place-events s hole (s.heap.p j) x);
    strangers = λ x other out.
        m.strangers x other
          (λ i r ne'. ground (arith, moved-n, place-p s hole (s.heap.p j) i, out i, out j))
        ∙ ground (arith, place-events s hole (s.heap.p j) x, out j);
  }
