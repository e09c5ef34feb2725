-- ===== src/Heap/Remove.antt =====
-- min_heap_pop_ and min_heap_erase_.
use leactor.Prelude.{
  ℕ, zero, suc, ◌+◌, ◌-◌, ◌≤◌, ◌<◌, ◌≡◌, ◌≢◌, refl, sym, ◌∙◌, ap, inl, inr, negsuc, Ptr, arith,
  ◌==◌, if◌then◌else◌, ℕ_discrete, update,
}
use leactor.Event.{Events}
use leactor.Heap.{State, elem_init, shift_down, shift_down_loop, place}
use leactor.Heap.Sift.{IsIndexed, In, IsHollow, IsSifted, place-p, place-events, place-n, place-a}

pub elem_init-events :
    (events : Events) (e x : Ptr)
    → elem_init events e x
      ≡ (if e == x then record (events e) { min_heap_idx = negsuc 0 } else events x)
unfolding elem_init update
elem_init-events events e x = refl

-- `t` is `s` without the event `e`, whose index is -1.
pub record IsRemoved (s : State) (e : Ptr) (t : State) : Type 0 where
  pub indexed : IsIndexed t
  pub size : t.heap.n + 1 ≡ s.heap.n
  pub capacity : t.heap.a ≡ s.heap.a
  pub gone : ¬ In e t
  pub marked : (t.events e).min_heap_idx ≡ negsuc 0
  pub kept : (x : Ptr) → x ≢ e → In x s → In x t
  pub only : (x : Ptr) → In x t → In x s
  pub fields :
      (x : Ptr) → t.events x ≡ record (s.events x) { min_heap_idx = (t.events x).min_heap_idx }

abbrev pub shorter : State → State
shorter s = record s { heap = record (s.heap) { n = s.heap.n - 1 } }

abbrev pub cleared : State → Ptr → State
cleared t e = record t { events = elem_init t.events e }

module _ (s : State) (v : IsIndexed s) (i : ℕ) (q : i + 1 < s.heap.n) where
  abbrev pub last : Ptr
  last = s.heap.p (s.heap.n - 1)

  pub distinct : (j k : ℕ) → j < s.heap.n → k < s.heap.n → j ≢ k → s.heap.p j ≢ s.heap.p k
  distinct j k a b ne same =
      ground (arith, v.at j, v.at k, ap (λ (x : Ptr). (s.events x).min_heap_idx) same)

  pub shorter-IsHollow : IsHollow (shorter s) i last
  shorter-IsHollow = record {
    inside = omega arith;
    at = λ j r ne. v.at j (omega arith);
    fresh = λ j r ne. distinct j (s.heap.n - 1) (omega arith) (omega arith) (omega arith);
  }

  pub cleared-IsRemoved :
      (t : State)
      → IsSifted (shorter s) i last t
      → IsRemoved s (s.heap.p i) (cleared t (s.heap.p i))
  cleared-IsRemoved t m = record {
    indexed = record {
      at =
          λ j r. ground (arith, m.size, m.at j, elem_init-events t.events e (t.heap.p j), absent j);
      room = omega (arith, m.size, m.capacity, v.room);
    };
    size = omega (arith, m.size);
    capacity = m.capacity;
    gone = λ (j, r, eq). absent j (omega (arith, m.size)) eq;
    marked = ground (arith, elem_init-events t.events e e);
    kept = λ x ne (j, r, eq). elim (ℕ_discrete j (s.heap.n - 1)) [
      | yes end ↦ (m.placed.0, omega (arith, m.size, m.placed.1), ground (arith, m.placed.2))
      | no other ↦
          let (k, lt, eq') = m.kept j (omega arith) (λ same. ne (ground arith)) in
          (k, omega (arith, m.size), eq' ∙ eq)
    ];
    only = λ x (j, r, eq). elim (m.only j (omega (arith, m.size))) [
      | inl eq' ↦ (s.heap.n - 1, omega arith, sym eq' ∙ eq)
      | inr (k, lt, ne, eq') ↦ (k, omega arith, sym eq' ∙ eq)
    ];
    fields = λ x. ground (arith, m.fields x, elem_init-events t.events e x);
  }
    where
      e : Ptr
      e = s.heap.p i

      absent : (j : ℕ) → j < s.heap.n - 1 → t.heap.p j ≢ e
      absent j r = elim (m.only j r) [
        | inl eq ↦ λ eq'.
            distinct i (s.heap.n - 1) (omega arith) (omega arith) (omega arith) (sym eq' ∙ eq)
        | inr (k, lt, ne, eq) ↦ λ eq'. distinct k i (omega arith) (omega arith) ne (sym eq ∙ eq')
      ]

-- The loop does nothing but the final write where the hole has no child.
shift_down-leaf :
    (s : State) (hole : ℕ) (e : Ptr) → s.heap.n ≤ hole → shift_down s hole e ≡ place s hole e
unfolding shift_down
shift_down-leaf s hole e h = go s.heap.n
  where
    go : (k : ℕ) → shift_down_loop k s hole e ≡ place s hole e
    go zero = refl
    go (suc k) = ground arith

-- Taking out the event of the last slot by the downward loop: the slot is written, and lies outside.
pub leaf-IsRemoved :
    (s : State) (i : ℕ)
    → IsIndexed s
    → i + 1 ≡ s.heap.n
    → IsRemoved s (s.heap.p i) (cleared (shift_down (shorter s) i (s.heap.p i)) (s.heap.p i))
leaf-IsRemoved s i v q = rw (shift_down-leaf (shorter s) i e (omega arith)) (record {
  indexed = record {
    at = λ j r. ground (
      arith,
      size,
      place-p (shorter s) i e j,
      v.at j,
      absent j,
      elem_init-events t.events e (t.heap.p j),
      place-events (shorter s) i e (t.heap.p j),
    );
    room = omega (arith, size, place-a (shorter s) i e, v.room);
  };
  size = omega (arith, size);
  capacity = place-a (shorter s) i e;
  gone = λ (j, r, eq). absent j (omega (arith, size)) (sym (below j (omega (arith, size))) ∙ eq);
  marked = ground (arith, elem_init-events t.events e e);
  kept = λ x ne (j, r, eq).
      let lt : j < s.heap.n - 1 = leave j r (λ same. ne (sym eq ∙ ap s.heap.p same)) in
      (j, omega (arith, size), below j lt ∙ eq);
  only = λ x (j, r, eq). (j, omega (arith, size), sym (below j (omega (arith, size))) ∙ eq);
  fields = λ x. ground (arith, elem_init-events t.events e x, place-events (shorter s) i e x);
})
  where
    e : Ptr
    e = s.heap.p i

    t : State
    t = place (shorter s) i e

    size : t.heap.n ≡ s.heap.n - 1
    size = place-n (shorter s) i e

    below : (j : ℕ) → j < s.heap.n - 1 → t.heap.p j ≡ s.heap.p j
    below j r = ground (arith, place-p (shorter s) i e j)

    leave : (j : ℕ) → j < s.heap.n → j ≢ i → j < s.heap.n - 1
    leave j r ne = omega arith

    absent : (j : ℕ) → j < s.heap.n - 1 → s.heap.p j ≢ e
    absent j r same =
        ground (arith, v.at j, v.at i, ap (λ (x : Ptr). (s.events x).min_heap_idx) same)
