-- ===== src/Http/Headers/Round.antt =====
-- One round of the loop of http_process_request_headers, on a plain field.
use leactor.Prelude.{
  ℕ, ◌≡◌, ◌≢◌, refl, inl, inr, Ptr, null, arith, true, false, ◌==◌, Bool-cases, if◌then◌else◌,
  update,
}
use leactor.Http.Hash.{host_hash}
use leactor.Http.Headers.{State, lower, described, fill}

-- What `fill` does to a state, when the hash is not that of a host.
pub record IsTaken {S : Type 0} (tolower : ℕ → ℕ) (s : State S) (prev element : Ptr) (t : State S)
    : Type 0 where
  pub request : t.r ≡ s.r
  pub buffer : t.b ≡ s.b
  pub counted : t.request_length ≡ s.request_length
  pub manager : t.manager ≡ s.manager
  pub mem : t.mem ≡ lower tolower s.mem (described s.r (s.elements element)).key
  pub head : t.head ≡ (if s.head == null then element else s.head)
  pub tail : t.tail ≡ element
  pub new :
      (n : Ptr) × (t.elements element
        ≡ record (described s.r (s.elements element)) { length = s.r.header_length; next = n })
  pub linked : s.head ≢ null → t.elements prev ≡ record (s.elements prev) { next = element }
  pub kept : (n : Ptr) × (t.elements prev ≡ record (s.elements prev) { next = n })
  pub others : (x : Ptr) → x ≢ element → x ≢ prev → t.elements x ≡ s.elements x

module _ {S : Type 0} (tolower : ℕ → ℕ) (s : State S) (prev element : Ptr) (apart : prev ≢ element)
    (no_host : s.r.header_hash ≢ host_hash) where
  pub fill-IsTaken : IsTaken tolower s prev element (fill tolower s prev element)
  unfolding update
  fill-IsTaken =
      let plain : (s.r.header_hash == host_hash) ≡ false = ground arith in
      let self : (element == element) ≡ true = ground arith in
      let self' : (prev == prev) ≡ true = ground arith in
      let ne : (prev == element) ≡ false = ground arith in
      let ne' : (element == prev) ≡ false = ground arith in
      let new : (x : Ptr) → x ≢ element → (element == x) ≡ false = λ x h. ground arith in
      let old : (x : Ptr) → x ≢ prev → (prev == x) ≡ false = λ x h. ground arith in
      elim (Bool-cases (s.head == null)) [
        | inl first ↦
            rw (first, self, plain)
              (record {
                request = refl;
                buffer = refl;
                counted = refl;
                manager = refl;
                mem = refl;
                head = rw first refl;
                tail = refl;
                new = ((s.elements element).next, rw self refl);
                linked = λ h. absurd (ground arith);
                kept = ((s.elements prev).next, rw ne' refl);
                others = λ x h k. rw (new x h) refl;
              })
        | inr more ↦
            rw (more, self, plain)
              (record {
                request = refl;
                buffer = refl;
                counted = refl;
                manager = refl;
                mem = refl;
                head = rw more refl;
                tail = refl;
                new = (null, rw self refl);
                linked = λ h. rw (ne', self') refl;
                kept = (element, rw (ne', self') refl);
                others = λ x h k. rw (new x h, old x k) refl;
              })
      ]
