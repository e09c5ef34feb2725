-- ===== src/Http/Construct/Fields.antt =====
-- The loop over the elements: the pieces that it puts behind each other.
use leactor.Prelude.{
  ℕ, zero, suc, ◌+◌, ◌*◌, ◌%◌, ◌^◌, ◌<◌, ◌≡◌, ◌≢◌, refl, sym, subst, ap, ◌∙◌, Ptr, null, arith,
  true, false, ◌==◌, List, [], ◌∷◌, length, ltb, inl, inr, Bool-cases, update, update_self,
  update_ne, ok, last_or, NotIn, Distinct, last_or-ne,
}
use leactor.Request.{int32}
use leactor.Buffers.{Allocator}
use leactor.Buffers.Chain.{Supplies}
use leactor.Chains.{Chain, Chains, gather}
use leactor.Http.{Str, Element, size_of_int}
use leactor.Http.Headers.Text.{Field, key_of, value_of, field_length, header_length, Describes}
use leactor.Http.Headers.Whole.{Listed}
use leactor.Http.Construct.{Build, put, put_next, fields}

pub size_exact : (n more : ℕ) → n + more < 2 ^ 31 → size_of_int (int32 (n + more)) ≡ n + more
unfolding size_of_int
size_exact n more h =
    let whole : (n + more) % 2 ^ 32 ≡ n + more = omega arith in
    let less : ltb (n + more) (2 ^ 31) ≡ true = ground arith in rw (whole, less) refl

-- A piece at the front of a vector.
pub gather-cons :
    (n : ℕ) (chains : Chains) (c : Ptr) (base len : ℕ) (vec : List (Ptr × ℕ)) (end : Ptr)
    → c ≢ null
    → (chains c).iov_base ≡ base
    → (chains c).iov_len ≡ len
    → gather n chains (chains c).next ≡ ok (vec, end)
    → gather (suc n) chains c ≡ ok ((base, len) ∷ vec, end)
unfolding gather
gather-cons n chains c base len vec end some at long rest =
    let there : (c == null) ≡ false = ground arith in rw (there, rest, at, long) refl

-- Counting the pieces in the first one leaves the vector as it is.
pub gather-chain_len :
    (n : ℕ) (chains : Chains) (c0 c k : Ptr)
    → gather n (update chains c0 (record (chains c0) { chain_len = k })) c ≡ gather n chains c
unfolding gather update
gather-chain_len zero chains c0 c k = refl
gather-chain_len (suc n) chains c0 c k = elim (Bool-cases (c0 == c)) [
  | inl same ↦
      (let at : c0 ≡ c = ground arith in
        rw (same, gather-chain_len n chains c0 (chains c0).next k, at) refl)
  | inr other ↦ rw (other, gather-chain_len n chains c0 (chains c).next k) refl
]

-- The pieces of the fields whose text begins at `pos`; the last one takes the blank line in.
abbrev pub field_pieces : (pos : Ptr) → List Field → List (Ptr × ℕ)
field_pieces pos [] = []
field_pieces pos (f ∷ []) =
    (pos, length (key_of f) + 2) ∷ (pos + length (key_of f) + 2, length (value_of f) + 4) ∷ []
field_pieces pos (f ∷ g ∷ fs) =
    (pos, length (key_of f) + 2)
    ∷ (pos + length (key_of f) + 2, length (value_of f) + 2)
    ∷ field_pieces (pos + field_length f) (g ∷ fs)

-- The two pieces of a field, at `cur` and at `v`.
module _ (chains : Chains) (cur v : Ptr) (key value : Str) (apart : cur ≢ v) where
  abbrev named : Chains
  named = put (put_next (put chains cur key 2) cur v) v value 2

  abbrev cur_piece : Chain
  cur_piece = record (chains cur) {
    iov_base = key.start;
    iov_len = size_of_int (int32 (key.length + 2));
    next = v;
  }

  abbrev value_piece : Chain
  value_piece = record (chains v) {
    iov_base = value.start;
    iov_len = size_of_int (int32 (value.length + 2));
  }

  named-cur : named cur ≡ cur_piece
  unfolding update
  named-cur =
      let self : (cur == cur) ≡ true = ground arith in
      let ne : (v == cur) ≡ false = ground arith in rw (ne, self) refl

  named-value : named v ≡ value_piece
  unfolding update
  named-value =
      let self : (v == v) ≡ true = ground arith in
      let ne : (cur == v) ≡ false = ground arith in rw (self, ne) refl

  -- A last change of the piece at `v`.
  module _ (c : Chain) where
    changed-cur : update named v c cur ≡ cur_piece
    changed-cur = update_ne named v cur c (λ e. apart (sym e)) ∙ named-cur

    changed-other : (x : Ptr) → NotIn x (cur ∷ v ∷ []) → update named v c x ≡ chains x
    unfolding update
    changed-other x (h, (k, _)) =
        let ne : (cur == x) ≡ false = ground arith in
        let ne' : (v == x) ≡ false = ground arith in rw (ne', ne) refl

-- What the loop leaves: the vector that send_chains fills, and the other chains as they were.
pub record IsGathered (before after : Chains) (cur : Ptr) (cs : List Ptr) (n : ℕ)
    (vec : List (Ptr × ℕ)) : Type 0 where
  pub vector : (end : Ptr) × (gather n after cur ≡ ok (vec, end))
  pub frame : (x : Ptr) → NotIn x (cur ∷ cs) → after x ≡ before x

module _ {S : Type 0} ⦃a : Allocator S⦄ (elements : Ptr → Element) where
  abbrev Gathers :
      Build S → (cur p : Ptr) (ps cs : List Ptr) (n : ℕ) → (pos : Ptr) → List Field → Type 0
  Gathers u cur p ps cs n pos fs =
      (w : Build S) × (fields (length fs) elements (last_or p ps) u cur p n
        ≡ ok (w, n + 2 * length fs))
      × IsGathered u.chains w.chains cur cs (2 * length fs) (field_pieces pos fs)

  -- The last element.
  fields-one :
      (u : Build S) (cur p v : Ptr) (m : S) (n : ℕ) (pos : Ptr) (f : Field)
      → Describes f pos (elements p)
      → p ≢ null
      → cur ≢ null
      → cur ≢ v
      → a.alloc u.manager ≡ ok (m, v)
      → v ≢ null
      → field_length f < 2 ^ 31
      → Gathers u cur p [] (v ∷ []) n pos (f ∷ [])
  unfolding fields gather
  fields-one u cur p v m n pos f d some_p some_cur apart supply some_v small =
      let there : (p == null) ≡ false = ground arith in
      let there' : (v == null) ≡ false = ground arith in
      let self : (p == p) ≡ true = ground arith in
      let e = elements p in
      let all = named u.chains cur v e.key e.value apart in
      let c = record (all v) { iov_len = ((all v).iov_len + 2) % 2 ^ 64 } in
      let last = update all v c in
      let at_cur = changed-cur u.chains cur v e.key e.value apart c in
      let at_v : last v ≡ c = update_self all v c in
      let value = named-value u.chains cur v e.key e.value apart in
      (
        record { manager = m; chains = last },
        rw (there, supply, there', self) refl,
        record {
          vector = (
            (last v).next,
            gather-cons 1 last cur pos (length (key_of f) + 2) _ _ some_cur
                (rw (at_cur, d.key) refl)
                (rw (at_cur, d.key) (size_exact (length (key_of f)) 2 (omega arith)))
                (rw at_cur (
                  gather-cons 0 last v (pos + length (key_of f) + 2) (length (value_of f) + 4) []
                    (last v).next some_v (rw (at_v, value, d.value) refl)
                    (rw (at_v, value, d.value)
                      (rw (size_exact (length (value_of f)) 2 (omega arith)) (omega arith)))
                    refl)),
          );
          frame = changed-other u.chains cur v e.key e.value apart c;
        },
      )

  -- An element before others.
  fields-more :
      (u : Build S) (cur p v c : Ptr) (m m' : S) (n : ℕ) (pos : Ptr) (f g : Field) (fs : List Field)
      (q : Ptr) (qs cs : List Ptr)
      → Describes f pos (elements p)
      → (elements p).next ≡ q
      → p ≢ null
      → p ≢ last_or q qs
      → cur ≢ null
      → NotIn cur (v ∷ c ∷ cs)
      → NotIn v (c ∷ cs)
      → a.alloc u.manager ≡ ok (m, v)
      → v ≢ null
      → a.alloc m ≡ ok (m', c)
      → c ≢ null
      → field_length f < 2 ^ 31
      → ((t : Build S)
          → t.manager ≡ m'
          → Gathers t c q qs cs (n + 2) (pos + field_length f) (g ∷ fs))
      → Gathers u cur p (q ∷ qs) (v ∷ c ∷ cs) n pos (f ∷ g ∷ fs)
  unfolding fields
  fields-more u cur p v c m m' n pos f g fs q qs cs d next some_p not_last some_cur apart apart_v
        supply some_v supply' some_c small rest =
      let there : (p == null) ≡ false = ground arith in
      let there_v : (v == null) ≡ false = ground arith in
      let there_c : (c == null) ≡ false = ground arith in
      let other : (p == last_or q qs) ≡ false = ground arith in
      let e = elements p in
      let all = named u.chains cur v e.key e.value apart.0 in
      let piece = record (all v) { next = c } in
      let linked = update all v piece in
      let (w, run, gathered) = rest (record { manager = m'; chains = linked }) refl in
      let after_cur =
        gathered.frame cur apart.1 ∙ changed-cur u.chains cur v e.key e.value apart.0 piece in
      let after_v = gathered.frame v apart_v ∙ update_self all v piece in
      let value = named-value u.chains cur v e.key e.value apart.0 in
      let (end, vector) = gathered.vector in
      let count : 2 * suc (suc (length fs)) ≡ suc (suc (2 * suc (length fs))) = omega arith in
      (
        w,
        rw (there, supply, there_v, other, supply', there_c, next)
            (run ∙ ap (λ (k : ℕ). ok (w, k)) (omega arith)),
        record {
          vector = (
            end,
            rw count (
                gather-cons (suc (2 * suc (length fs))) w.chains cur pos (length (key_of f) + 2) _
                  end some_cur (rw (after_cur, d.key) refl)
                  (rw (after_cur, d.key) (size_exact (length (key_of f)) 2 (omega arith)))
                  (rw after_cur (
                    gather-cons (2 * suc (length fs)) w.chains v (pos + length (key_of f) + 2)
                      (length (value_of f) + 2) _ end some_v (rw (after_v, value, d.value) refl)
                      (rw (after_v, value, d.value)
                        (size_exact (length (value_of f)) 2 (omega arith)))
                      (rw after_v vector)))),
          );
          frame = λ x away.
              gathered.frame x away.1.1
              ∙ changed-other u.chains cur v e.key e.value apart.0 piece x (away.0, (away.1.0, tt));
        },
      )

  -- The loop over all elements of a header, with two free pieces for each but the one at `cur`.
  pub fields-Gathers :
      (u : Build S) (cur p : Ptr) (ps cs : List Ptr) (n : ℕ) (pos : Ptr) (f : Field)
      (fs : List Field)
      → Listed elements pos (f ∷ fs) (p ∷ ps)
      → length ps ≡ length fs
      → NotIn null (p ∷ ps)
      → Distinct (p ∷ ps)
      → cur ≢ null
      → Supplies u.manager cs
      → Distinct (cur ∷ cs)
      → length cs ≡ 2 * length fs + 1
      → header_length (f ∷ fs) < 2 ^ 31
      → Gathers u cur p ps cs n pos (f ∷ fs)
  fields-Gathers u cur p [] (v ∷ []) n pos f [] listed len some distinct some_cur supply apart count
        small =
      let (m, supplied, some_v, _) = supply in
      fields-one u cur p v m n pos f listed.0 (λ e. some.0 (sym e)) some_cur apart.0.0 supplied
        some_v (omega (arith, small))
  fields-Gathers u cur p (q ∷ qs) (v ∷ c ∷ cs) n pos f (g ∷ fs) listed len some distinct some_cur
        supply apart count small =
      let (m, supplied, some_v, (m', supplied', some_c, rest)) = supply in
      fields-more u cur p v c m m' n pos f g fs q qs cs listed.0 listed.1 (λ e. some.0 (sym e))
        (last_or-ne p q qs distinct.0.0 distinct.0.1) some_cur apart.0 apart.1.0 supplied some_v
        supplied' some_c (omega (arith, small))
        (λ t at.
          fields-Gathers t c q qs cs (n + 2) (pos + field_length f) g fs listed.2
            (omega (arith, len)) some.1 distinct.1 some_c
            (subst (λ (k : S). Supplies k cs) (sym at) rest) apart.1.1 (omega (arith, count))
            (omega (arith, small)))
  fields-Gathers u cur p [] [] n pos f fs listed len some distinct some_cur supply apart count
        small =
      absurd (omega (arith, count))
  fields-Gathers u cur p [] (v ∷ c ∷ cs) n pos f [] listed len some distinct some_cur supply apart
        count small =
      absurd (omega (arith, count))
  fields-Gathers u cur p [] (v ∷ cs) n pos f (g ∷ fs) listed len some distinct some_cur supply apart
        count small =
      absurd (omega (arith, len))
  fields-Gathers u cur p (q ∷ qs) cs n pos f [] listed len some distinct some_cur supply apart count
        small =
      absurd (omega (arith, len))
  fields-Gathers u cur p (q ∷ qs) [] n pos f (g ∷ fs) listed len some distinct some_cur supply apart
        count small =
      absurd (omega (arith, count))
  fields-Gathers u cur p (q ∷ qs) (v ∷ []) n pos f (g ∷ fs) listed len some distinct some_cur supply
        apart count small =
      absurd (omega (arith, count))
