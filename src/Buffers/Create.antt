-- ===== src/Buffers/Create.antt =====
-- lt_new_buffer_chain: how many buffers it takes, and what it leaves in them.
use leactor.Prelude.{
  ℕ, zero, suc, ◌+◌, ◌-◌, ◌%◌, ◌^◌, ◌≤◌, ◌<◌, ◌≡◌, ◌≢◌, refl, sym, ap, ◌∙◌, Ptr, null, ◌==◌, ltb,
  true, false, List, [], ◌∷◌, length, arith, update, update_self, update_ne, ok, NotIn, Distinct,
}
use leactor.Buffers.{
  Buf, Allocator, State, store, new_buffer, empty_buf, default_buf_size, chain_loop,
  new_buffer_chain,
}
use leactor.Buffers.Chain.{Linked, Supplies}

-- A buffer with nothing in it and room for DEFAULT_BUF_SIZE bytes.
abbrev pub IsEmpty : Buf → Type 0
IsEmpty b = (b.pos ≡ 0) × (b.last ≡ 0) × (b.end ≡ default_buf_size)

abbrev pub AllEmpty : (Ptr → Buf) → List Ptr → Type 0
AllEmpty bufs [] = Unit
AllEmpty bufs (p ∷ ps) = IsEmpty (bufs p) × AllEmpty bufs ps

-- `ps` is as many buffers as `size` bytes need, at least `least` of them.
abbrev pub Suffices : (now size : ℕ) → List Ptr → Type 0
Suffices now size [] = size ≤ now
Suffices now size (p ∷ ps) = (now < size) × Suffices (now + default_buf_size) size ps

Suffices-length : (now size : ℕ) (ps : List Ptr) → Suffices now size ps → length ps ≤ size - now
Suffices-length now size [] h = omega arith
Suffices-length now size (p ∷ ps) (less, h) =
    omega (arith, Suffices-length (now + default_buf_size) size ps h)

module _ {S : Type 0} ⦃a : Allocator S⦄ where
  -- The buffers `ps` are linked behind `old`, and nothing else differs.
  pub record IsGrown (s : State S) (old : Ptr) (ps : List Ptr) (t : State S) : Type 0 where
    pub linked : Linked t.bufs (old ∷ ps)
    pub old_same : t.bufs old ≡ record (s.bufs old) { next = (t.bufs old).next }
    pub empties : AllEmpty t.bufs ps
    pub frame : (x : Ptr) → x ≢ old → NotIn x ps → t.bufs x ≡ s.bufs x

  module _ (s : State S) (m : S) (old q : Ptr) (ne : old ≢ q) where
    abbrev taken : State S
    taken = store (record s { manager = m }) q (empty_buf (s.bufs q))

    abbrev next : State S
    next = store taken old (record (taken.bufs old) { next = q })

    next-old : next.bufs old ≡ record (s.bufs old) { next = q }
    next-old =
        update_self taken.bufs old _
        ∙ ap (λ (b : Buf). record b { next = q }) (update_ne s.bufs q old _ (λ e. ne (sym e)))

    next-q : next.bufs q ≡ empty_buf (s.bufs q)
    next-q = update_ne taken.bufs old q _ ne ∙ update_self s.bufs q _

    next-other : (x : Ptr) → x ≢ old → x ≢ q → next.bufs x ≡ s.bufs x
    next-other x ne' nq =
        update_ne taken.bufs old x _ (λ e. ne' (sym e)) ∙ update_ne s.bufs q x _ (λ e. nq (sym e))

    grown :
        (qs : List Ptr) (t : State S)
        → NotIn old qs
        → IsGrown next q qs t
        → IsGrown s old (q ∷ qs) t
    grown qs t out g =
        let same = g.frame old ne out ∙ next-old in
        let first = g.old_same ∙ ap (λ (b : Buf). record b { next = (t.bufs q).next }) next-q in
        record {
          linked = (ap (λ (b : Buf). b.next) same, g.linked);
          old_same =
              same
              ∙ ap (λ (p : Ptr). record (s.bufs old) { next = p })
                  (sym (ap (λ (b : Buf). b.next) same));
          empties = (
            (
              ap (λ (b : Buf). b.pos) first,
              ap (λ (b : Buf). b.last) first,
              ap (λ (b : Buf). b.end) first,
            ),
            g.empties,
          );
          frame = λ x ne' (nq, nqs). g.frame x nq nqs ∙ next-other x ne' nq;
        }

  chain_loop-IsGrown :
      (fuel now size : ℕ) (s : State S) (old : Ptr) (ps : List Ptr)
      → length ps < fuel
      → size + default_buf_size < 2 ^ 64
      → Suffices now size ps
      → old ≢ null
      → (s.bufs old).next ≡ null
      → NotIn old ps
      → Distinct ps
      → Supplies s.manager ps
      → (t : State S) × (chain_loop fuel now size s old ≡ ok t) × IsGrown s old ps t
  unfolding chain_loop new_buffer
  chain_loop-IsGrown zero now size s old ps few small enough real last out distinct supplies =
      absurd (omega arith)
  chain_loop-IsGrown (suc fuel) now size s old [] few small enough real last out distinct supplies =
      let test : ltb now size ≡ false = ground arith in
      (
        s,
        rw test refl,
        record { linked = last; old_same = refl; empties = tt; frame = λ x n o. refl },
      )
  chain_loop-IsGrown (suc fuel) now size s old (q ∷ qs) few small (less, enough) real last (ne, out)
        (other, distinct) (m, alloc, q_real, supplies) =
      let test : ltb now size ≡ true = ground arith in
      let q_test : (q == null) ≡ false = ground arith in
      let test' : (old == null) ≡ false = ground arith in
      let exact : (now + default_buf_size) % 2 ^ 64 ≡ now + default_buf_size = omega arith in
      let (t, run, g) =
        chain_loop-IsGrown fuel (now + default_buf_size) size (next s m old q ne) q qs (omega arith)
          small enough q_real (ap (λ (b : Buf). b.next) (next-q s m old q ne)) other distinct
          supplies in
      (t, rw (test, alloc, q_test, test', exact) run, grown s m old q ne qs t out g)

  -- The first buffer, marked as the head.
  abbrev first : State S → S → Ptr → State S
  first s m p =
      let t : State S = store (record s { manager = m }) p (empty_buf (s.bufs p)) in
      store t p (record (t.bufs p) { head = 1 })

  first-p :
      (s : State S) (m : S) (p : Ptr)
      → (first s m p).bufs p ≡ record (empty_buf (s.bufs p)) { head = 1 }
  first-p s m p =
      let t = update s.bufs p (empty_buf (s.bufs p)) in
      update_self t p (record (t p) { head = 1 })
      ∙ ap (λ (b : Buf). record b { head = 1 }) (update_self s.bufs p (empty_buf (s.bufs p)))

  first-other : (s : State S) (m : S) (p x : Ptr) → x ≢ p → (first s m p).bufs x ≡ s.bufs x
  first-other s m p x ne =
      let t = update s.bufs p (empty_buf (s.bufs p)) in
      update_ne t p x (record (t p) { head = 1 }) (λ e. ne (sym e))
      ∙ update_ne s.bufs p x (empty_buf (s.bufs p)) (λ e. ne (sym e))

  -- What a call leaves: the buffers `ps` behind `p` in a chain of their own, all of them empty.
  pub record IsChain (s : State S) (p : Ptr) (ps : List Ptr) (t : State S) : Type 0 where
    pub linked : Linked t.bufs (p ∷ ps)
    pub empties : AllEmpty t.bufs (p ∷ ps)
    pub head : (t.bufs p).head ≡ 1
    pub frame : (x : Ptr) → NotIn x (p ∷ ps) → t.bufs x ≡ s.bufs x

  grown-IsChain :
      (s : State S) (m : S) (p : Ptr) (ps : List Ptr) (t : State S)
      → IsGrown (first s m p) p ps t
      → IsChain s p ps t
  grown-IsChain s m p ps t g =
      let same =
        g.old_same ∙ ap (λ (b : Buf). record b { next = (t.bufs p).next }) (first-p s m p) in
      record {
        linked = g.linked;
        empties = (
          (
            ap (λ (b : Buf). b.pos) same,
            ap (λ (b : Buf). b.last) same,
            ap (λ (b : Buf). b.end) same,
          ),
          g.empties,
        );
        head = ap (λ (b : Buf). b.head) same;
        frame = λ x (ne, out). g.frame x ne out ∙ first-other s m p x ne;
      }

  -- lt_new_buffer_chain for a size with no wrap-around, where the manager supplies the buffers `p` and `ps`:
  -- if `ps` is as many as the size needs beyond the first, DEFAULT_BUF_SIZE bytes for each,
  -- the call returns `p`, the buffers are linked in order, each is empty with its whole
  -- room, the first is marked as the head, and no other buffer is touched.
  new_buffer_chain-IsChain :
      (size : ℕ) (s : State S) (p : Ptr) (ps : List Ptr)
      → size + default_buf_size < 2 ^ 64
      → Suffices default_buf_size size ps
      → Distinct (p ∷ ps)
      → Supplies s.manager (p ∷ ps)
      → (t : State S) × (new_buffer_chain size s ≡ ok (t, p)) × IsChain s p ps t
  unfolding new_buffer_chain
  new_buffer_chain-IsChain size s p [] small enough (out, distinct) (m, alloc, real, supplies) =
      let test : (p == null) ≡ false = ground arith in
      let short : ltb default_buf_size size ≡ false = ground arith in
      let last = ap (λ (b : Buf). b.next) (first-p s m p) in
      (
        first s m p,
        rw (alloc, test, short, test) refl,
        grown-IsChain s m p [] (first s m p)
            (record { linked = last; old_same = refl; empties = tt; frame = λ x n o. refl }),
      )
  new_buffer_chain-IsChain size s p (q ∷ qs) small (less, enough) (out, distinct)
        (m, alloc, real, supplies) =
      let test : (p == null) ≡ false = ground arith in
      let long : ltb default_buf_size size ≡ true = ground arith in
      let count = Suffices-length default_buf_size size (q ∷ qs) (less, enough) in
      let (t, run, g) =
        chain_loop-IsGrown (size + 1) default_buf_size size (first s m p) p (q ∷ qs)
          (omega (arith, count)) small (less, enough) real
          (ap (λ (b : Buf). b.next) (first-p s m p)) out distinct supplies in
      (t, rw (alloc, test, long, run, test) refl, grown-IsChain s m p (q ∷ qs) t g)
