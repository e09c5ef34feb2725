-- ===== src/Chains/Send.antt =====
-- What send_chains does with every answer of writev.
use leactor.Prelude.{
  ℕ, zero, suc, ◌+◌, ◌-◌, ◌≤◌, ◌<◌, ◌≡◌, ◌≢◌, refl, sym, ap, ◌∙◌, inl, inr, Ptr, null, ◌==◌, ltb,
  true, false, Bool-cases, List, [], ◌∷◌, length, arith, update, update_self, update_ne, Run, ok,
  undefined, NotIn, Distinct, leb, ◌%◌, ◌^◌,
}
use leactor.Parse.{lok, lerror, lagain}
use leactor.Buffers.Recv.{lclose}
use leactor.Chains.{
  Chain, Chains, Written, wrote, would_block, broken_pipe, failed, Sink, Sent, gather, minus_one,
  advance, answer, send_chains,
}

-- The pieces from `p` on, up to NULL.
abbrev pub Linked : Chains → Ptr → List Ptr → Type 0
Linked chains p [] = p ≡ null
Linked chains p (q ∷ qs) = (p ≡ q) × (q ≢ null) × Linked chains (chains q).next qs

-- How many bytes the pieces have.
abbrev pub total : Chains → List Ptr → ℕ
total chains [] = 0
total chains (p ∷ ps) = (chains p).iov_len + total chains ps

-- The lengths are those of an `int`.
abbrev pub AllShort : Chains → List Ptr → Type 0
AllShort chains [] = Unit
AllShort chains (p ∷ ps) = ((chains p).iov_len < 2 ^ 31) × AllShort chains ps

-- What writev is given.
abbrev pub vector : Chains → List Ptr → List (Ptr × ℕ)
vector chains [] = []
vector chains (p ∷ ps) = ((chains p).iov_base, (chains p).iov_len) ∷ vector chains ps

-- No byte of the pieces is left.
abbrev pub IsSpent : Chains → List Ptr → Type 0
IsSpent chains [] = Unit
IsSpent chains (p ∷ ps) = ((chains p).iov_len ≡ 0) × IsSpent chains ps

gather-vector :
    (chains : Chains) (p : Ptr) (ps : List Ptr)
    → Linked chains p ps
    → gather (length ps) chains p ≡ ok (vector chains ps, null)
unfolding gather
gather-vector chains p [] e = rw e refl
gather-vector chains p (q ∷ qs) (e, real, rest) =
    let test : (q == null) ≡ false = ground arith in
    rw (e, test, gather-vector chains (chains q).next qs rest) refl

module _ (chains : Chains) (q : Ptr) (c : Chain) where
  total-other : (ps : List Ptr) → NotIn q ps → total (update chains q c) ps ≡ total chains ps
  total-other [] out = refl
  total-other (p ∷ ps) (ne, out) = rw (update_ne chains q p c ne, total-other ps out) refl

  Linked-other :
      (p : Ptr) (ps : List Ptr) → NotIn q ps → Linked chains p ps → Linked (update chains q c) p ps
  Linked-other p [] out h = h
  Linked-other p (x ∷ xs) (ne, out) (e, real, rest) =
      (e, real, rw (update_ne chains q x c ne) (Linked-other (chains x).next xs out rest))

  AllShort-other :
      (ps : List Ptr) → NotIn q ps → AllShort chains ps → AllShort (update chains q c) ps
  AllShort-other [] out h = tt
  AllShort-other (p ∷ ps) (ne, out) h =
      (rw (update_ne chains q p c ne) h.0, AllShort-other ps out h.1)

-- The pieces are spent and nothing else differs.
pub record IsPassed (chains : Chains) (ps : List Ptr) (t : Chains) : Type 0 where
  pub spent : IsSpent t ps
  pub frame : (x : Ptr) → NotIn x ps → t x ≡ chains x

passed :
    (chains : Chains) (q : Ptr) (qs : List Ptr) (c : Chain) (t : Chains)
    → NotIn q qs
    → c.iov_len ≡ 0
    → IsPassed (update chains q c) qs t
    → IsPassed chains (q ∷ qs) t
passed chains q qs c t out none h = record {
  spent = (ap (λ (x : Chain). x.iov_len) (h.frame q out ∙ update_self chains q c) ∙ none, h.spent);
  frame = λ x (ne, out'). h.frame x out' ∙ update_ne chains q x c (λ e. ne (sym e));
}

-- One round at a piece whose length is that of an `int`.
module _ (fuel : ℕ) (chains : Chains) (q : Ptr) (rv len : ℕ) (real : q ≢ null)
    (short : (chains q).iov_len < 2 ^ 31) where
  abbrev piece : Chain
  piece = chains q

  test : (q == null) ≡ false
  test = ground arith

  same : piece.iov_len % 2 ^ 32 ≡ piece.iov_len
  same = omega (arith, short)

  positive : leb (2 ^ 31) piece.iov_len ≡ false
  positive = ground (arith, short)

  advance_more :
      ltb piece.iov_len rv ≡ true
      → advance (suc fuel) chains q null rv len
        ≡ advance fuel
            (update chains q (record piece { iov_len = piece.iov_len - piece.iov_len }))
            piece.next
            null
            (rv - piece.iov_len)
            (minus_one len)
  unfolding advance
  advance_more more = rw (test, same, positive, more) refl

  advance_exact :
      ltb piece.iov_len rv ≡ false
      → (rv == piece.iov_len) ≡ true
      → advance (suc fuel) chains q null rv len
        ≡ advance fuel
            (update chains q (record piece {
              iov_base = piece.iov_base + piece.iov_len;
              iov_len = piece.iov_len - rv;
            }))
            piece.next
            null
            0
            (minus_one len)
  unfolding advance
  advance_exact enough exact = rw (test, same, positive, enough, exact) refl

  advance_part :
      ltb piece.iov_len rv ≡ false
      → (rv == piece.iov_len) ≡ false
      → advance (suc fuel) chains q null rv len ≡ undefined
  unfolding advance
  advance_part enough part = rw (test, same, positive, enough, part) refl

advance-IsPassed :
    (fuel : ℕ) (chains : Chains) (p : Ptr) (ps : List Ptr) (rv len : ℕ)
    → length ps < fuel
    → Linked chains p ps
    → Distinct ps
    → AllShort chains ps
    → total chains ps ≤ rv
    → (t : Chains) × (advance fuel chains p null rv len ≡ ok (t, lok)) × IsPassed chains ps t
unfolding advance
advance-IsPassed zero chains p ps rv len few linked distinct short all = absurd (omega arith)
advance-IsPassed (suc fuel) chains p [] rv len few e distinct short all =
    (chains, rw e refl, record { spent = tt; frame = λ x out. refl })
advance-IsPassed (suc fuel) chains p (q ∷ qs) rv len few (e, real, rest) (out, distinct) short all =
    let c = chains q in
    elim (Bool-cases (ltb c.iov_len rv)) [
      | inl more ↦
          let c' = record c { iov_len = c.iov_len - c.iov_len } in
          let (t, run, h) =
            advance-IsPassed fuel (update chains q c') c.next qs (rv - c.iov_len) (minus_one len)
              (omega arith) (Linked-other chains q c' c.next qs out rest) distinct
              (AllShort-other chains q c' qs out short.1)
              (rw (total-other chains q c' qs out) (omega arith)) in
          (
            t,
            rw e (advance_more fuel chains q rv len real short.0 more ∙ run),
            passed chains q qs c' t out (omega arith) h,
          )
      | inr enough ↦
          let exact : (rv == c.iov_len) ≡ true = ground arith in
          let c' = record c { iov_base = c.iov_base + c.iov_len; iov_len = c.iov_len - rv } in
          let (t, run, h) =
            advance-IsPassed fuel (update chains q c') c.next qs 0 (minus_one len) (omega arith)
              (Linked-other chains q c' c.next qs out rest) distinct
              (AllShort-other chains q c' qs out short.1)
              (rw (total-other chains q c' qs out) (ground arith)) in
          (
            t,
            rw e (advance_exact fuel chains q rv len real short.0 enough exact ∙ run),
            passed chains q qs c' t out (ground arith) h,
          )
    ]

advance-undefined :
    (fuel : ℕ) (chains : Chains) (p : Ptr) (ps : List Ptr) (rv len : ℕ)
    → length ps < fuel
    → Linked chains p ps
    → Distinct ps
    → AllShort chains ps
    → rv < total chains ps
    → advance fuel chains p null rv len ≡ undefined
unfolding advance
advance-undefined zero chains p ps rv len few linked distinct short less = absurd (omega arith)
advance-undefined (suc fuel) chains p [] rv len few e distinct short less = absurd (omega arith)
advance-undefined (suc fuel) chains p (q ∷ qs) rv len few (e, real, rest) (out, distinct) short
      less =
    let c = chains q in
    elim (Bool-cases (ltb c.iov_len rv)) [
      | inl more ↦
          let c' = record c { iov_len = c.iov_len - c.iov_len } in
          rw e (
            advance_more fuel chains q rv len real short.0 more
            ∙ advance-undefined fuel (update chains q c') c.next qs (rv - c.iov_len) (minus_one len)
                (omega arith) (Linked-other chains q c' c.next qs out rest) distinct
                (AllShort-other chains q c' qs out short.1)
                (rw (total-other chains q c' qs out) (ground arith)))
      | inr enough ↦ elim (Bool-cases (rv == c.iov_len)) [
        | inl exact ↦
            let c' = record c { iov_base = c.iov_base + c.iov_len; iov_len = c.iov_len - rv } in
            rw e (
              advance_exact fuel chains q rv len real short.0 enough exact
              ∙ advance-undefined fuel (update chains q c') c.next qs 0 (minus_one len)
                  (omega arith) (Linked-other chains q c' c.next qs out rest) distinct
                  (AllShort-other chains q c' qs out short.1)
                  (rw (total-other chains q c' qs out) (ground arith)))
        | inr part ↦ rw e (advance_part fuel chains q rv len real short.0 enough part)
      ]
    ]

module _ {K : Type 0} where
  -- What the caller of send_chains finds for an answer of writev.
  abbrev pub Outcome : Chains → Ptr → List Ptr → Written × K → Run (Sent K) → Type 0
  Outcome chains p ps (wrote n, k) run =
      (n ≡ 0 → run ≡ ok (record { chains = chains; out_chain = p; sink = k; code = lclose }))
      × (0 < n
          → total chains ps ≤ n
          → (t : Chains) × (run ≡ ok (record { chains = t; out_chain = p; sink = k; code = lok }))
            × IsPassed chains ps t)
      × (0 < n → n < total chains ps → run ≡ undefined)
  Outcome chains p ps (would_block, k) run =
      run ≡ ok (record { chains = chains; out_chain = null; sink = k; code = lagain })
  Outcome chains p ps (broken_pipe, k) run =
      run ≡ ok (record { chains = chains; out_chain = p; sink = k; code = lclose })
  Outcome chains p ps (failed, k) run =
      run ≡ ok (record { chains = chains; out_chain = p; sink = k; code = lerror })

module _ {K : Type 0} ⦃sink : Sink K⦄ where
  answer-Outcome :
      (chains : Chains) (p : Ptr) (ps : List Ptr) (r : Written × K)
      → (chains p).chain_len ≡ length ps
      → Linked chains p ps
      → Distinct ps
      → AllShort chains ps
      → Outcome chains p ps r (answer (length ps + 1) chains p null r)
  answer-Outcome chains p ps (wrote n, k) count linked distinct short = (
    λ none. let test : (n == 0) ≡ true = ground arith in rw test refl,
    λ some all.
        let test : (n == 0) ≡ false = ground arith in
        let (t, run, h) =
          advance-IsPassed (length ps + 1) chains p ps n (chains p).chain_len (omega arith) linked
            distinct short all in
        (t, rw (test, run) refl, h),
    λ some part.
        let test : (n == 0) ≡ false = ground arith in
        rw
          (
            test,
            advance-undefined (length ps + 1) chains p ps n (chains p).chain_len (omega arith)
                linked distinct short part,
          )
          refl,
  )
  answer-Outcome chains p ps (would_block, k) count linked distinct short = refl
  answer-Outcome chains p ps (broken_pipe, k) count linked distinct short = refl
  answer-Outcome chains p ps (failed, k) count linked distinct short = refl

  -- send_chains of a chain that ends with NULL and is as long as its `chain_len`, with lengths below
  -- 2 ^ 31, for every answer of writev: when all of its bytes are written it answers LOK and no byte of the chain is left; when
  -- nothing is written, LCLOSE; when only a part is, it writes through the NULL behind the
  -- chain; EPIPE gives LCLOSE and other errors LERROR, the chain untouched; and with EAGAIN it
  -- answers LAGAIN, the chain untouched but the caller's pointer to it set to NULL.
  pub send_chains-Outcome :
      (chains : Chains) (p : Ptr) (ps : List Ptr) (k : K)
      → p ≢ null
      → (chains p).chain_len ≡ length ps
      → Linked chains p ps
      → Distinct ps
      → AllShort chains ps
      → Outcome chains p ps (sink.writev k (vector chains ps)) (send_chains chains p k)
  unfolding send_chains
  send_chains-Outcome chains p ps k real count linked distinct short =
      let test : (p == null) ≡ false = ground arith in
      let answered =
        answer-Outcome chains p ps (sink.writev k (vector chains ps)) count linked distinct short in
      rw (test, count, gather-vector chains p ps linked) answered
