-- ===== src/Http/Construct/Request.antt =====
-- The chain that http_construct_request_chains makes of a request.
use leactor.Prelude.{
  ℕ, suc, ◌+◌, ◌*◌, ◌^◌, ◌<◌, ◌≡◌, ◌≢◌, refl, sym, ap, ◌∙◌, Ptr, null, arith, true, false, ◌==◌,
  List, [], ◌∷◌, length, update, update_self, update_ne, ok, last_or, first_or, NotIn, Distinct,
}
use leactor.Buffers.{Allocator}
use leactor.Buffers.Chain.{Supplies}
use leactor.Chains.{Chain, Chains, gather}
use leactor.Request.{int32}
use leactor.Http.{Str, Parts, Element, size_of_int}
use leactor.Http.Line.{IsDivided}
use leactor.Http.Headers.Text.{Field, header_length}
use leactor.Http.Headers.Whole.{Listed}
use leactor.Http.Construct.{Build, put, put_next, construct_request_chains}
use leactor.Http.Construct.Fields.{
  size_exact, gather-cons, field_pieces, gather-chain_len, fields-Gathers,
}

-- The pieces of a request at `pos`: the name, the URI and the version, each with what stands behind it, and the fields.
abbrev pub request_pieces : (pos : Ptr) → (name path : ℕ) → List Field → List (Ptr × ℕ)
request_pieces pos name path fs =
    (pos, name + 1)
    ∷ (pos + name + 1, path + 2)
    ∷ (pos + name + path + 3, 10)
    ∷ field_pieces (pos + name + path + 13) fs

abbrev with_text : Chain → Str → ℕ → Chain
with_text c s more = record c {
  iov_base = s.start;
  iov_len = size_of_int (int32 (s.length + more));
}

-- The three pieces of the line, and the chains behind it.
module _ (before : Chains) (c0 c1 c2 : Ptr) (method uri version : Str) (ne01 : c0 ≢ c1)
    (ne02 : c0 ≢ c2) (ne12 : c1 ≢ c2) where
  abbrev line : Chains
  line =
      let first = put before c0 method 1 in
      let second = put (put_next first c0 c1) c1 uri 1 in put (put_next second c1 c2) c2 version 2

  line-pieces :
      (line c0 ≡ record (with_text (before c0) method 1) { next = c1 })
      × (line c1 ≡ record (with_text (before c1) uri 1) { next = c2 })
      × (line c2 ≡ with_text (before c2) version 2)
  unfolding update
  line-pieces =
      let self : (x : Ptr) → (x == x) ≡ true = λ x. ground arith in
      let a : (c0 == c1) ≡ false = ground arith in
      let b : (c0 == c2) ≡ false = ground arith in
      let c : (c1 == c2) ≡ false = ground arith in
      let a' : (c1 == c0) ≡ false = ground arith in
      let b' : (c2 == c0) ≡ false = ground arith in
      let c' : (c2 == c1) ≡ false = ground arith in
      (rw (b', a', self c0) refl, rw (c', self c1, a) refl, rw (self c2, c, b) refl)

-- The vector from the first piece on, where later writes keep the pieces of the line.
module _ (before after : Chains) (c0 c1 c2 : Ptr) (parts : Parts) (version : Str)
    (pos name path : ℕ) (ne01 : c0 ≢ c1) (ne02 : c0 ≢ c2) (ne12 : c1 ≢ c2) (some0 : c0 ≢ null)
    (some1 : c1 ≢ null) (some2 : c2 ≢ null) (d : IsDivided pos name path parts)
    (v : version ≡ record { start = pos + name + path + 3; length = 8 })
    (small : name + path + 2 < 2 ^ 31) where
  abbrev of_line : Chains
  of_line = line before c0 c1 c2 parts.method_name parts.uri version ne01 ne02 ne12

  line-gathers :
      (k : ℕ) (vec : List (Ptr × ℕ)) (end next : Ptr)
      → after c0 ≡ of_line c0
      → after c1 ≡ of_line c1
      → after c2 ≡ record (of_line c2) { next = next }
      → gather k after next ≡ ok (vec, end)
      → gather (suc (suc (suc k))) after c0
        ≡ ok ((pos, name + 1) ∷ (pos + name + 1, path + 2) ∷ (pos + name + path + 3, 10) ∷ vec, end)
  line-gathers k vec end next e0 e1 e2 rest =
      let (l0, l1, l2) =
        line-pieces before c0 c1 c2 parts.method_name parts.uri version ne01 ne02 ne12 in
      gather-cons (suc (suc k)) after c0 pos (name + 1) _ end some0
        (rw (e0, l0, d.method_name) refl)
        (rw (e0, l0, d.method_name) (size_exact name 1 (omega arith)))
        (rw (e0, l0)
          (gather-cons (suc k) after c1 (pos + name + 1) (path + 2) _ end some1
            (rw (e1, l1, d.uri) refl)
            (rw (e1, l1, d.uri) (size_exact (path + 1) 1 (omega arith) ∙ omega arith))
            (rw (e1, l1)
              (gather-cons k after c2 (pos + name + path + 3) 10 _ end some2 (rw (e2, l2, v) refl)
                (rw (e2, l2, v) (size_exact 8 2 (omega arith))) (rw e2 rest)))))

module _ {S : Type 0} ⦃a : Allocator S⦄ (elements : Ptr → Element) where
  -- http_construct_request_chains, for a request line that is divided at `pos` and has its version behind
  -- the URI, and the elements of the fields that follow, with free pieces for all of them and lengths
  -- in the range of `int`: it returns within as many rounds as there are fields, with a chain whose
  -- chain_len and links make send_chains write, in this order and without a gap, the name, the
  -- URI and the version with the bytes between them, and each field with its CR LF; with the last
  -- field goes the blank line, which is missing if there are no fields.
  pub construct_request_chains-gathers :
      (parts : Parts) (version : Str) (pos name path : ℕ) (fs : List Field) (ps cs : List Ptr)
      (c0 : Ptr) (u : Build S)
      → IsDivided pos name path parts
      → version ≡ record { start = pos + name + path + 3; length = 8 }
      → Listed elements (pos + name + path + 13) fs ps
      → length ps ≡ length fs
      → NotIn null ps
      → Distinct ps
      → Supplies u.manager (c0 ∷ cs)
      → Distinct (c0 ∷ cs)
      → length cs ≡ 2 * length fs + 2
      → name + path + 2 < 2 ^ 31
      → header_length fs < 2 ^ 31
      → (w : Build S) × (construct_request_chains
            (length fs)
            parts
            version
            elements
            (first_or null ps)
            (last_or null ps)
            u
          ≡ ok (w, c0))
        × ((w.chains c0).chain_len ≡ 2 * length fs + 3)
        × (end : Ptr) × (gather (2 * length fs + 3) w.chains c0
            ≡ ok (request_pieces pos name path fs, end))
  unfolding construct_request_chains gather
  construct_request_chains-gathers parts version pos name path [] [] (c1 ∷ c2 ∷ []) c0 u d v listed
        len some distinct supply apart count small short =
      let (m0, s0, some0, (m1, s1, some1, (m2, s2, some2, _))) = supply in
      let there0 : (c0 == null) ≡ false = ground arith in
      let there1 : (c1 == null) ≡ false = ground arith in
      let there2 : (c2 == null) ≡ false = ground arith in
      let l =
        line u.chains c0 c1 c2 parts.method_name parts.uri version apart.0.0 apart.0.1.0
          apart.1.0.0 in
      (
        record { manager = m2; chains = update l c0 (record (l c0) { chain_len = 3 }) },
        rw (s0, there0, s1, there1, s2, there2) refl,
        ap (λ (c : Chain). c.chain_len) (update_self l c0 (record (l c0) { chain_len = 3 })),
        (l c2).next,
        gather-chain_len 3 l c0 c0 3
            ∙ line-gathers u.chains l c0 c1 c2 parts version pos name path apart.0.0 apart.0.1.0
                apart.1.0.0 some0 some1 some2 d v small 0 [] (l c2).next (l c2).next refl refl refl
                refl,
      )
  construct_request_chains-gathers parts version pos name path (f ∷ fs) (p ∷ ps) (c1 ∷ c2 ∷ c3 ∷ cs)
        c0 u d v listed len some distinct supply apart count small short =
      let (m0, s0, some0, (m1, s1, some1, (m2, s2, some2, (m3, s3, some3, rest)))) = supply in
      let there0 : (c0 == null) ≡ false = ground arith in
      let there1 : (c1 == null) ≡ false = ground arith in
      let there2 : (c2 == null) ≡ false = ground arith in
      let there3 : (c3 == null) ≡ false = ground arith in
      let there : (p == null) ≡ false = let ne = some.0 in ground arith in
      let l =
        line u.chains c0 c1 c2 parts.method_name parts.uri version apart.0.0 apart.0.1.0
          apart.1.0.0 in
      let (w, run, g) =
        fields-Gathers elements (record { manager = m3; chains = put_next l c2 c3 }) c3 p ps cs 3
          (pos + name + path + 13) f fs listed (omega (arith, len)) some distinct some3 rest
          apart.1.1.1 (omega (arith, count)) short in
      let n = suc (suc (suc (2 * suc (length fs)))) in
      let total : 2 * suc (length fs) + 3 ≡ n = omega arith in
      let total' : 3 + 2 * suc (length fs) ≡ n = omega arith in
      let (end, vector) = g.vector in
      (
        record w { chains = update w.chains c0 (record (w.chains c0) { chain_len = n }) },
        rw (s0, there0, s1, there1, s2, there2, there, s3, there3, run, total') refl,
        ap (λ (c : Chain). c.chain_len)
              (update_self w.chains c0 (record (w.chains c0) { chain_len = n }))
            ∙ sym total,
        end,
        rw total (
            gather-chain_len n w.chains c0 c0 n
            ∙ line-gathers u.chains w.chains c0 c1 c2 parts version pos name path apart.0.0
                apart.0.1.0 apart.1.0.0 some0 some1 some2 d v small (2 * suc (length fs)) _ end c3
                (g.frame c0 apart.0.1.1 ∙ update_ne l c2 c0 _ (λ e. apart.0.1.0 (sym e)))
                (g.frame c1 apart.1.0.1 ∙ update_ne l c2 c1 _ (λ e. apart.1.0.0 (sym e)))
                (g.frame c2 apart.1.1.0 ∙ update_self l c2 _) vector),
      )
  construct_request_chains-gathers parts version pos name path fs ps cs c0 u d v listed len some
        distinct supply apart count small short =
      absurd (omega (arith, len, count))
