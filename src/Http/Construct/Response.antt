-- ===== src/Http/Construct/Response.antt =====
-- The chain that construct_response_chains makes of a response.
use leactor.Prelude.{
  suc, ◌+◌, ◌*◌, ◌^◌, ◌<◌, ◌≡◌, refl, sym, ap, ◌∙◌, Ptr, null, arith, false, ◌==◌, List, ◌∷◌,
  length, update, update_self, ok, last_or, NotIn, Distinct,
}
use leactor.Buffers.{Allocator}
use leactor.Buffers.Chain.{Supplies}
use leactor.Chains.{Chain, gather}
use leactor.Request.{int32}
use leactor.Http.{Str, Element, size_of_int}
use leactor.Http.Headers.Text.{Field, header_length}
use leactor.Http.Headers.Whole.{Listed}
use leactor.Http.Construct.{Build, put, put_next, construct_response_chains}
use leactor.Http.Construct.Fields.{
  size_exact, gather-cons, gather-chain_len, field_pieces, fields-Gathers,
}

module _ {S : Type 0} ⦃a : Allocator S⦄ (elements : Ptr → Element) where
  -- construct_response_chains, for a status line of `n` bytes and the elements of at least one field, with free
  -- pieces for all of them and lengths in the range of `int`: it returns within as many rounds as
  -- there are fields, with a chain whose chain_len and links make send_chains write, in this order,
  -- the status line with two bytes more, and each field with its CR LF, the last one with the
  -- blank line.
  pub construct_response_chains-gathers :
      (status_line : Str) (pos : Ptr) (f : Field) (fs : List Field) (p : Ptr) (ps : List Ptr)
      (c0 c1 : Ptr) (cs : List Ptr) (u : Build S)
      → Listed elements pos (f ∷ fs) (p ∷ ps)
      → length ps ≡ length fs
      → NotIn null (p ∷ ps)
      → Distinct (p ∷ ps)
      → Supplies u.manager (c0 ∷ c1 ∷ cs)
      → Distinct (c0 ∷ c1 ∷ cs)
      → length cs ≡ 2 * length fs + 1
      → status_line.length + 2 < 2 ^ 31
      → header_length (f ∷ fs) < 2 ^ 31
      → (w : Build S) × (construct_response_chains
            (suc (length fs))
            status_line
            elements
            p
            (last_or p ps)
            u
          ≡ ok (w, c0))
        × ((w.chains c0).chain_len ≡ 2 * length fs + 3)
        × (end : Ptr) × (gather (2 * length fs + 3) w.chains c0
            ≡ ok ((status_line.start, status_line.length + 2) ∷ field_pieces pos (f ∷ fs), end))
  unfolding construct_response_chains
  construct_response_chains-gathers status_line pos f fs p ps c0 c1 cs u listed len some distinct
        supply apart count small short =
      let (m0, s0, some0, (m1, s1, some1, rest)) = supply in
      let there0 : (c0 == null) ≡ false = ground arith in
      let there1 : (c1 == null) ≡ false = ground arith in
      let first = put u.chains c0 status_line 2 in
      let (w, run, g) =
        fields-Gathers elements (record { manager = m1; chains = put_next first c0 c1 }) c1 p ps cs
          1 pos f fs listed len some distinct some1 rest apart.1 count short in
      let n = suc (2 * suc (length fs)) in
      let total : 2 * length fs + 3 ≡ n = omega arith in
      let total' : 1 + 2 * suc (length fs) ≡ n = omega arith in
      let (end, vector) = g.vector in
      let at : w.chains c0 ≡ record (first c0) { next = c1 } =
        g.frame c0 apart.0 ∙ update_self first c0 (record (first c0) { next = c1 }) in
      let piece = record (u.chains c0) {
        iov_base = status_line.start;
        iov_len = size_of_int (int32 (status_line.length + 2));
      } in
      let line : first c0 ≡ piece = update_self u.chains c0 piece in
      (
        record w { chains = update w.chains c0 (record (w.chains c0) { chain_len = n }) },
        rw (s0, there0, s1, there1, run, total') refl,
        ap (λ (c : Chain). c.chain_len)
              (update_self w.chains c0 (record (w.chains c0) { chain_len = n }))
            ∙ sym total,
        end,
        rw total (
            gather-chain_len n w.chains c0 c0 n
            ∙ gather-cons (2 * suc (length fs)) w.chains c0 status_line.start
                (status_line.length + 2) _ end some0 (rw (at, line) refl)
                (rw (at, line) (size_exact status_line.length 2 small)) (rw at vector)),
      )
