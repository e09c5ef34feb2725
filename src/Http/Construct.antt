-- ===== src/Http/Construct.antt =====
-- http_construct_request_chains and construct_response_chains of http.c: the pieces of text that are passed on.
-- The manager is the one that lt_new_memory_pool_manager has just set up. A NULL from lt_alloc is
-- written through at once.
pub mod Fields
pub mod Request
pub mod Response
use leactor.Prelude.{
  ℕ, zero, suc, ◌+◌, ◌%◌, ◌^◌, Ptr, null, ◌==◌, if◌then◌else◌, update, Run, ok, undefined,
  out_of_fuel, ◌>>=◌,
}
use leactor.Request.{int32}
use leactor.Buffers.{Allocator}
use leactor.Chains.{Chain, Chains}
use leactor.Http.{Str, Element, Parts, size_of_int}

-- The pool of the chains and the chains in memory.
pub record Build (S : Type 0) : Type 0 where
  pub manager : S
  pub chains : Chains

-- `p->buf.iov_base = s.data; p->buf.iov_len = s.length + more`
abbrev pub put : Chains → (p : Ptr) → Str → (more : ℕ) → Chains
put chains p s more =
    update chains p
      (record (chains p) { iov_base = s.start; iov_len = size_of_int (int32 (s.length + more)) })

-- `p->next = next`
abbrev pub put_next : Chains → (p next : Ptr) → Chains
put_next chains p next = update chains p (record (chains p) { next = next })

-- `p->buf.iov_len += 2`
abbrev pub add_two : Chains → (p : Ptr) → Chains
add_two chains p =
    update chains p (record (chains p) { iov_len = ((chains p).iov_len + 2) % 2 ^ 64 })

module _ {S : Type 0} ⦃a : Allocator S⦄ where
  abbrev pub new_chain : Build S → Run (Build S × Ptr)
  new_chain u = a.alloc u.manager >>= λ (m, p).
      if p == null then undefined else ok (record u { manager = m }, p)

  -- The loop over the elements, on `fuel` rounds, with the number of the pieces so far: each has a piece for its
  -- name and one for its value.
  unfoldable pub fields :
      (fuel : ℕ)
      → (elements : Ptr → Element) → (tail : Ptr) → Build S
      → (cur element : Ptr) → (chain_len : ℕ) → Run (Build S × ℕ)
  fields zero elements tail u cur element chain_len = out_of_fuel
  fields (suc fuel) elements tail u cur element chain_len =
      let e = elements element in
      let named = record u { chains = put u.chains cur e.key 2 } in
      let rest : Build S → Ptr → Run (Build S × ℕ) = λ v value.
        let chains = put (put_next v.chains cur value) value e.value 2 in
        let more = new_chain (record v { chains = chains }) >>= λ (w, new).
        fields fuel elements tail (record w { chains = put_next w.chains value new }) new e.next
          (chain_len + 2) in
        if element == tail
        then ok (record v { chains = add_two chains value }, chain_len + 2)
        else more in
      if element == null then undefined else new_chain named >>= λ (v, value). rest v value

  -- `first->chain_len = chain_len; return first;`
  abbrev pub finish : (first : Ptr) → Build S × ℕ → Run (Build S × Ptr)
  finish first (u, chain_len) = ok (
    record u { chains = update u.chains first (record (u.chains first) { chain_len = chain_len }) },
    first,
  )

  -- http_construct_request_chains, on `fuel` rounds of its loop.
  unfoldable pub construct_request_chains :
      (fuel : ℕ)
      → Parts
      → (http_protocol : Str) → (elements : Ptr → Element) → (head tail : Ptr) → Build S
      → Run (Build S × Ptr)
  construct_request_chains fuel parts http_protocol elements head tail u =
      new_chain u >>= λ (v, method).
      new_chain (record v { chains = put v.chains method parts.method_name 1 }) >>= λ (w, uri).
      new_chain (record w { chains = put (put_next w.chains method uri) uri parts.uri 1 })
      >>= λ (x, version).
          let line = record x {
            chains = put (put_next x.chains uri version) version http_protocol 2;
          } in
          let more = new_chain line >>= λ (y, field).
          fields fuel elements tail (record y { chains = put_next y.chains version field }) field
            head 3
          >>= finish method in
          if head == null then finish method (line, 3) else more

  -- construct_response_chains, on `fuel` rounds of its loop.
  unfoldable pub construct_response_chains :
      (fuel : ℕ)
      → (status_line : Str) → (elements : Ptr → Element) → (head tail : Ptr) → Build S
      → Run (Build S × Ptr)
  construct_response_chains fuel status_line elements head tail u =
      new_chain u >>= λ (v, out_chain).
      new_chain (record v { chains = put v.chains out_chain status_line 2 }) >>= λ (w, cur).
      fields fuel elements tail (record w { chains = put_next w.chains out_chain cur }) cur head 1
      >>= finish out_chain
