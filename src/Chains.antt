-- ===== src/Chains.antt =====
-- buffer_op_lea.c: send_chains, which writes a chain of pieces of text to a descriptor. A piece is known by
-- the address of its lt_chain_t. What writev answers is an interface.
pub mod Send
mod Tests
use leactor.Prelude.{
  ℕ, zero, suc, ◌+◌, ◌-◌, ◌%◌, ◌^◌, ℤ, pos, negsuc, Ptr, null, ◌==◌, if◌then◌else◌, ltb, List, [],
  ◌∷◌, update, Run, ok, undefined, out_of_fuel, ◌>>=◌, leb,
}
use leactor.Request.{int32}
use leactor.Parse.{lok, lerror, lagain}
use leactor.Buffers.Recv.{lclose}

-- lt_chain_t, with its iovec in two fields.
pub record Chain : Type 0 where
  pub iov_base : Ptr
  pub iov_len : ℕ
  pub next : Ptr
  pub chain_len : ℕ

abbrev pub Chains : Type 0
Chains = Ptr → Chain

-- What writev answers: how many bytes it has written, or -1 with EAGAIN, EPIPE or another error.
pub data Written : Type 0 where
  wrote : ℕ → Written
  would_block broken_pipe failed : Written

pub record Sink (K : Type 0) : Type 0 where
  pub writev : K → List (Ptr × ℕ) → Written × K

-- The outcome of send_chains: the chains, `*out_chain`, the sink and the returned value.
pub record Sent (K : Type 0) : Type 0 where
  pub chains : Chains
  pub out_chain : Ptr
  pub sink : K
  pub code : ℤ

-- The loop that fills `out_vec`: the vector, and where `cur_chain` stands behind it.
unfoldable pub gather : (chain_len : ℕ) → Chains → (cur_chain : Ptr) → Run (List (Ptr × ℕ) × Ptr)
gather zero chains cur_chain = ok ([], cur_chain)
gather (suc i) chains cur_chain =
    let c = chains cur_chain in
    let rest = gather i chains c.next >>= λ (vec, end). ok ((c.iov_base, c.iov_len) ∷ vec, end) in
    if cur_chain == null then undefined else rest

-- `chain_len--` on the bit pattern of an `int`.
abbrev minus_one : ℕ → ℕ
minus_one n = (n + 4294967295) % 2 ^ 32

-- The loop over the pieces after a write of `rv` bytes, on `fuel` rounds: the chains and the returned
-- value. `cur_chain` still stands behind the vector. The local `iov_len` is an `int`: from 2 ^ 31 on
-- its bit pattern stands for a negative number, `below` less than 0, which is less than `rv`.
advance : (fuel : ℕ) → Chains → (cur cur_chain : Ptr) → (rv chain_len : ℕ) → Run (Chains × ℤ)
advance zero chains cur cur_chain rv chain_len = out_of_fuel
advance (suc fuel) chains cur cur_chain rv chain_len =
    let c = chains cur in
    let len = int32 c.iov_len in
    let below = 2 ^ 32 - len in
    let grown = update chains cur (record c { iov_len = (c.iov_len + below) % 2 ^ 64 }) in
    let grow = advance fuel grown c.next cur_chain (rv + below) (minus_one chain_len) in
    let passed = update chains cur (record c { iov_len = c.iov_len - len }) in
    let pass = advance fuel passed c.next cur_chain (rv - len) (minus_one chain_len) in
    let moved =
      update chains cur (record c { iov_base = c.iov_base + len; iov_len = c.iov_len - rv }) in
    let last = advance fuel moved c.next cur_chain 0 (minus_one chain_len) in
    let part =
      if cur_chain == null
      then undefined
      else ok
          (update moved cur_chain (record (moved cur_chain) { chain_len = chain_len }), lagain) in
    if cur == null
    then ok (chains, lok)
    else if leb (2 ^ 31) len
    then grow
    else if ltb len rv
    then pass
    else if rv == len
    then last
    else part

module _ {K : Type 0} ⦃sink : Sink K⦄ where
  -- What follows the call of writev. After a write in part, `*out_chain` is `cur_chain`.
  abbrev answer : (fuel : ℕ) → Chains → (out_chain cur_chain : Ptr) → Written × K → Run (Sent K)
  answer fuel chains out_chain cur_chain (wrote n, k) =
      let code_to : ℤ → Ptr = λ code. elim code [ pos m ↦ out_chain | negsuc m ↦ cur_chain ] in
      let sent =
        advance fuel chains out_chain cur_chain n (chains out_chain).chain_len >>= λ (after, code).
        ok (record { chains = after; out_chain = code_to code; sink = k; code = code }) in
      if n == 0
      then ok (record { chains = chains; out_chain = out_chain; sink = k; code = lclose })
      else sent
  answer fuel chains out_chain cur_chain (would_block, k) =
      ok (record { chains = chains; out_chain = cur_chain; sink = k; code = lagain })
  answer fuel chains out_chain cur_chain (broken_pipe, k) =
      ok (record { chains = chains; out_chain = out_chain; sink = k; code = lclose })
  answer fuel chains out_chain cur_chain (failed, k) =
      ok (record { chains = chains; out_chain = out_chain; sink = k; code = lerror })

  -- send_chains. For a chain as long as its `chain_len` says, one round more than that is enough.
  unfoldable pub send_chains : Chains → (out_chain : Ptr) → K → Run (Sent K)
  unfolding gather advance
  send_chains chains out_chain k =
      let n = (chains out_chain).chain_len in
      let sent = gather n chains out_chain >>= λ (vec, cur_chain).
      answer (n + 1) chains out_chain cur_chain (sink.writev k vec) in
      if out_chain == null then undefined else sent
