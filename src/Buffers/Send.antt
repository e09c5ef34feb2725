-- ===== src/Buffers/Send.antt =====
-- buffer_op_lea.c: send_buffers. The loop behind a write takes the address of a buffer's bytes for that of the
-- buffer, which it is while the buffer's `pos` is at its `start`, the first member; otherwise the outcome is
-- undefined, as it is where `cur_buf` is not set, and at the end of that loop, which the compiler is told
-- not to reach.
mod Laws
mod Tests
use leactor.Prelude.{
  ℕ, zero, suc, ◌+◌, ◌-◌, ◌%◌, ◌^◌, ℤ, pos, negsuc, Ptr, null, ◌==◌, ◌||◌, if◌then◌else◌, ltb, Bool,
  List, [], ◌∷◌, Run, ok, undefined, out_of_fuel, ◌>>=◌, Option, some, none, update, leb,
}
use leactor.Parse.{lok, lerror, lagain}
use leactor.Chains.{Written, wrote, would_block, broken_pipe, failed}
use leactor.Buffers.{Buf}
use leactor.Request.{int32}
use leactor.Buffers.Recv.{lclose}

-- A stretch of bytes: the buffer, the first index and the length.
pub record Stretch : Type 0 where
  pub buf : Ptr
  pub start : ℕ
  pub length : ℕ

pub record Writer (K : Type 0) : Type 0 where
  pub writev : K → List Stretch → Written × K

abbrev pub stretch : Ptr → Buf → Stretch
stretch p b = record { buf = p; start = b.pos; length = (b.last + (2 ^ 64 - b.pos)) % 2 ^ 64 }

-- The loop that counts the buffers, on `fuel` rounds.
count : (fuel : ℕ) → (Ptr → Buf) → (out_buf : Ptr) → (iov_i : ℕ) → Run ℕ
count zero bufs out_buf iov_i = out_of_fuel
count (suc fuel) bufs out_buf iov_i =
    let rest = count fuel bufs (bufs out_buf).next (suc iov_i) in
    if out_buf == null then ok iov_i else rest

-- The loop that fills `out_vector`.
gather : (iov_i : ℕ) → (Ptr → Buf) → (buf : Ptr) → Run (List Stretch)
gather zero bufs buf = ok []
gather (suc i) bufs buf =
    let rest = gather i bufs (bufs buf).next >>= λ vec. ok (stretch buf (bufs buf) ∷ vec) in
    if buf == null then undefined else rest

-- `x < y` for two numbers of type `int`, by their bit patterns.
abbrev less : (x y : ℕ) → Bool
less x y = ltb ((x + 2 ^ 31) % 2 ^ 32) ((y + 2 ^ 31) % 2 ^ 32)

-- `cur_buf->pos += remain`, where `cur_buf` may not be set.
abbrev pub add_remain : (Ptr → Buf) → (cur_buf : Option Ptr) → (remain : ℕ) → Run ((Ptr → Buf) × ℤ)
add_remain bufs none remain = undefined
add_remain bufs (some c) remain =
    ok (update bufs c (record (bufs c) { pos = (bufs c).pos + remain }), lagain)

-- The loop after a write, on the bit patterns of the two `int`s.
settle : (Ptr → Buf) → (cur_buf : Option Ptr) → (remain : ℕ) → List Stretch → Run ((Ptr → Buf) × ℤ)
settle bufs cur_buf remain [] = undefined
settle bufs cur_buf remain (s ∷ vec) =
    let iov_len = int32 s.length in
    let b = bufs s.buf in
    let rest =
      settle (update bufs s.buf (record b { pos = b.pos + iov_len })) (some s.buf)
        (remain - iov_len) vec in
    let passed = if leb (2 ^ 31) iov_len || ltb 0 s.start then undefined else rest in
    if less iov_len remain
    then passed
    else if less remain iov_len
    then add_remain bufs cur_buf remain
    else ok (bufs, lok)

-- What follows the call of writev.
answer : (Ptr → Buf) → List Stretch → Written → Run ((Ptr → Buf) × ℤ)
answer bufs vec (wrote n) = if n == 0 then ok (bufs, lclose) else settle bufs none (int32 n) vec
answer bufs vec would_block = ok (bufs, lagain)
answer bufs vec broken_pipe = ok (bufs, lclose)
answer bufs vec failed = ok (bufs, lerror)

module _ {K : Type 0} ⦃writer : Writer K⦄ where
  -- send_buffers: the buffers, the returned value and the descriptor. For a chain of buffers one round more than
  -- there are of them is enough.
  unfoldable pub send_buffers :
      (fuel : ℕ) → (Ptr → Buf) → (out_buf : Ptr) → K → Run ((Ptr → Buf) × ℤ × K)
  unfolding count gather answer settle
  send_buffers fuel bufs out_buf k =
      let sent = count fuel bufs out_buf 0 >>= λ n. gather n bufs out_buf >>= λ vec.
      let (written, after) = writer.writev k vec in
      answer bufs vec written >>= λ (t, code). ok (t, code, after) in
      if out_buf == null
      then ok (bufs, pos 0, k)
      else if (bufs out_buf).pos == (bufs out_buf).last
      then ok (bufs, pos 0, k)
      else sent
