-- ===== src/Buffers.antt =====
-- buffer_op_lea.c: the buffers that bytes are received into. A buffer is known by its address; its `pos`,
-- `last` and `end` point into its own array `start`, and are the offsets from there. The link back to
-- the manager is left out: there is one manager, which is in the state. Where lt_alloc gets
-- the buffers from is an interface, which the memory pool fills.
pub mod Chain
pub mod Create
pub mod Pooled
pub mod Send
pub mod Recv
mod Tests
use leactor.Prelude.{
  ℕ, zero, suc, ◌+◌, ◌%◌, ◌^◌, Ptr, null, ◌==◌, if◌then◌else◌, ltb, update, Run, ok, undefined,
  out_of_fuel, ◌>>=◌,
}

-- lt_buffer_t
pub record Buf : Type 0 where
  pub text : ℕ → ℕ
  pub pos : ℕ
  pub last : ℕ
  pub end : ℕ
  pub head : ℕ
  pub written : ℕ
  pub next : Ptr

-- DEFAULT_BUF_SIZE
abbrev pub default_buf_size : ℕ
default_buf_size = 16384

-- What lt_alloc is for its clients: the manager after the call, and the address of the element.
pub record Allocator (S : Type 0) : Type 0 where
  pub alloc : S → Run (S × Ptr)

-- The manager and the buffers in memory.
pub record State (S : Type 0) : Type 0 where
  pub manager : S
  pub bufs : Ptr → Buf

-- A buffer as lt_new_buffer leaves it, whatever its array holds.
abbrev pub empty_buf : Buf → Buf
empty_buf b = record b {
  pos = 0;
  last = 0;
  end = default_buf_size;
  head = 0;
  written = 0;
  next = null;
}

module _ {S : Type 0} ⦃a : Allocator S⦄ where
  -- `buf->field = ...`
  abbrev pub store : State S → Ptr → Buf → State S
  store s p b = record s { bufs = update s.bufs p b }

  -- lt_new_buffer
  unfoldable pub new_buffer : State S → Run (State S × Ptr)
  new_buffer s = a.alloc s.manager >>= λ (m, p).
      let t : State S = record s { manager = m } in
      if p == null then ok (t, null) else ok (store t p (empty_buf (s.bufs p)), p)

  -- The loop of lt_new_buffer_chain, on `fuel` rounds.
  chain_loop : (fuel now size : ℕ) → State S → (old_buf : Ptr) → Run (State S)
  chain_loop zero now size s old_buf = out_of_fuel
  chain_loop (suc fuel) now size s old_buf =
      let round = new_buffer s >>= λ (t, new_buf).
      if old_buf == null
      then undefined
      else chain_loop fuel ((now + default_buf_size) % 2 ^ 64) size
          (store t old_buf (record (t.bufs old_buf) { next = new_buf })) new_buf in
      if ltb now size then round else ok s

  -- lt_new_buffer_chain; `size` + 1 rounds are enough.
  unfoldable pub new_buffer_chain : (size : ℕ) → State S → Run (State S × Ptr)
  unfolding chain_loop new_buffer
  new_buffer_chain size s = new_buffer s >>= λ (t, buf).
      let first = store t buf (record (t.bufs buf) { head = 1 }) in
      let more = chain_loop (size + 1) default_buf_size size first buf >>= λ u. ok (u, buf) in
      if buf == null
      then ok (t, null)
      else if ltb default_buf_size size
      then more
      else ok (first, buf)
