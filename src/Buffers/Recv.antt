-- ===== src/Buffers/Recv.antt =====
-- lt_recv of buffer_op_lea.c. The socket is an interface: what recv answers when it is asked for at most
-- `n` bytes.
pub mod Stream
use leactor.Prelude.{
  ℕ, zero, suc, ◌+◌, ◌-◌, ◌≤◌, ◌≡◌, ℤ, pos, negsuc, Ptr, null, ◌==◌, if◌then◌else◌, ltb, List, [],
  ◌∷◌, ◌++◌, length, Run, ok, undefined, out_of_fuel, ◌>>=◌,
}
use leactor.Parse.{lerror, lagain}
use leactor.Buffers.{Buf, Allocator, State, store, new_buffer}
use leactor.Buffers.Chain.{write}

abbrev pub lclose : ℤ
lclose = negsuc 4

-- What a call of recv answers: bytes, where none stand for the 0 of a closed connection, or -1 with
-- EAGAIN or with another error.
pub data Received : Type 0 where
  got : List ℕ → Received
  would_block failed : Received

pub record Socket (K : Type 0) : Type 0 where
  pub recv : K → ℕ → Received × K

-- The documented behaviour of recv on a stream socket, where `rest` is what the peer has sent and is not
-- received yet: it hands out the next bytes, no more than asked for.
module _ {K : Type 0} where
  abbrev pub Delivers : (K → List ℕ) → K → ℕ → Received × K → Type 0
  Delivers rest k n (got xs, k') = (length xs ≤ n) × (rest k ≡ xs ++ rest k')
  Delivers rest k n (would_block, k') = rest k ≡ rest k'
  Delivers rest k n (failed, k') = rest k ≡ rest k'

  abbrev pub IsStream : ⦃s : Socket K⦄ → (K → List ℕ) → Type 0
  IsStream ⦃s⦄ rest = (k : K) (n : ℕ) → Delivers rest k n (s.recv k n)

-- The outcome of lt_recv: the manager and the buffers, the socket, and the returned value.
pub record Done (S K : Type 0) : Type 0 where
  pub state : State S
  pub socket : K
  pub code : ℤ

-- `lt_buf->last += n` behind the bytes that recv has written there.
abbrev pub append : Buf → List ℕ → Buf
append b xs = record b { text = write b.text b.last xs; last = b.last + length xs }

-- The rounds of the loop that follow: what they get is `recv_len`, the buffer and the socket.
abbrev pub Rounds : (S K : Type 0) → Type 0
Rounds S K = (recv_len : ℕ) → State S → (lt_buf : Ptr) → K → Run (Done S K)

module _ {S K : Type 0} ⦃a : Allocator S⦄ ⦃sock : Socket K⦄ where
  -- The case n > 0, where `n` is `length` in full, and the next buffer is linked.
  abbrev pub next_buffer :
      Rounds S K → (recv_len : ℕ) → State S → (lt_buf : Ptr) → K → Run (Done S K)
  next_buffer rounds recv_len t lt_buf k = new_buffer t >>= λ (u, new_buf).
      rounds recv_len (store u lt_buf (record (u.bufs lt_buf) { next = new_buf })) new_buf k

  -- What follows a call of recv for at most `len` bytes.
  abbrev pub answer :
      Rounds S K
      → (recv_len : ℕ) → State S
      → (lt_buf : Ptr) → (len : ℕ) → Received × K
      → Run (Done S K)
  answer rounds recv_len s lt_buf len (got xs, k) =
      let t = store s lt_buf (append (s.bufs lt_buf) xs) in
      if length xs == 0
      then ok (record { state = s; socket = k; code = lclose })
      else if length xs == len
      then next_buffer rounds (recv_len + length xs) t lt_buf k
      else rounds (recv_len + length xs) t lt_buf k
  answer rounds recv_len s lt_buf len (would_block, k) =
      ok (record { state = s; socket = k; code = if recv_len == 0 then lagain else pos recv_len })
  answer rounds recv_len s lt_buf len (failed, k) =
      ok (record { state = s; socket = k; code = lerror })

  -- The loop, on `fuel` rounds.
  loop : (fuel : ℕ) → Rounds S K
  loop zero recv_len s lt_buf k = out_of_fuel
  loop (suc fuel) recv_len s lt_buf k =
      let len = (s.bufs lt_buf).end - (s.bufs lt_buf).last in
      let round = answer (loop fuel) recv_len s lt_buf len (sock.recv k len) in
      if lt_buf == null then undefined else round

  -- lt_recv, on `fuel` rounds of its loop.
  unfoldable pub recv : (fuel : ℕ) → State S → (lt_buf : Ptr) → K → Run (Done S K)
  unfolding loop
  recv fuel s lt_buf k = loop fuel 0 s lt_buf k
