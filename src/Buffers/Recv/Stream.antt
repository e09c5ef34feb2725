-- ===== src/Buffers/Recv/Stream.antt =====
-- What lt_recv makes of the stream of bytes: with enough rounds it ends, and the chain of buffers then
-- holds what was received, in order.
use leactor.Prelude.{
  ℕ, zero, suc, ◌+◌, ◌-◌, ◌*◌, ◌≤◌, ◌<◌, ◌≡◌, ◌≢◌, refl, sym, ap, subst, ◌∙◌, ◌⊎◌, inl, inr, ℤ, pos,
  Ptr, null, ◌==◌, if◌then◌else◌, true, false, List, [], ◌∷◌, ◌++◌, length, length-append, arith,
  update_self, update_ne, ok, ℕ_discrete, NotIn, Distinct,
}
use mathlib.Core.List.{append_assoc}
use leactor.Parse.{lerror, lagain}
use leactor.Buffers.{Buf, Allocator, State, store, new_buffer, empty_buf, default_buf_size}
use leactor.Buffers.Chain.{slice, write, slice-write_behind, held, contents, Linked, Supplies}
use leactor.Buffers.Recv.{
  Received, got, would_block, failed, Socket, Delivers, IsStream, Done, append, Rounds, next_buffer,
  answer, loop, recv, lclose,
}

-- A buffer with its fields in order, and none behind it.
pub record IsOpen (b : Buf) : Type 0 where
  pub begun : b.pos ≤ b.last
  pub bounded : b.last ≤ b.end
  pub ended : b.next ≡ null

held-append : (b : Buf) (xs : List ℕ) → IsOpen b → held (append b xs) ≡ held b ++ xs
held-append b xs v =
    let text = write b.text b.last xs in
    ap (λ (n : ℕ). slice text b.pos n)
      (let e : b.last + length xs - b.pos ≡ b.last - b.pos + length xs = omega (arith, v.begun) in
        e)
    ∙ ap (λ (j : ℕ). slice (write b.text j xs) b.pos (b.last - b.pos + length xs))
        (let e : b.last ≡ b.pos + (b.last - b.pos) = omega (arith, v.begun) in e)
    ∙ slice-write_behind b.text b.pos (b.last - b.pos) xs

length_zero : (xs : List ℕ) → length xs ≡ 0 → xs ≡ []
length_zero [] e = refl
length_zero (x ∷ xs) e = absurd (omega arith)

-- What lt_recv returns, `total` bytes received.
abbrev pub Returns : (total : ℕ) → ℤ → Type 0
Returns total code =
    ((code ≡ pos total) × (0 < total))
    ⊎ ((code ≡ lagain) × (total ≡ 0))
    ⊎ (code ≡ lclose)
    ⊎ (code ≡ lerror)

blocked-Returns : (n : ℕ) → Returns n (if n == 0 then lagain else pos n)
blocked-Returns zero = inr (inl (refl, refl))
blocked-Returns (suc n) = ground arith

module _ {S K : Type 0} ⦃a : Allocator S⦄ ⦃sock : Socket K⦄ (rest : K → List ℕ) where
  -- From the buffer `p` on, what is in the buffers and what is still to come: `d` is the outcome, after
  -- `recv_len` bytes before.
  pub record IsReceived (recv_len : ℕ) (s : State S) (p : Ptr) (k : K) (supply : List Ptr)
      (d : Done S K) : Type 0 where
    pub added : List Ptr
    pub linked : Linked d.state.bufs (p ∷ added)
    pub bytes : contents d.state.bufs (p ∷ added) ++ rest d.socket ≡ held (s.bufs p) ++ rest k
    pub frame : (x : Ptr) → x ≢ p → NotIn x supply → d.state.bufs x ≡ s.bufs x
    pub total : ℕ
    pub counted : recv_len + length (rest k) ≡ total + length (rest d.socket)
    pub returns : Returns total d.code

  -- What the loop does within `fuel` rounds.
  abbrev Ends : (fuel : ℕ) → Rounds S K → Type 0
  Ends fuel rounds =
      (recv_len : ℕ) (s : State S) (p : Ptr) (k : K) (supply : List Ptr)
      → length (rest k) < fuel
      → length (rest k) < (s.bufs p).end - (s.bufs p).last + length supply * default_buf_size
      → p ≢ null
      → IsOpen (s.bufs p)
      → NotIn p supply
      → Distinct supply
      → Supplies s.manager supply
      → (d : Done S K) × (rounds recv_len s p k ≡ ok d) × IsReceived recv_len s p k supply d

  -- Nothing changes but the socket, which has delivered nothing.
  unchanged :
      (recv_len : ℕ) (s : State S) (p : Ptr) (k k' : K) (supply : List Ptr) (code : ℤ)
      → IsOpen (s.bufs p)
      → rest k ≡ rest k'
      → Returns recv_len code
      → IsReceived recv_len s p k supply (record { state = s; socket = k'; code = code })
  unchanged recv_len s p k k' supply code v same returns = record {
    added = [];
    linked = v.ended;
    bytes =
        append_assoc (held (s.bufs p)) [] (rest k')
        ∙ ap (λ (ys : List ℕ). held (s.bufs p) ++ ys) (sym same);
    frame = λ x ne out. refl;
    total = recv_len;
    counted = ap (λ (ys : List ℕ). recv_len + length ys) same;
    returns = returns;
  }

  module _ (recv_len : ℕ) (s : State S) (p : Ptr) (k k' : K) (xs : List ℕ) (v : IsOpen (s.bufs p))
      (split : rest k ≡ xs ++ rest k') where
    abbrev after : State S
    after = store s p (append (s.bufs p) xs)

    fewer : length (rest k) ≡ length xs + length (rest k')
    fewer = ap length split ∙ length-append xs (rest k')

    -- The buffer with the new bytes, and then what is still to come.
    held_on : held (append (s.bufs p) xs) ++ rest k' ≡ held (s.bufs p) ++ rest k
    held_on =
        ap (λ (ys : List ℕ). ys ++ rest k') (held-append (s.bufs p) xs v)
        ∙ append_assoc (held (s.bufs p)) xs (rest k')
        ∙ ap (λ (ys : List ℕ). held (s.bufs p) ++ ys) (sym split)

    -- The same buffer goes on.
    continued :
        (supply : List Ptr) (d : Done S K)
        → IsReceived (recv_len + length xs) after p k' supply d
        → IsReceived recv_len s p k supply d
    continued supply d r = record {
      added = r.added;
      linked = r.linked;
      bytes =
          r.bytes
          ∙ ap (λ (b : Buf). held b ++ rest k') (update_self s.bufs p (append (s.bufs p) xs))
          ∙ held_on;
      frame = λ x ne out.
          r.frame x ne out ∙ update_ne s.bufs p x (append (s.bufs p) xs) (λ e. ne (sym e));
      total = r.total;
      counted = omega (arith, fewer, r.counted);
      returns = r.returns;
    }

    -- The next buffer goes on.
    abbrev taken : (q : Ptr) (m : S) → State S
    taken q m = store (record after { manager = m }) q (empty_buf (after.bufs q))

    abbrev next : (q : Ptr) (m : S) → State S
    next q m = store (taken q m) p (record ((taken q m).bufs p) { next = q })

    module _ (q : Ptr) (qs : List Ptr) (m : S) (ne : p ≢ q) (out : NotIn p qs) where
      next-p : (next q m).bufs p ≡ record (append (s.bufs p) xs) { next = q }
      next-p =
          update_self (taken q m).bufs p (record ((taken q m).bufs p) { next = q })
          ∙ ap (λ (b : Buf). record b { next = q })
              (update_ne after.bufs q p (empty_buf (after.bufs q)) (λ e. ne (sym e))
                ∙ update_self s.bufs p (append (s.bufs p) xs))

      next-q : (next q m).bufs q ≡ empty_buf (after.bufs q)
      next-q =
          update_ne (taken q m).bufs p q (record ((taken q m).bufs p) { next = q }) ne
          ∙ update_self after.bufs q (empty_buf (after.bufs q))

      next-other : (x : Ptr) → x ≢ p → x ≢ q → (next q m).bufs x ≡ s.bufs x
      next-other x np nq =
          update_ne (taken q m).bufs p x _ (λ e. np (sym e))
          ∙ update_ne after.bufs q x _ (λ e. nq (sym e))
          ∙ update_ne s.bufs p x (append (s.bufs p) xs) (λ e. np (sym e))

      linked_on :
          (d : Done S K)
          → IsReceived (recv_len + length xs) (next q m) q k' qs d
          → IsReceived recv_len s p k (q ∷ qs) d
      linked_on d r =
          let same = r.frame p ne out ∙ next-p in
          record {
            added = q ∷ r.added;
            linked = (ap (λ (b : Buf). b.next) same, r.linked);
            bytes =
                append_assoc (held (d.state.bufs p)) (contents d.state.bufs (q ∷ r.added))
                  (rest d.socket)
                ∙ ap (λ (ys : List ℕ). held (d.state.bufs p) ++ ys)
                    (r.bytes ∙ ap (λ (b : Buf). held b ++ rest k') next-q)
                ∙ ap (λ (b : Buf). held b ++ rest k') same
                ∙ held_on;
            frame = λ x np (nq, nqs). r.frame x nq nqs ∙ next-other x np nq;
            total = r.total;
            counted = omega (arith, fewer, r.counted);
            returns = r.returns;
          }

  -- The bytes fill the buffer.
  full-IsReceived :
      (fuel : ℕ) (rounds : Rounds S K)
      → Ends fuel rounds
      → (recv_len : ℕ) (s : State S) (p : Ptr) (k k' : K) (xs : List ℕ) (supply : List Ptr)
      → length (rest k') < fuel
      → length (rest k) < length xs + length supply * default_buf_size
      → IsOpen (s.bufs p)
      → NotIn p supply
      → Distinct supply
      → Supplies s.manager supply
      → rest k ≡ xs ++ rest k'
      → (d : Done S K) × (next_buffer rounds
            (recv_len + length xs)
            (store s p (append (s.bufs p) xs))
            p
            k'
          ≡ ok d)
        × IsReceived recv_len s p k supply d
  unfolding new_buffer
  full-IsReceived fuel rounds ih recv_len s p k k' xs [] few room v new distinct supplies split =
      absurd (omega (arith, fewer recv_len s p k k' xs v split))
  full-IsReceived fuel rounds ih recv_len s p k k' xs (q ∷ qs) few room v (ne, out)
        (other, distinct) (m, alloc, real, supplies) split =
      let test : (q == null) ≡ false = ground arith in
      let empty = next-q recv_len s p k k' xs v split q qs m ne out in
      let shorter = fewer recv_len s p k k' xs v split in
      let (d, run, r) =
        ih (recv_len + length xs) (next recv_len s p k k' xs v split q m) q k' qs few
          (rw empty (omega arith)) real
          (subst IsOpen (sym empty)
            (record { begun = omega arith; bounded = omega arith; ended = refl }))
          other distinct supplies in
      (d, rw (alloc, test) run, linked_on recv_len s p k k' xs v split q qs m ne out d r)

  answer-IsReceived :
      (fuel : ℕ) (rounds : Rounds S K)
      → Ends fuel rounds
      → (recv_len : ℕ) (s : State S) (p : Ptr) (k : K) (supply : List Ptr) (r : Received × K)
      → length (rest k) < suc fuel
      → length (rest k) < (s.bufs p).end - (s.bufs p).last + length supply * default_buf_size
      → p ≢ null
      → IsOpen (s.bufs p)
      → NotIn p supply
      → Distinct supply
      → Supplies s.manager supply
      → Delivers rest k ((s.bufs p).end - (s.bufs p).last) r
      → (d : Done S K) × (answer rounds recv_len s p ((s.bufs p).end - (s.bufs p).last) r ≡ ok d)
        × IsReceived recv_len s p k supply d
  answer-IsReceived fuel rounds ih recv_len s p k supply (would_block, k') few room real v new
        distinct supplies same =
      (_, refl, unchanged recv_len s p k k' supply _ v same (blocked-Returns recv_len))
  answer-IsReceived fuel rounds ih recv_len s p k supply (failed, k') few room real v new distinct
        supplies same =
      (_, refl, unchanged recv_len s p k k' supply lerror v same (inr (inr (inr refl))))
  answer-IsReceived fuel rounds ih recv_len s p k supply (got xs, k') few room real v new distinct
        supplies (fits, split) =
      let b = s.bufs p in
      let shorter = fewer recv_len s p k k' xs v split in
      elim (ℕ_discrete (length xs) 0) [
        | yes none ↦
            let test : (length xs == 0) ≡ true = ground arith in
            (
              record { state = s; socket = k'; code = lclose },
              rw test refl,
              unchanged recv_len s p k k' supply lclose v
                  (split ∙ ap (λ (ys : List ℕ). ys ++ rest k') (length_zero xs none))
                  (inr (inr (inl refl))),
            )
        | no some_bytes ↦
            let test : (length xs == 0) ≡ false = ground arith in
            elim (ℕ_discrete (length xs) (b.end - b.last)) [
              | yes full ↦
                  let all : (length xs == b.end - b.last) ≡ true = ground arith in
                  rw (test, all)
                    (full-IsReceived fuel rounds ih recv_len s p k k' xs supply (omega arith)
                      (omega arith) v new distinct supplies split)
              | no part ↦
                  let some_left : (length xs == b.end - b.last) ≡ false = ground arith in
                  let same = update_self s.bufs p (append b xs) in
                  let (d, run, r) =
                    ih (recv_len + length xs) (store s p (append b xs)) p k' supply (omega arith)
                      (rw same (omega arith)) real
                      (subst IsOpen (sym same) (record {
                        begun = omega (arith, v.begun);
                        bounded = omega (arith, v.bounded);
                        ended = v.ended;
                      }))
                      new distinct supplies in
                  (d, rw (test, some_left) run, continued recv_len s p k k' xs v split supply d r)
            ]
      ]

  module _ (stream : IsStream rest) where
    loop-IsReceived : (fuel : ℕ) → Ends fuel (loop fuel)
    unfolding loop
    loop-IsReceived zero recv_len s p k supply few room real v new distinct supplies =
        absurd (omega arith)
    loop-IsReceived (suc fuel) recv_len s p k supply few room real v new distinct supplies =
        let test : (p == null) ≡ false = ground arith in
        let len = (s.bufs p).end - (s.bufs p).last in
        rw test (
          answer-IsReceived fuel (loop fuel) (loop-IsReceived fuel) recv_len s p k supply
            (sock.recv k len) few room real v new distinct supplies (stream k len))

    -- lt_recv on a stream socket, given an open buffer, a manager that still supplies buffers, and room in
    -- all of these for what the peer has sent: with one round more than there are bytes to come it
    -- ends; the chain that begins at the buffer then holds the old bytes and those received, in
    -- order, and what is not in it is still to come; no other buffer is touched; and it
    -- returns the count of the bytes received, or LAGAIN if there were none, LCLOSE or LERROR.
    pub recv-IsReceived :
        (s : State S) (p : Ptr) (k : K) (supply : List Ptr)
        → length (rest k) < (s.bufs p).end - (s.bufs p).last + length supply * default_buf_size
        → p ≢ null
        → IsOpen (s.bufs p)
        → NotIn p supply
        → Distinct supply
        → Supplies s.manager supply
        → (d : Done S K) × (recv (length (rest k) + 1) s p k ≡ ok d) × IsReceived 0 s p k supply d
    unfolding recv
    recv-IsReceived s p k supply room real v new distinct supplies =
        loop-IsReceived (length (rest k) + 1) 0 s p k supply (omega arith) room real v new distinct
          supplies
