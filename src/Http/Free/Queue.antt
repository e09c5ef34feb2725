-- ===== src/Http/Free/Queue.antt =====
-- The list of free requests as a queue.
use leactor.Prelude.{
  ◌≡◌, ◌≢◌, refl, sym, ap, ◌∙◌, Ptr, null, arith, true, false, ◌==◌, List, [], ◌∷◌, ◌++◌, update,
  update_self, update_ne, Bool-cases, inl, inr, ok, last_or, last_or-ne, Behind, Behind-same, NotIn,
  Distinct, none, some, Run, if◌then◌else◌,
}
use leactor.Pool
use leactor.Pool.{Pool}
use leactor.Pool.Bounds.{new_manager-returns}
use leactor.Pool.Destroy.{destroy_one}
use leactor.Buffers.{Allocator}
use leactor.Http.Free.{
  Req, State, prepare, set_next, finish_request, create_request, sizeof_element,
  header_element_count,
}

abbrev next_of : (Ptr → Req) → Ptr → Ptr
next_of reqs p = (reqs p).next

-- The free requests are these, the one that is used next first. A list that has never had one has no tail.
abbrev pub IsQueue : {S : Type 0} → State S → List Ptr → Type 0
IsQueue s [] = (s.head ≡ null) × (s.tail ≡ null)
IsQueue s (x ∷ xs) =
    (s.head ≡ x) × (x ≢ null) × Behind (next_of s.reqs) x xs × (s.tail ≡ last_or x xs)

last_or-append : (d r : Ptr) (xs : List Ptr) → last_or d (xs ++ (r ∷ [])) ≡ r
last_or-append d r [] = refl
last_or-append d r (x ∷ xs) = last_or-append x r xs

last_or-some :
    (reqs : Ptr → Req) (x : Ptr) (xs : List Ptr)
    → x ≢ null
    → Behind (next_of reqs) x xs
    → last_or x xs ≢ null
last_or-some reqs x [] real h = real
last_or-some reqs x (y ∷ ys) real h = last_or-some reqs y ys h.1 h.2

-- The request `r` behind the last one.
module _ (reqs : Ptr → Req) (r last : Ptr) where
  abbrev closed : Ptr → Req
  closed = update reqs r (record (reqs r) { next = null })

  abbrev joined : Ptr → Req
  joined = update closed last (record (closed last) { next = r })

  Behind-append :
      (x : Ptr) (xs : List Ptr)
      → last ≡ last_or x xs
      → r ≢ null
      → NotIn r (x ∷ xs)
      → Distinct (x ∷ xs)
      → Behind (next_of reqs) x xs
      → Behind (next_of joined) x (xs ++ (r ∷ []))
  Behind-append x [] e real away apart h =
      let ne : last ≢ r = λ q. away.0 (sym q ∙ e) in
      (
        ap (λ (p : Ptr). (joined p).next) (sym e)
            ∙ ap (λ (q : Req). q.next) (update_self closed last _),
        real,
        ap (λ (q : Req). q.next) (update_ne closed last r _ ne ∙ update_self reqs r _),
      )
  Behind-append x (y ∷ ys) e real away apart h =
      let ne = last_or-ne x y ys apart.0.0 apart.0.1 in
      (
        ap (λ (q : Req). q.next)
              (update_ne closed last x _ (λ q. ne (sym q ∙ e)) ∙ update_ne reqs r x _ away.0)
            ∙ h.0,
        h.1,
        Behind-append y ys e real away.1 apart.1 h.2,
      )

prepare-next :
    (reqs : Ptr → Req) (x conn buf : Ptr) (p : Ptr)
    → (update reqs x (record (reqs x) { conn = conn; header_in = buf; state = 0 }) p).next
      ≡ (reqs p).next
unfolding update
prepare-next reqs x conn buf p = elim (Bool-cases (x == p)) [
  | inl same ↦ (let at : x ≡ p = ground arith in rw (same, at) refl)
  | inr other ↦ rw other refl
]

-- The header elements of the request come from one block.
abbrev pub HasOnePool : {S : Type 0} → State S → Ptr → Type 0
HasOnePool s r =
    (p : Pool) × ((s.header_pools r).pools (s.header_pools r).manager.head ≡ some p)
    × (p.next ≡ null)

module _ {S : Type 0} (s : State S) (r : Ptr) (one : HasOnePool s r) where
  abbrev destroyed : State S
  destroyed = record s {
    header_pools = update s.header_pools r (record (s.header_pools r) {
      pools = update (s.header_pools r).pools (s.header_pools r).manager.head none;
    });
  }

  -- What http_finish_request leaves.
  abbrev finished : State S
  finished =
      let t = set_next destroyed r null in
      if s.tail == null
      then record t { tail = r; head = r }
      else record (set_next t s.tail r) { tail = r }

  finish_request-finished : finish_request r s ≡ ok finished
  unfolding finish_request
  finish_request-finished =
      let (p, there, last) = one in
      elim (Bool-cases (s.tail == null)) [
        | inl empty ↦ rw (destroy_one (s.header_pools r) p there last, empty) refl
        | inr more ↦ rw (destroy_one (s.header_pools r) p there last, more) refl
      ]

  finished-IsQueue :
      (xs : List Ptr)
      → r ≢ null
      → NotIn r xs
      → Distinct xs
      → IsQueue s xs
      → IsQueue finished (xs ++ (r ∷ []))
  finished-IsQueue [] real away apart h =
      let empty : (s.tail == null) ≡ true = let e = h.1 in ground arith in
      rw empty (refl, real, ap (λ (q : Req). q.next) (update_self s.reqs r _), refl)
  finished-IsQueue (x ∷ xs) real away apart h =
      let tail_some = last_or-some s.reqs x xs h.1 h.2 in
      let at : s.tail ≡ last_or x xs = h.3 in
      let more : (s.tail == null) ≡ false = ground arith in
      rw more (
        h.0,
        h.1,
        Behind-append s.reqs r s.tail x xs at real away apart h.2,
        sym (last_or-append x r xs),
      )

module _ {S : Type 0} ⦃a : Allocator S⦄ (conn buf block : Ptr) where
  -- http_create_request when a request is free.
  create_request-head :
      (s : State S)
      → s.head ≢ null
      → (pool : Pool.State) × (create_request conn buf block s
          ≡ ok (
            record (prepare conn buf (record s { head = (s.reqs s.head).next }) s.head) {
              header_pools = update s.header_pools s.head pool;
            },
            s.head,
          ))
  unfolding create_request
  create_request-head s real =
      let there : (s.head == null) ≡ false = ground arith in
      let old = s.header_pools s.head in
      let (pool, made) =
        new_manager-returns old.pools old.manager.head old.manager.tail block sizeof_element
          header_element_count in
      (pool, rw (there, made) refl)

  -- The next request of a list of at least two.
  create-next :
      (s : State S) (x y : Ptr) (ys : List Ptr)
      → IsQueue s (x ∷ y ∷ ys)
      → (t : State S) × (create_request conn buf block s ≡ ok (t, x)) × IsQueue t (y ∷ ys)
  create-next s x y ys h =
      let (pool, run) = create_request-head s (λ e. h.1 (sym h.0 ∙ e)) in
      let t = record (prepare conn buf (record s { head = (s.reqs s.head).next }) s.head) {
        header_pools = update s.header_pools s.head pool;
      } in
      let given : Ptr → Run (State S × Ptr) = λ p. ok (t, p) in
      (
        t,
        run ∙ ap given h.0,
        (
          ap (λ (p : Ptr). (s.reqs p).next) h.0 ∙ h.2.0,
          h.2.1,
          Behind-same (next_of s.reqs) (next_of t.reqs) y ys (prepare-next s.reqs s.head conn buf)
              h.2.2,
          h.3,
        ),
      )

  -- A request that is finished while others are free, and whose header elements have one pool, waits behind them: the
  -- next http_create_request hands out the first of these, whether its own pool gets a block or
  -- not, and leaves the others with the finished one as the last.
  pub create_request-finish_request :
      (s : State S) (x : Ptr) (xs : List Ptr) (r : Ptr)
      → IsQueue s (x ∷ xs)
      → r ≢ null
      → NotIn r (x ∷ xs)
      → Distinct (x ∷ xs)
      → HasOnePool s r
      → (u t : State S) × (finish_request r s ≡ ok u)
        × (create_request conn buf block u ≡ ok (t, x))
        × IsQueue t (xs ++ (r ∷ []))
  create_request-finish_request s x [] r h real away apart one =
      let (t, run, q) =
        create-next (finished s r one) x r []
          (finished-IsQueue s r one (x ∷ []) real away apart h) in
      (finished s r one, t, finish_request-finished s r one, run, q)
  create_request-finish_request s x (y ∷ ys) r h real away apart one =
      let (t, run, q) =
        create-next (finished s r one) x y (ys ++ (r ∷ []))
          (finished-IsQueue s r one (x ∷ y ∷ ys) real away apart h) in
      (finished s r one, t, finish_request-finished s r one, run, q)

  -- When the only free request is handed out, the tail stays at it: another one that is finished after that, whose
  -- header elements have one pool, is linked behind the one in use, and the list stays empty.
  pub create_request-lost :
      (s : State S) (x r : Ptr)
      → IsQueue s (x ∷ [])
      → r ≢ null
      → x ≢ r
      → HasOnePool s r
      → (t u : State S) × (create_request conn buf block s ≡ ok (t, x))
        × (finish_request r t ≡ ok u)
        × (u.head ≡ null)
        × ((u.reqs x).next ≡ r)
  create_request-lost s x r h real ne (p, there, last) =
      let (pool, run) = create_request-head s (λ e. h.1 (sym h.0 ∙ e)) in
      let t = record (prepare conn buf (record s { head = (s.reqs s.head).next }) s.head) {
        header_pools = update s.header_pools s.head pool;
      } in
      let given : Ptr → Run (State S × Ptr) = λ p. ok (t, p) in
      let apart : s.head ≢ r = λ e. ne (sym h.0 ∙ e) in
      let other : t.header_pools r ≡ s.header_pools r =
        update_ne s.header_pools s.head r pool apart in
      let one : HasOnePool t r = (p, rw other there, last) in
      let used : (s.tail == null) ≡ false = let e = h.3 in let n = h.1 in ground arith in
      let empty : (s.reqs s.head).next ≡ null = ap (λ (p : Ptr). (s.reqs p).next) h.0 ∙ h.2 in
      (
        t,
        finished t r one,
        run ∙ ap given h.0,
        finish_request-finished t r one,
        rw used empty,
        rw (used, h.3) (ap (λ (q : Req). q.next) (update_self (set_next t r null).reqs x _)),
      )
