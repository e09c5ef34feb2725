-- ===== src/Buffers/Send/Laws.antt =====
-- What send_buffers does with the buffers behind a write.
use leactor.Prelude.{
  Bool-cases, inl, inr, ℕ, zero, suc, ◌+◌, ◌-◌, ◌%◌, ◌^◌, ◌<◌, ◌≤◌, ◌≡◌, ◌≢◌, refl, sym, ap, ◌∙◌, ℤ,
  Ptr, null, false, true, ◌==◌, if◌then◌else◌, List, [], ◌∷◌, ◌++◌, length, arith, Run, ok,
  undefined, ◌>>=◌, Option, some, none, update, update_ne, NotIn, Distinct, ltb, leb,
}
use leactor.Parse.{lok, lagain}
use leactor.Chains.{wrote}
use leactor.Buffers.{Buf}
use leactor.Buffers.Send.{
  Stretch, Writer, stretch, count, gather, settle, answer, add_remain, less, send_buffers,
}

-- The buffers from `p` on, up to NULL.
abbrev pub Linked : (Ptr → Buf) → Ptr → List Ptr → Type 0
Linked bufs p [] = p ≡ null
Linked bufs p (q ∷ qs) = (p ≡ q) × (q ≢ null) × Linked bufs (bufs q).next qs

-- What writev is given.
abbrev pub stretches : (Ptr → Buf) → List Ptr → List Stretch
stretches bufs [] = []
stretches bufs (p ∷ ps) = stretch p (bufs p) ∷ stretches bufs ps

count-length :
    (fuel : ℕ) (bufs : Ptr → Buf) (p : Ptr) (ps : List Ptr) (iov_i n : ℕ)
    → length ps < fuel
    → Linked bufs p ps
    → iov_i + length ps ≡ n
    → count fuel bufs p iov_i ≡ ok n
unfolding count
count-length zero bufs p ps iov_i n few h total = absurd (omega arith)
count-length (suc fuel) bufs p [] iov_i n few e total =
    let same : iov_i ≡ n = omega arith in rw e (ap (λ (i : ℕ). ok i) same)
count-length (suc fuel) bufs p (q ∷ qs) iov_i n few (e, real, rest) total =
    let test : (q == null) ≡ false = ground arith in
    rw (e, test)
      (count-length fuel bufs (bufs q).next qs (suc iov_i) n (omega arith) rest (omega arith))

gather-stretches :
    (bufs : Ptr → Buf) (p : Ptr) (ps : List Ptr)
    → Linked bufs p ps
    → gather (length ps) bufs p ≡ ok (stretches bufs ps)
unfolding gather
gather-stretches bufs p [] e = refl
gather-stretches bufs p (q ∷ qs) (e, real, rest) =
    let test : (q == null) ≡ false = ground arith in
    rw (e, test, gather-stretches bufs (bufs q).next qs rest) refl

-- How many bytes the buffers hold from their beginning on.
abbrev pub total : (Ptr → Buf) → List Ptr → ℕ
total bufs [] = 0
total bufs (p ∷ ps) = (bufs p).last + total bufs ps

-- Nothing of the buffers has been sent, and they are of the length of an `int`.
abbrev pub AllFresh : (Ptr → Buf) → List Ptr → Type 0
AllFresh bufs [] = Unit
AllFresh bufs (p ∷ ps) = ((bufs p).pos ≡ 0) × ((bufs p).last < 2 ^ 31) × AllFresh bufs ps

-- The buffers with `pos` moved to `last`.
abbrev pub passed : (Ptr → Buf) → List Ptr → Ptr → Buf
passed bufs [] = bufs
passed bufs (p ∷ ps) = passed (update bufs p (record (bufs p) { pos = (bufs p).last })) ps

-- The last of the buffers.
abbrev pub last_one : Option Ptr → List Ptr → Option Ptr
last_one c [] = c
last_one c (p ∷ ps) = last_one (some p) ps

-- The buffers are the same in both.
abbrev Same : (b bufs : Ptr → Buf) → List Ptr → Type 0
Same b bufs [] = Unit
Same b bufs (p ∷ ps) = (b p ≡ bufs p) × Same b bufs ps

Same-self : (bufs : Ptr → Buf) (ps : List Ptr) → Same bufs bufs ps
Same-self bufs [] = tt
Same-self bufs (p ∷ ps) = (refl, Same-self bufs ps)

Same-other :
    (b bufs : Ptr → Buf) (q : Ptr) (c : Buf) (ps : List Ptr)
    → NotIn q ps
    → Same b bufs ps
    → Same (update b q c) bufs ps
Same-other b bufs q c [] out h = tt
Same-other b bufs q c (p ∷ ps) (ne, out) h =
    (update_ne b q p c ne ∙ h.0, Same-other b bufs q c ps out h.1)

-- The last of the buffers that were passed is moved by `m` more, which is past its `last`; without one, there is
-- no outcome.
abbrev pub again : (Ptr → Buf) → (last : Option Ptr) → (m : ℕ) → Run ((Ptr → Buf) × ℤ)
again b none m = undefined
again b (some c) m = ok (update b c (record (b c) { pos = (b c).pos + m }), lagain)

-- The outcome of a write of the bytes of the buffers `before` and of `m` more, out of `size` in the next one.
abbrev pub outcome :
    (Ptr → Buf) → Option Ptr → (before : List Ptr) → (m size : ℕ) → Run ((Ptr → Buf) × ℤ)
outcome b c before m size =
    if m == size then ok (passed b before, lok) else again (passed b before) (last_one c before) m

add_remain-again : (b : Ptr → Buf) (c : Option Ptr) (m : ℕ) → add_remain b c m ≡ again b c m
add_remain-again b none m = refl
add_remain-again b (some c) m = refl

-- The round that passes a buffer.
settle-pass :
    (b : Ptr → Buf) (c : Option Ptr) (remain : ℕ) (p : Ptr) (f : Buf) (vec : List Stretch)
    → f.pos ≡ 0
    → f.last < remain
    → remain < 2 ^ 31
    → settle b c remain (stretch p f ∷ vec)
      ≡ settle
          (update b p (record (b p) { pos = (b p).pos + f.last }))
          (some p)
          (remain - f.last)
          vec
unfolding settle
settle-pass b c remain p f vec fresh more small =
    let size : ((f.last + (2 ^ 64 - f.pos)) % 2 ^ 64) % 2 ^ 32 ≡ f.last = omega (arith, fresh) in
    let longer : less f.last remain ≡ true = ground (arith, more, small) in
    let positive : leb (2 ^ 31) f.last ≡ false = ground (arith, more, small) in
    let start : ltb 0 f.pos ≡ false = ground (arith, fresh) in
    rw (size, longer, positive, start) refl

settle-stop :
    (b : Ptr → Buf) (c : Option Ptr) (m : ℕ) (p : Ptr) (f : Buf) (vec : List Stretch)
    → f.pos ≡ 0
    → m ≤ f.last
    → f.last < 2 ^ 31
    → settle b c m (stretch p f ∷ vec) ≡ outcome b c [] m f.last
unfolding settle
settle-stop b c m p f vec fresh enough small =
    let size : ((f.last + (2 ^ 64 - f.pos)) % 2 ^ 64) % 2 ^ 32 ≡ f.last = omega (arith, fresh) in
    let shorter : less f.last m ≡ false = ground (arith, enough, small) in
    elim (Bool-cases (m == f.last)) [
      | inl whole ↦
          (let same : less m f.last ≡ false = ground (arith, enough, small) in
            rw (size, shorter, same, whole) refl)
      | inr part ↦
          (let less_of : less m f.last ≡ true = ground (arith, enough, small) in
            rw (size, shorter, less_of, part) (add_remain-again b c m))
    ]

settle-outcome :
    (bufs b : Ptr → Buf) (c : Option Ptr) (before : List Ptr) (q : Ptr) (rest : List Ptr) (m n : ℕ)
    → AllFresh bufs (before ++ q ∷ rest)
    → Distinct (before ++ q ∷ rest)
    → Same b bufs (before ++ q ∷ rest)
    → 0 < m
    → m ≤ (bufs q).last
    → total bufs before + m ≡ n
    → n < 2 ^ 31
    → settle b c n (stretches bufs (before ++ q ∷ rest)) ≡ outcome b c before m (bufs q).last
settle-outcome bufs b c [] q rest m n fresh apart same some_bytes enough sum small =
    let at : n ≡ m = omega arith in
    rw at (settle-stop b c m q (bufs q) (stretches bufs rest) fresh.0 enough fresh.1)
settle-outcome bufs b c (p ∷ ps) q rest m n fresh apart same some_bytes enough sum small =
    let f = bufs p in
    let left : n - f.last ≡ total bufs ps + m = omega arith in
    let start : f.pos + f.last ≡ f.last = omega (arith, fresh.0) in
    let moved : record (b p) { pos = (b p).pos + f.last } ≡ record (b p) { pos = (b p).last } =
      rw same.0 (ap (λ (i : ℕ). record f { pos = i }) start) in
    settle-pass b c n p f (stretches bufs (ps ++ q ∷ rest)) fresh.0 (omega arith) small
    ∙ ap
        (λ (x : Buf). settle (update b p x) (some p) (n - f.last) (stretches bufs (ps ++ q ∷ rest)))
        moved
    ∙ settle-outcome bufs (update b p (record (b p) { pos = (b p).last })) (some p) ps q rest m
        (n - f.last) fresh.2 apart.1 (Same-other b bufs p _ (ps ++ q ∷ rest) apart.0 same.1)
        some_bytes enough (sym left) (omega arith)

-- The first buffer of a chain.
head-IsFresh :
    (bufs : Ptr → Buf) (p : Ptr) (before : List Ptr) (q : Ptr) (rest : List Ptr)
    → Linked bufs p (before ++ q ∷ rest)
    → AllFresh bufs (before ++ q ∷ rest)
    → (p ≢ null) × ((bufs p).pos ≡ 0)
head-IsFresh bufs p [] q rest h fresh =
    ((λ e. h.1 (sym h.0 ∙ e)), ap (λ (x : Ptr). (bufs x).pos) h.0 ∙ fresh.0)
head-IsFresh bufs p (x ∷ xs) q rest h fresh =
    ((λ e. h.1 (sym h.0 ∙ e)), ap (λ (x : Ptr). (bufs x).pos) h.0 ∙ fresh.0)

module _ {K : Type 0} ⦃writer : Writer K⦄ where
  -- send_buffers of a chain of different buffers up to NULL, none of which has been sent in part, the first of them
  -- with bytes, within one round more than there are buffers, where writev writes the bytes of the
  -- buffers `before` and the first `m` > 0 of those of the next buffer `q`, fewer than 2 ^ 31 in all: the
  -- buffers `before` are marked as sent. Where `m` is all of `q`, it answers LOK, whatever comes behind
  -- `q`, and leaves `q` marked as unsent; otherwise the rest is recorded not in `q` but in the buffer
  -- in front of it, whose `pos` goes `m` bytes past its `last`, and it answers LAGAIN; without a
  -- buffer in front of `q` that is undefined.
  pub send_buffers-outcome :
      (fuel : ℕ) (bufs : Ptr → Buf) (p : Ptr) (before : List Ptr) (q : Ptr) (rest : List Ptr)
      (m : ℕ) (k after : K)
      → length (before ++ q ∷ rest) < fuel
      → Linked bufs p (before ++ q ∷ rest)
      → AllFresh bufs (before ++ q ∷ rest)
      → Distinct (before ++ q ∷ rest)
      → 0 < (bufs p).last
      → 0 < m
      → m ≤ (bufs q).last
      → total bufs before + m < 2 ^ 31
      → writer.writev k (stretches bufs (before ++ q ∷ rest))
        ≡ (wrote (total bufs before + m), after)
      → send_buffers fuel bufs p k
        ≡ (outcome bufs none before m (bufs q).last >>= λ (t, code). ok (t, code, after))
  unfolding send_buffers answer
  send_buffers-outcome fuel bufs p before q rest m k after few h fresh apart some_bytes more enough
        small write =
      let ps = before ++ q ∷ rest in
      let n = total bufs before + m in
      let first = head-IsFresh bufs p before q rest h fresh in
      let real : (p == null) ≡ false = let ne = first.0 in ground arith in
      let bytes : ((bufs p).pos == (bufs p).last) ≡ false = let e = first.1 in ground arith in
      let any : (n == 0) ≡ false = ground (arith, more) in
      let same : n % 2 ^ 32 ≡ n = omega (arith, small) in
      let counted = count-length fuel bufs p ps 0 (length ps) few h (omega arith) in
      let settled =
        settle-outcome bufs bufs none before q rest m n fresh apart (Same-self bufs ps) more enough
          refl small in
      rw (real, bytes, counted, gather-stretches bufs p ps h, write, any, same, settled) refl
