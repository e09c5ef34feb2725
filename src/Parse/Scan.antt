-- ===== src/Parse/Scan.antt =====
-- The loop of the parsers over a buffer that is cut in two, and the addresses that it visits.
use leactor.Prelude.{ℕ, zero, suc, ◌+◌, ◌≤◌, ◌<◌, ◌≡◌, refl, ap, ◌∙◌, Ptr, arith}
use leactor.Parse.{
  Next, go, leave, done, header_done, undefined, Scanned, at_end, stopped, after, scan,
}

module _ {ℓ} {L : Type ℓ} (round : Ptr → L → Next L) where
  -- The loop over `n` more bytes after a first loop, if that ended at the end of its buffer.
  abbrev pub resume : ℕ → Scanned L → Scanned L
  resume n (at_end p l) = scan round n p l
  resume n (stopped p x) = stopped p x

  resume-after :
      (n : ℕ) (p : Ptr) (x : Next L) (f g : L → Scanned L)
      → ((l : L) → g l ≡ resume n (f l))
      → after round p x g ≡ resume n (after round p x f)
  resume-after n p (go l) f g h = h l
  resume-after n p (leave code l) f g h = refl
  resume-after n p (done l) f g h = refl
  resume-after n p (header_done l) f g h = refl
  resume-after n p undefined f g h = refl

  -- A loop over `m + n` bytes is one over `m`, resumed for `n`.
  pub scan-add : (m n : ℕ) (p : Ptr) (l : L) → scan round (m + n) p l ≡ resume n (scan round m p l)
  unfolding scan
  scan-add zero n p l = ap (λ k. scan round k p l) (omega arith)
  scan-add (suc m) n p l =
      ap (λ k. scan round k p l) (let e : suc m + n ≡ suc (m + n) = omega arith in e)
      ∙ resume-after n p (round p l) (scan round m (p + 1)) (scan round (m + n) (p + 1))
          (scan-add m n (p + 1))

  -- A loop that reaches the end of its buffer has passed every byte.
  after-at_end :
      (p q : Ptr) (n : ℕ) (x : Next L) (rest : L → Scanned L) (l' : L)
      → ((l : L) → rest l ≡ at_end q l' → q ≡ p + 1 + n)
      → after round p x rest ≡ at_end q l'
      → q ≡ p + 1 + n
  after-at_end p q n (go l) rest l' ih h = ih l h
  after-at_end p q n (leave code l) rest l' ih h = cc
  after-at_end p q n (done l) rest l' ih h = cc
  after-at_end p q n (header_done l) rest l' ih h = cc
  after-at_end p q n undefined rest l' ih h = cc

  end_of : Scanned L → Ptr
  end_of (at_end p l) = p
  end_of (stopped p x) = p

  pub scan-at_end :
      (n : ℕ) (p : Ptr) (l : L) (q : Ptr) (l' : L) → scan round n p l ≡ at_end q l' → q ≡ p + n
  unfolding scan end_of
  scan-at_end zero p l q l' h = let e : p ≡ q = ap end_of h in omega arith
  scan-at_end (suc n) p l q l' h =
      let e =
        after-at_end p q n (round p l) (scan round n (p + 1)) l'
          (λ m g. scan-at_end n (p + 1) m q l' g) h in
      omega arith

  -- Where and with what a loop stops inside its buffer.
  abbrev pub StopsAt : Ptr → ℕ → Scanned L → Type ℓ
  StopsAt p n (at_end q l) = Unit
  StopsAt p n (stopped q x) = (l : L) × (x ≡ round q l) × (p ≤ q) × (q < p + n)

  widen : (p : Ptr) (n : ℕ) (s : Scanned L) → StopsAt (p + 1) n s → StopsAt p (suc n) s
  widen p n (at_end q l) h = tt
  widen p n (stopped q x) (l, e, low, high) = (l, e, omega arith, omega arith)

  after-StopsAt :
      (p : Ptr) (n : ℕ) (l : L) (x : Next L) (rest : L → Scanned L)
      → x ≡ round p l
      → ((m : L) → StopsAt (p + 1) n (rest m))
      → StopsAt p (suc n) (after round p x rest)
  after-StopsAt p n l (go m) rest e ih = widen p n (rest m) (ih m)
  after-StopsAt p n l (leave code m) rest e ih = (l, e, omega arith, omega arith)
  after-StopsAt p n l (done m) rest e ih = (l, e, omega arith, omega arith)
  after-StopsAt p n l (header_done m) rest e ih = (l, e, omega arith, omega arith)
  after-StopsAt p n l undefined rest e ih = (l, e, omega arith, omega arith)

  pub scan-StopsAt : (n : ℕ) (p : Ptr) (l : L) → StopsAt p n (scan round n p l)
  unfolding scan
  scan-StopsAt zero p l = tt
  scan-StopsAt (suc n) p l =
      after-StopsAt p n l (round p l) (scan round n (p + 1)) refl (λ m. scan-StopsAt n (p + 1) m)

  -- Changing what no round reads, before the loop or after it.
  module _ (touch : L → L) where
    abbrev pub touch_next : Next L → Next L
    touch_next (go l) = go (touch l)
    touch_next (leave code l) = leave code (touch l)
    touch_next (done l) = done (touch l)
    touch_next (header_done l) = header_done (touch l)
    touch_next undefined = undefined

    abbrev pub touch_scanned : Scanned L → Scanned L
    touch_scanned (at_end p l) = at_end p (touch l)
    touch_scanned (stopped p x) = stopped p (touch_next x)

    after-touch :
        (p : Ptr) (x : Next L) (rest : L → Scanned L)
        → ((l : L) → rest (touch l) ≡ touch_scanned (rest l))
        → after round p (touch_next x) rest ≡ touch_scanned (after round p x rest)
    after-touch p (go l) rest h = h l
    after-touch p (leave code l) rest h = refl
    after-touch p (done l) rest h = refl
    after-touch p (header_done l) rest h = refl
    after-touch p undefined rest h = refl

    pub scan-touch :
        ((p : Ptr) (l : L) → round p (touch l) ≡ touch_next (round p l))
        → (n : ℕ) (p : Ptr) (l : L) → scan round n p (touch l) ≡ touch_scanned (scan round n p l)
    unfolding scan
    scan-touch same zero p l = refl
    scan-touch same (suc n) p l =
        rw (same p l) (after-touch p (round p l) (scan round n (p + 1)) (scan-touch same n (p + 1)))

  -- One round of a loop.
  pub scan-go :
      (n : ℕ) (p : Ptr) (l l' : L)
      → round p l ≡ go l'
      → scan round (suc n) p l ≡ scan round n (p + 1) l'
  unfolding scan
  scan-go n p l l' e = rw e refl

  pub scan-done :
      (n : ℕ) (p : Ptr) (l l' : L)
      → round p l ≡ done l'
      → scan round (suc n) p l ≡ stopped p (done l')
  unfolding scan
  scan-done n p l l' e = rw e refl

  -- A run that goes on with the byte at `p`, where the counts are given by equations.
  pub scan-step :
      (m n : ℕ) (p q : Ptr) (l l' : L)
      → round p l ≡ go l'
      → m ≡ suc n
      → p + 1 ≡ q
      → scan round m p l ≡ scan round n q l'
  scan-step m n p q l l' e em eq =
      ap (λ k. scan round k p l) em ∙ scan-go n p l l' e ∙ ap (λ k. scan round n k l') eq

  pub scan-stay :
      (m n : ℕ) (p q : Ptr) (l : L) → m ≡ n → p ≡ q → scan round m p l ≡ scan round n q l
  scan-stay m n p q l e f = ap (λ k. scan round k p l) e ∙ ap (λ k. scan round n k l) f
