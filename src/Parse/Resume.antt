-- ===== src/Parse/Resume.antt =====
-- A parser's loop over a buffer of which a first call has seen only the bytes up to `mid`.
use leactor.Prelude.{ℕ, ◌+◌, ◌-◌, ◌≤◌, ◌≡◌, ap, sym, subst, ◌∙◌, Ptr, arith}
use leactor.Parse.{Next, Scanned, at_end, stopped, scan}
use leactor.Parse.Scan.{resume, scan-add, scan-at_end, StopsAt, scan-StopsAt}

module _ {ℓ} {L : Type ℓ} (round : Ptr → L → Next L) where
  module _ (pos mid last : Ptr) (low : pos ≤ mid) (high : mid ≤ last) (l : L) where
    whole : scan round (last - pos) pos l ≡ resume round (last - mid) (scan round (mid - pos) pos l)
    whole =
        ap (λ (n : ℕ). scan round n pos l)
          (let e : last - pos ≡ mid - pos + (last - mid) = omega arith in e)
        ∙ scan-add round (mid - pos) (last - mid) pos l

    -- A loop that stops inside the shorter buffer stops there in the longer one.
    pub whole-stopped :
        (q : Ptr) (x : Next L)
        → scan round (mid - pos) pos l ≡ stopped q x
        → scan round (last - pos) pos l ≡ stopped q x
    whole-stopped q x e = whole ∙ ap (resume round (last - mid)) e

    -- A loop that reaches the end of the shorter buffer stands at `mid`, and goes on from there.
    pub whole-at_end :
        (q : Ptr) (m : L)
        → scan round (mid - pos) pos l ≡ at_end q m
        → (q ≡ mid) × (scan round (last - pos) pos l ≡ scan round (last - mid) mid m)
    whole-at_end q m e =
        let there = scan-at_end round (mid - pos) pos l q m e in
        let at : q ≡ mid = omega arith in
        (
          at,
          whole
              ∙ ap (resume round (last - mid)) e
              ∙ ap (λ (p : Ptr). scan round (last - mid) p m) at,
        )

  -- What holds of every round holds of the round in which a loop stops.
  module _ {κ} (Holds : Next L → Type κ) (h : (p : Ptr) (l : L) → Holds (round p l)) where
    abbrev StopHolds : Scanned L → Type κ
    StopHolds (at_end p l) = Unit
    StopHolds (stopped p x) = Holds x

    stop_holds : (p : Ptr) (n : ℕ) (s : Scanned L) → StopsAt round p n s → StopHolds s
    stop_holds p n (at_end q l) t = tt
    stop_holds p n (stopped q x) (l, e, low, high) = subst Holds (sym e) (h q l)

    pub scan-StopHolds :
        (n : ℕ) (p : Ptr) (l : L) (q : Ptr) (x : Next L) → scan round n p l ≡ stopped q x → Holds x
    scan-StopHolds n p l q x e =
        subst StopHolds e (stop_holds p n (scan round n p l) (scan-StopsAt round n p l))
