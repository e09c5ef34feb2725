-- ===== src/Parse/Text.antt =====
-- Text in memory: what stands at an address, byte by byte.
use leactor.Prelude.{ℕ, suc, ◌+◌, ◌≡◌, Ptr, List, [], ◌∷◌, ◌++◌, arith, length}
use leactor.Request.{Bytes}

-- The bytes `xs` stand in memory from `p` on.
abbrev pub At : Bytes → Ptr → List ℕ → Type 0
At mem p [] = Unit
At mem p (x ∷ xs) = (mem p ≡ x) × At mem (p + 1) xs

-- Every byte satisfies `P`.
abbrev pub All {κ} : (ℕ → Type κ) → List ℕ → Type κ
All P [] = Unit
All P (x ∷ xs) = P x × All P xs

pub At-append :
    (mem : Bytes) (p : Ptr) (xs ys : List ℕ)
    → At mem p (xs ++ ys)
    → At mem p xs × At mem (p + length xs) ys
At-append mem p [] ys h = (tt, let e : p ≡ p + 0 = omega arith in rw (← e) h)
At-append mem p (x ∷ xs) ys h =
    let rest = At-append mem (p + 1) xs ys h.1 in
    let e : p + suc (length xs) ≡ p + 1 + length xs = omega arith in ((h.0, rest.0), rw e rest.1)
