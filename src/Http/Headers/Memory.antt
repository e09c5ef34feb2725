-- ===== src/Http/Headers/Memory.antt =====
-- The bytes of the request while a name is put in lower case: what is read, and what stays.
use leactor.Prelude.{
  ℕ, suc, ◌+◌, ◌≤◌, ◌<◌, ◌≡◌, refl, ap, ◌∙◌, Ptr, arith, List, [], ◌∷◌, ◌++◌, map, length, update,
  update_self, update_ne,
}
use leactor.Request.{Bytes}
use leactor.Parse.Text.{At}
use leactor.Buffers.Chain.{slice, write, write-below}

pub slice-At : (mem : Bytes) (p : Ptr) (xs : List ℕ) → At mem p xs → slice mem p (length xs) ≡ xs
slice-At mem p [] h = refl
slice-At mem p (x ∷ xs) (first, rest) = rw (first, slice-At mem (p + 1) xs rest) refl

pub length-map : (f : ℕ → ℕ) (xs : List ℕ) → length (map f xs) ≡ length xs
length-map f [] = refl
length-map f (x ∷ xs) = ap (λ (n : ℕ). suc n) (length-map f xs)

pub write-above :
    (mem : Bytes) (p : Ptr) (xs : List ℕ) (q : Ptr) → p + length xs ≤ q → write mem p xs q ≡ mem q
unfolding write
write-above mem p [] q h = refl
write-above mem p (x ∷ xs) q h =
    write-above (update mem p x) (p + 1) xs q (omega arith) ∙ update_ne mem p q x (omega arith)

pub At-write : (mem : Bytes) (p : Ptr) (xs : List ℕ) → At (write mem p xs) p xs
unfolding write
At-write mem p [] = tt
At-write mem p (x ∷ xs) = (
  write-below (update mem p x) (p + 1) xs p (omega arith) ∙ update_self mem p x,
  At-write (update mem p x) (p + 1) xs,
)

-- Bytes that agree from `p` on, and bytes that agree on a range.
pub At-same :
    (mem other : Bytes) (p : Ptr) (xs : List ℕ)
    → ((q : Ptr) → p ≤ q → q < p + length xs → other q ≡ mem q)
    → At mem p xs
    → At other p xs
At-same mem other p [] same h = tt
At-same mem other p (x ∷ xs) same (first, rest) = (
  same p (omega arith) (omega arith) ∙ first,
  At-same mem other (p + 1) xs (λ q low high. same q (omega arith) (omega arith)) rest,
)

pub At-join :
    (mem : Bytes) (p : Ptr) (xs ys : List ℕ)
    → At mem p xs
    → At mem (p + length xs) ys
    → At mem p (xs ++ ys)
At-join mem p [] ys h k = let e : p ≡ p + 0 = omega arith in rw e k
At-join mem p (x ∷ xs) ys (first, rest) k =
    let e : p + 1 + length xs ≡ p + suc (length xs) = omega arith in
    (first, At-join mem (p + 1) xs ys rest (rw e k))
