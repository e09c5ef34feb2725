-- ===== src/Buffers/Chain.antt =====
-- Chains of buffers, and the bytes that they hold.
use leactor.Prelude.{
  ℕ, zero, suc, ◌+◌, ◌-◌, ◌<◌, ◌≡◌, ◌≢◌, refl, ap, ◌∙◌, Ptr, null, List, [], ◌∷◌, ◌++◌, length,
  arith, update, update_self, update_ne, ok,
}
use leactor.Buffers.{Buf, Allocator}

-- The bytes from the index `i` on.
abbrev pub slice : (ℕ → ℕ) → (i n : ℕ) → List ℕ
slice text i zero = []
slice text i (suc n) = text i ∷ slice text (i + 1) n

-- The text with `xs` written from the index `i` on.
unfoldable pub write : (ℕ → ℕ) → ℕ → List ℕ → ℕ → ℕ
write text i [] = text
write text i (x ∷ xs) = write (update text i x) (i + 1) xs

pub write-below : (text : ℕ → ℕ) (i : ℕ) (xs : List ℕ) (j : ℕ) → j < i → write text i xs j ≡ text j
unfolding write
write-below text i [] j h = refl
write-below text i (x ∷ xs) j h =
    write-below (update text i x) (i + 1) xs j (omega arith) ∙ update_ne text i j x (omega arith)

slice-same :
    (text other : ℕ → ℕ) (i n : ℕ)
    → ((j : ℕ) → j < i + n → other j ≡ text j)
    → slice other i n ≡ slice text i n
slice-same text other i zero h = refl
slice-same text other i (suc n) h =
    rw (h i (omega arith), slice-same text other (i + 1) n (λ j q. h j (omega arith))) refl

pub slice-append :
    (text : ℕ → ℕ) (i m n : ℕ) → slice text i (m + n) ≡ slice text i m ++ slice text (i + m) n
slice-append text i zero n =
    ap (λ (k : ℕ). slice text i k) (let e : 0 + n ≡ n = omega arith in e)
    ∙ ap (λ (j : ℕ). slice text j n) (let e : i ≡ i + 0 = omega arith in e)
slice-append text i (suc m) n =
    ap (λ (k : ℕ). slice text i k) (let e : suc m + n ≡ suc (m + n) = omega arith in e)
    ∙ ap (λ (xs : List ℕ). text i ∷ xs)
        (slice-append text (i + 1) m n
          ∙ ap (λ (j : ℕ). slice text (i + 1) m ++ slice text j n)
              (let e : i + 1 + m ≡ i + suc m = omega arith in e))

slice-write : (text : ℕ → ℕ) (i : ℕ) (xs : List ℕ) → slice (write text i xs) i (length xs) ≡ xs
unfolding write
slice-write text i [] = refl
slice-write text i (x ∷ xs) =
    rw (write-below (update text i x) (i + 1) xs i (omega arith), update_self text i x)
      (ap (λ (ys : List ℕ). x ∷ ys) (slice-write (update text i x) (i + 1) xs))

-- Writing behind the bytes appends to them.
pub slice-write_behind :
    (text : ℕ → ℕ) (i n : ℕ) (xs : List ℕ)
    → slice (write text (i + n) xs) i (n + length xs) ≡ slice text i n ++ xs
slice-write_behind text i n xs =
    slice-append (write text (i + n) xs) i n (length xs)
    ∙ rw
        (
          slice-same text (write text (i + n) xs) i n (λ j q. write-below text (i + n) xs j q),
          slice-write text (i + n) xs,
        )
        refl

-- The bytes that a buffer holds, and a list of buffers.
abbrev pub held : Buf → List ℕ
held b = slice b.text b.pos (b.last - b.pos)

abbrev pub contents : (Ptr → Buf) → List Ptr → List ℕ
contents bufs [] = []
contents bufs (p ∷ ps) = held (bufs p) ++ contents bufs ps

-- The buffers are linked in this order, and the last one's link is NULL.
abbrev pub Linked : (Ptr → Buf) → List Ptr → Type 0
Linked bufs [] = Unit
Linked bufs (p ∷ []) = (bufs p).next ≡ null
Linked bufs (p ∷ q ∷ ps) = ((bufs p).next ≡ q) × Linked bufs (q ∷ ps)

-- The manager's next elements are these, none of them NULL.
module _ {S : Type 0} ⦃a : Allocator S⦄ where
  abbrev pub Supplies : S → List Ptr → Type 0
  Supplies m [] = Unit
  Supplies m (p ∷ ps) = (n : S) × (a.alloc m ≡ ok (n, p)) × (p ≢ null) × Supplies n ps
