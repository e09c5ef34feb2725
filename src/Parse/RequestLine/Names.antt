-- ===== src/Parse/RequestLine/Names.antt =====
-- The methods that the request line's parser knows, as a table, and that it finds exactly those.
use leactor.Prelude.{
  ℕ, ◌+◌, ◌≤◌, ◌≡◌, refl, Ptr, Bool, true, false, ◌==◌, ◌&&◌, if◌then◌else◌, List, [], ◌∷◌, length,
  arith, ap, ◌∙◌, Bool-cases, inl, inr,
}
use leactor.Request.{Bytes}
use leactor.Parse.Text.{At}
use leactor.Parse.RequestLine.Method.{find_method}

-- Whether two texts have the same length.
abbrev same_length : List ℕ → List ℕ → Bool
same_length [] [] = true
same_length [] (y ∷ ys) = false
same_length (x ∷ xs) [] = false
same_length (x ∷ xs) (y ∷ ys) = same_length xs ys

-- Whether the first text begins with the second.
abbrev begins : List ℕ → List ℕ → Bool
begins xs [] = true
begins [] (y ∷ ys) = false
begins (x ∷ xs) (y ∷ ys) = x == y && begins xs ys

-- The methods of RFC 2616, RFC 2518 (WebDAV) and RFC 5789 (PATCH), with their bits.
abbrev pub known_methods : List (List ℕ × ℕ)
known_methods =
    (b'G' ∷ b'E' ∷ b'T' ∷ [], 0x0002)
    ∷ (b'H' ∷ b'E' ∷ b'A' ∷ b'D' ∷ [], 0x0004)
    ∷ (b'P' ∷ b'O' ∷ b'S' ∷ b'T' ∷ [], 0x0008)
    ∷ (b'P' ∷ b'U' ∷ b'T' ∷ [], 0x0010)
    ∷ (b'D' ∷ b'E' ∷ b'L' ∷ b'E' ∷ b'T' ∷ b'E' ∷ [], 0x0020)
    ∷ (b'M' ∷ b'K' ∷ b'C' ∷ b'O' ∷ b'L' ∷ [], 0x0040)
    ∷ (b'C' ∷ b'O' ∷ b'P' ∷ b'Y' ∷ [], 0x0080)
    ∷ (b'M' ∷ b'O' ∷ b'V' ∷ b'E' ∷ [], 0x0100)
    ∷ (b'O' ∷ b'P' ∷ b'T' ∷ b'I' ∷ b'O' ∷ b'N' ∷ b'S' ∷ [], 0x0200)
    ∷ (b'P' ∷ b'R' ∷ b'O' ∷ b'P' ∷ b'F' ∷ b'I' ∷ b'N' ∷ b'D' ∷ [], 0x0400)
    ∷ (b'P' ∷ b'R' ∷ b'O' ∷ b'P' ∷ b'P' ∷ b'A' ∷ b'T' ∷ b'C' ∷ b'H' ∷ [], 0x0800)
    ∷ (b'L' ∷ b'O' ∷ b'C' ∷ b'K' ∷ [], 0x1000)
    ∷ (b'U' ∷ b'N' ∷ b'L' ∷ b'O' ∷ b'C' ∷ b'K' ∷ [], 0x2000)
    ∷ (b'P' ∷ b'A' ∷ b'T' ∷ b'C' ∷ b'H' ∷ [], 0x4000)
    ∷ (b'T' ∷ b'R' ∷ b'A' ∷ b'C' ∷ b'E' ∷ [], 0x8000)
    ∷ []

-- The bit of a name; `old` if the table does not have it.
abbrev pub bit_of : List (List ℕ × ℕ) → List ℕ → ℕ → ℕ
bit_of [] name old = old
bit_of ((known, bit) ∷ rest) name old =
    if same_length name known && begins name known then bit else bit_of rest name old

-- One entry of the table, next to a test of the parser, where the second byte is the entry's or is not.
entry :
    (p q r : Bool) (x y y' : ℕ)
    → y ≡ y'
    → (if p && q && r then x else y) ≡ (if p && (true && (q && (r && true))) then x else y')
entry false q r x y y' e = e
entry true false r x y y' e = e
entry true true false x y y' e = e
entry true true true x y y' e = refl

no_entry : (p : Bool) (x y y' : ℕ) → y ≡ y' → y ≡ (if p && false then x else y')
no_entry false x y y' e = e
no_entry true x y y' e = e

-- The names of four bytes, which the parser tells apart by their second byte first.
four :
    (a b c d old : ℕ)
    → (if b == b'O'
        then if a == b'P' && c == b'S' && d == b'T'
          then 0x0008
          else if a == b'C' && c == b'P' && d == b'Y'
          then 0x0080
          else if a == b'M' && c == b'V' && d == b'E'
          then 0x0100
          else if a == b'L' && c == b'C' && d == b'K'
          then 0x1000
          else old
        else (if a == b'H' && (b == b'E' && (c == b'A' && (d == b'D' && true)))
            then 0x0004
            else old))
      ≡ bit_of known_methods (a ∷ b ∷ c ∷ d ∷ []) old
four a b c d old = elim (Bool-cases (b == b'O')) [
  | inl is ↦
      let e : b ≡ b'O' = ground arith in
      rw e (
        no_entry (a == b'H') _ _ _ (
          entry (a == b'P') (c == b'S') (d == b'T') _ _ _ (
            entry (a == b'C') (c == b'P') (d == b'Y') _ _ _ (
              entry (a == b'M') (c == b'V') (d == b'E') _ _ _
                (entry (a == b'L') (c == b'C') (d == b'K') _ _ _ refl)))))
  | inr other ↦ rw other (
      ap
        (λ (y : ℕ).
          if a == b'H' && (b == b'E' && (c == b'A' && (d == b'D' && true))) then 0x0004 else y)
        (no_entry (a == b'P') _ _ _ (
          no_entry (a == b'C') _ _ _
            (no_entry (a == b'M') _ _ _ (no_entry (a == b'L') _ _ _ refl)))))
]

find_method-long : (mem : Bytes) (m : Ptr) (n old : ℕ) → 10 ≤ n → find_method mem m n old ≡ old
unfolding find_method
find_method-long mem m n old h =
    let e3 : (n == 3) ≡ false = ground arith in
    let e4 : (n == 4) ≡ false = ground arith in
    let e5 : (n == 5) ≡ false = ground arith in
    let e6 : (n == 6) ≡ false = ground arith in
    let e7 : (n == 7) ≡ false = ground arith in
    let e8 : (n == 8) ≡ false = ground arith in
    let e9 : (n == 9) ≡ false = ground arith in rw (e3, e4, e5, e6, e7, e8, e9) refl

-- The parser finds the bit of a method by its whole name, wherever the name stands: a name that is not
-- in the table, also one that only begins like a known one, leaves the request's `method` as it was.
pub find_method-bit_of :
    (mem : Bytes) (m : Ptr) (name : List ℕ) (old : ℕ)
    → At mem m name
    → find_method mem m (length name) old ≡ bit_of known_methods name old
unfolding find_method
find_method-bit_of mem m [] old h = refl
find_method-bit_of mem m (a ∷ []) old h = refl
find_method-bit_of mem m (a ∷ b ∷ []) old h = refl
find_method-bit_of mem m (a ∷ b ∷ c ∷ []) old (h0, (h1, (h2, _))) = rw (h0, h1, h2) refl
find_method-bit_of mem m (a ∷ b ∷ c ∷ d ∷ []) old (h0, (h1, (h2, (h3, _)))) =
    let e2 : mem (m + 2) ≡ c = ap mem (omega arith) ∙ h2 in
    let e3 : mem (m + 3) ≡ d = ap mem (omega arith) ∙ h3 in
    rw (h0, h1, e2, e3, h2, h3) (four a b c d old)
find_method-bit_of mem m (a ∷ b ∷ c ∷ d ∷ e ∷ []) old (h0, (h1, (h2, (h3, (h4, _))))) =
    rw (h0, h1, h2, h3, h4) refl
find_method-bit_of mem m (a ∷ b ∷ c ∷ d ∷ e ∷ f ∷ []) old (h0, (h1, (h2, (h3, (h4, (h5, _)))))) =
    rw (h0, h1, h2, h3, h4, h5) refl
find_method-bit_of mem m (a ∷ b ∷ c ∷ d ∷ e ∷ f ∷ g ∷ []) old
      (h0, (h1, (h2, (h3, (h4, (h5, (h6, _))))))) =
    rw (h0, h1, h2, h3, h4, h5, h6) refl
find_method-bit_of mem m (a ∷ b ∷ c ∷ d ∷ e ∷ f ∷ g ∷ i ∷ []) old
      (h0, (h1, (h2, (h3, (h4, (h5, (h6, (h7, _)))))))) =
    rw (h0, h1, h2, h3, h4, h5, h6, h7) refl
find_method-bit_of mem m (a ∷ b ∷ c ∷ d ∷ e ∷ f ∷ g ∷ i ∷ j ∷ []) old
      (h0, (h1, (h2, (h3, (h4, (h5, (h6, (h7, (h8, _))))))))) =
    rw (h0, h1, h2, h3, h4, h5, h6, h7, h8) refl
find_method-bit_of mem m (a ∷ b ∷ c ∷ d ∷ e ∷ f ∷ g ∷ i ∷ j ∷ k ∷ rest) old h =
    find_method-long mem m (length (a ∷ b ∷ c ∷ d ∷ e ∷ f ∷ g ∷ i ∷ j ∷ k ∷ rest)) old (omega arith)
