-- ===== src/Host/Spec.antt =====
-- What http_process_host accepts and keeps, said of the whole text.
use leactor.Prelude.{
  ℕ, ◌+◌, ◌-◌, Bool, true, false, List, [], ◌∷◌, ◌==◌, ◌&&◌, not, if◌then◌else◌, length,
}

-- Not a NUL, a slash, or a dot behind a dot.
abbrev pub is_allowed : Bool → ℕ → Bool
is_allowed dotted c = not (c == 0) && not (c == b'/') && not (dotted && c == b'.')

-- No NUL, no slash, and no two dots in a row; `dotted` says that a dot stands before the text.
unfoldable pub is_clean : Bool → List ℕ → Bool
is_clean dotted [] = true
is_clean dotted (c ∷ cs) = if is_allowed dotted c then is_clean (c == b'.') cs else false

-- The position of the first `c`, counted from `i`; `d` if there is none.
unfoldable pub first_at : ℕ → ℕ → List ℕ → ℕ → ℕ
first_at c i [] d = d
first_at c i (x ∷ xs) d = if x == c then i else first_at c (i + 1) xs d

-- The position of the last `c`, counted from `i`; `d` if there is none.
unfoldable pub last_at : ℕ → ℕ → List ℕ → ℕ → ℕ
last_at c i [] d = d
last_at c i (x ∷ xs) d = last_at c (i + 1) xs (if x == c then i else d)

-- Where the host ends: behind the bracket that closes an IP literal, or before the colon of the port.
unfoldable pub host_end : List ℕ → ℕ
unfolding first_at
host_end [] = 0
host_end (c ∷ cs) =
    let n = length (c ∷ cs) in
    if c == b'[' then first_at b']' 2 cs n else first_at b':' 0 (c ∷ cs) n

-- The length that is kept: without a dot before the end, if it is the last one in the whole text.
unfoldable pub kept_length : List ℕ → ℕ
unfolding host_end last_at
kept_length host =
    let n = length host in
    let end = host_end host in if last_at b'.' 0 host n + 1 == end then end - 1 else end
