-- ===== src/Parse/HeaderLine/Rounds.antt =====
-- The rounds of the loop that a well-formed header line goes through, one by one and in a run.
use leactor.Prelude.{
  ℕ, suc, ◌+◌, ◌*◌, ◌%◌, ◌^◌, true, leb, ◌&&◌, ◌||◌, ◌≡◌, ◌≢◌, refl, ◌∙◌, inl, inr, Ptr, Bool,
  false, arith, ◌==◌, if◌then◌else◌, List, [], ◌∷◌, length, Bool-cases, update, last_or,
}
use leactor.Request.{Bytes, Request}
use leactor.Parse.{go, done, Scanned, scan}
use leactor.Parse.Scan.{scan-step, scan-stay}
use leactor.Parse.Text.{At, All}
use leactor.Parse.HeaderLine.{
  Sw, start, name, space_before_value, value, space_after_value, almost_done, Local, round, lowcase,
  ngx_hash,
}

abbrev pub is_name_byte : ℕ → Bool
is_name_byte c =
    c == b'-'
    || (leb b'0' c && leb c b'9')
    || (leb b'A' c && leb c b'Z')
    || (leb b'a' c && leb c b'z')

-- An ASCII letter in lower case, any other byte as it is.
abbrev pub ascii_lower : ℕ → ℕ
ascii_lower c = if leb b'A' c && leb c b'Z' then c + 32 else c

-- A byte of a field name: a letter, a digit or a dash.
abbrev pub NameByte : ℕ → Type 0
NameByte c = is_name_byte c ≡ true

-- A byte of a field value: not CR, LF or NUL.
abbrev pub ValueByte : ℕ → Type 0
ValueByte c = (c ≢ 13) × (c ≢ 10) × (c ≢ 0)

-- The hash of the bytes in lower case, from `h` on: 31 times what there is and the next byte, modulo 2 ^ 32.
unfoldable pub name_hash : ℕ → List ℕ → ℕ
name_hash h [] = h
name_hash h (c ∷ cs) = name_hash ((h * 31 + ascii_lower c) % 2 ^ 32) cs

pub NameByte-lowcase : (c : ℕ) → NameByte c → lowcase c ≢ 0
unfolding lowcase
NameByte-lowcase c h = ground arith

pub ngx_hash-lowcase :
    (h c : ℕ) → NameByte c → ngx_hash h (lowcase c) ≡ (h * 31 + ascii_lower c) % 2 ^ 32
unfolding lowcase ngx_hash
ngx_hash-lowcase h c n = ground arith

pub NameByte-not_end : (c : ℕ) → NameByte c → (c ≢ 13) × (c ≢ 10)
NameByte-not_end c h = ground arith

abbrev pub local : Request → Sw → ℕ → ℕ → Local
local r state hash i = record { r = r; state = state; hash = hash; i = i }

-- The rounds that a field goes through.
module _ (allow : Bool) (mem : Bytes) (p c : ℕ) (r : Request) (hash i : ℕ) (h : mem p ≡ c) where
  pub round_first :
      NameByte c
      → c ≢ 13
      → c ≢ 10
      → round allow mem p (local r start hash i)
        ≡ go (
            local
              (record r {
                header_name_start = p;
                invalid_header = false;
                lowcase_header = update r.lowcase_header 0 (lowcase c);
              })
              name
              (ngx_hash 0 (lowcase c))
              1)
  unfolding round
  round_first n cr lf = ground (arith, NameByte-lowcase c n)

  pub round_name :
      NameByte c
      → round allow mem p (local r name hash i)
        ≡ go (
            local
              (record r { lowcase_header = update r.lowcase_header i (lowcase c) })
              name
              (ngx_hash hash (lowcase c))
              ((i + 1) % 32))
  unfolding round
  round_name n = ground (arith, NameByte-lowcase c n)

  pub round_colon :
      c ≡ b':'
      → round allow mem p (local r name hash i)
        ≡ go (local (record r { header_name_end = p }) space_before_value hash i)
  unfolding round lowcase
  round_colon e = rw (h, e) refl

  pub round_space :
      c ≡ b' '
      → round allow mem p (local r space_before_value hash i)
        ≡ go (local r space_before_value hash i)
  unfolding round
  round_space e = rw (h, e) refl

  pub round_first_value :
      ValueByte c
      → c ≢ b' '
      → round allow mem p (local r space_before_value hash i)
        ≡ go (local (record r { header_start = p }) value hash i)
  unfolding round
  round_first_value v s = ground arith

  pub round_value :
      ValueByte c → c ≢ b' ' → round allow mem p (local r value hash i) ≡ go (local r value hash i)
  unfolding round
  round_value v s = ground arith

  pub round_value_space :
      c ≡ b' '
      → round allow mem p (local r value hash i)
        ≡ go (local (record r { header_end = p }) space_after_value hash i)
  unfolding round
  round_value_space e = rw (h, e) refl

  pub round_spaces :
      c ≡ b' '
      → round allow mem p (local r space_after_value hash i) ≡ go (local r space_after_value hash i)
  unfolding round
  round_spaces e = rw (h, e) refl

  pub round_value_again :
      ValueByte c
      → c ≢ b' '
      → round allow mem p (local r space_after_value hash i) ≡ go (local r value hash i)
  unfolding round
  round_value_again v s = ground arith

  pub round_cr :
      c ≡ 13
      → round allow mem p (local r value hash i)
        ≡ go (local (record r { header_end = p }) almost_done hash i)
  unfolding round
  round_cr e = rw (h, e) refl

  pub round_lf :
      c ≡ 10 → round allow mem p (local r almost_done hash i) ≡ done (local r almost_done hash i)
  unfolding round
  round_lf e = rw (h, e) refl

module _ (allow : Bool) (mem : Bytes) where
  abbrev pub run : ℕ → Ptr → Local → Scanned Local
  run = scan (round allow mem)

  pub step :
      (m n : ℕ) (p q : Ptr) (l l' : Local)
      → round allow mem p l ≡ go l'
      → m ≡ suc n
      → p + 1 ≡ q
      → run m p l ≡ run n q l'
  step = scan-step (round allow mem)

  pub stay : (m n : ℕ) (p q : Ptr) (l : Local) → m ≡ n → p ≡ q → run m p l ≡ run n q l
  stay = scan-stay (round allow mem)

  pub read_name :
      (m n : ℕ) (p : Ptr) (cs : List ℕ) (r : Request) (hash i : ℕ)
      → m ≡ length cs + n
      → At mem p cs
      → All NameByte cs
      → (f : ℕ → ℕ) × (j : ℕ) × (run m p (local r name hash i)
          ≡ run n
              (p + length cs)
              (local (record r { lowcase_header = f }) name (name_hash hash cs) j))
  unfolding name_hash
  read_name m n p [] r hash i e h a =
      (r.lowcase_header, i, stay m n p (p + 0) _ (omega arith) (omega arith))
  read_name m n p (c ∷ cs) r hash i e h a =
      let (f, j, rest) =
        read_name (length cs + n) n (p + 1) cs
          (record r { lowcase_header = update r.lowcase_header i (lowcase c) })
          ((hash * 31 + ascii_lower c) % 2 ^ 32) ((i + 1) % 32) refl h.1 a.1 in
      (
        f,
        j,
        step m (length cs + n) p (p + 1) _ _
              (rw (← ngx_hash-lowcase hash c a.0) (round_name allow mem p c r hash i h.0 a.0))
              (omega arith) refl
            ∙ rest
            ∙ stay n n (p + 1 + length cs) (p + suc (length cs)) _ refl (omega arith),
      )

  -- The state in which a value is read on: after a space, or not.
  abbrev pub in_value : ℕ → Sw
  in_value c = if c == b' ' then space_after_value else value

  pub round-in_value :
      (p b c : ℕ) (r : Request) (hash i : ℕ)
      → mem p ≡ c
      → ValueByte c
      → (e : Ptr) × (round allow mem p (local r (in_value b) hash i)
          ≡ go (local (record r { header_end = e }) (in_value c) hash i))
  round-in_value p b c r hash i h v = elim (Bool-cases (b == b' ')) [
    | inl after_space ↦ elim (Bool-cases (c == b' ')) [
      | inl space ↦ (
        r.header_end,
        rw (after_space, space) (round_spaces allow mem p c r hash i h (ground arith)),
      )
      | inr other ↦ (
        r.header_end,
        rw (after_space, other) (round_value_again allow mem p c r hash i h v (ground arith)),
      )
    ]
    | inr after_other ↦ elim (Bool-cases (c == b' ')) [
      | inl space ↦
          (p, rw (after_other, space) (round_value_space allow mem p c r hash i h (ground arith)))
      | inr other ↦ (
        r.header_end,
        rw (after_other, other) (round_value allow mem p c r hash i h v (ground arith)),
      )
    ]
  ]

  pub read_value :
      (m n : ℕ) (p : Ptr) (b : ℕ) (cs : List ℕ) (r : Request) (hash i : ℕ)
      → m ≡ length cs + n
      → At mem p cs
      → All ValueByte cs
      → (e : Ptr) × (run m p (local r (in_value b) hash i)
          ≡ run n
              (p + length cs)
              (local (record r { header_end = e }) (in_value (last_or b cs)) hash i))
  read_value m n p b [] r hash i e h a =
      (r.header_end, stay m n p (p + 0) _ (omega arith) (omega arith))
  read_value m n p b (c ∷ cs) r hash i e h a =
      let (x, first) = round-in_value p b c r hash i h.0 a.0 in
      let (y, rest) =
        read_value (length cs + n) n (p + 1) c cs (record r { header_end = x }) hash i refl h.1
          a.1 in
      (
        y,
        step m (length cs + n) p (p + 1) _ _ first (omega arith) refl
            ∙ rest
            ∙ stay n n (p + 1 + length cs) (p + suc (length cs)) _ refl (omega arith),
      )
