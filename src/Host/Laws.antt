-- ===== src/Host/Laws.antt =====
-- http_process_host computes its description.
use leactor.Prelude.{
  ℕ, suc, ◌+◌, ◌-◌, ◌<◌, ◌≤◌, ◌≡◌, ◌≢◌, refl, ap, ◌∙◌, ◌⊎◌, Bool, true, false, Bool-cases, inl, inr,
  List, [], ◌∷◌, map, Option, none, some, ◌==◌, ◌&&◌, not, if◌then◌else◌, length, arith,
}
use leactor.Host.{
  Sw, usual, literal, rest, Local, switch, loop, finish, process_host, lowcase_key_copy,
}
use leactor.Host.Spec.{is_allowed, is_clean, first_at, last_at, host_end, kept_length}

-- The loop's result less the state, which nothing reads any more.
abbrev view : Option Local → Option (ℕ × ℕ)
view none = none
view (some l) = some (l.dot_pos, l.host_len)

abbrev local : Sw → ℕ → ℕ → Local
local state dot_pos host_len = record { state = state; dot_pos = dot_pos; host_len = host_len }

-- The dot's position is before the text at `i`, or behind it if there was none.
abbrev IsElsewhere : ℕ → List ℕ → ℕ → Type 0
IsElsewhere i xs dot = (dot < i) ⊎ (i + length xs ≤ dot)

abbrev next_dot : ℕ → ℕ → ℕ → ℕ
next_dot i c dot = if c == b'.' then i else dot

-- The rounds, by the state.
module _ (i c dot len : ℕ) where
  switch-rest :
      0 < i
      → switch i c (local rest dot len)
        ≡ (if is_allowed (dot + 1 == i) c then some (local rest (next_dot i c dot) len) else none)
  unfolding switch
  switch-rest h = ground arith

  switch-literal :
      0 < i
      → switch i c (local literal dot len) ≡ (
          if c == b']'
          then some (local rest dot (i + 1))
          else if is_allowed (dot + 1 == i) c
          then some (local literal (next_dot i c dot) len)
          else none)
  unfolding switch
  switch-literal h = ground arith

  switch-usual :
      0 < i
      → switch i c (local usual dot len) ≡ (
          if c == b':'
          then some (local rest dot i)
          else if is_allowed (dot + 1 == i) c
          then some (local usual (next_dot i c dot) len)
          else none)
  unfolding switch
  switch-usual h = ground arith

  -- The dot's position tells whether the next byte comes behind a dot.
  dotted-next :
      (cs : List ℕ) → IsElsewhere i (c ∷ cs) dot → (next_dot i c dot + 1 == i + 1) ≡ (c == b'.')
  dotted-next cs d = ground arith

  next-IsElsewhere :
      (cs : List ℕ) → IsElsewhere i (c ∷ cs) dot → IsElsewhere (i + 1) cs (next_dot i c dot)
  next-IsElsewhere cs d = ground arith

  same-IsElsewhere : (cs : List ℕ) → IsElsewhere i (c ∷ cs) dot → IsElsewhere (i + 1) cs dot
  same-IsElsewhere cs d = omega arith

  not-dotted : (cs : List ℕ) → IsElsewhere i (c ∷ cs) dot → (dot + 1 == i + 1) ≡ false
  not-dotted cs d = ground arith

-- A byte that is none of the three is allowed anywhere, and is no dot.
mark-allowed :
    (m c : ℕ) (dotted : Bool)
    → m ≢ b'.'
    → m ≢ 0
    → m ≢ b'/'
    → (c == m) ≡ true
    → (is_allowed dotted c ≡ true) × ((c == b'.') ≡ false)
mark-allowed m c dotted dot nul slash e = ground arith

-- The rest of the loop, by the state that it starts in; `i` is not 0.
loop-rest :
    (i : ℕ) (xs : List ℕ) (dot len : ℕ)
    → 0 < i
    → IsElsewhere i xs dot
    → view (loop i xs (local rest dot len))
      ≡ (if is_clean (dot + 1 == i) xs then some (last_at b'.' i xs dot, len) else none)
unfolding loop is_clean last_at first_at
loop-rest i [] dot len h d = refl
loop-rest i (c ∷ cs) dot len h d =
    let on = rw (dotted-next i c dot len cs d) at (
      loop-rest (i + 1) cs (next_dot i c dot) len (omega arith)
        (next-IsElsewhere i c dot len cs d)) in
    rw (switch-rest i c dot len h) (elim (Bool-cases (is_allowed (dot + 1 == i) c)) [
      | inl ok ↦ rw (ok) on
      | inr bad ↦ rw (bad) refl
    ])

loop-literal :
    (i : ℕ) (xs : List ℕ) (dot len : ℕ)
    → 0 < i
    → IsElsewhere i xs dot
    → view (loop i xs (local literal dot len)) ≡ (
        if is_clean (dot + 1 == i) xs
        then some (last_at b'.' i xs dot, first_at b']' (i + 1) xs len)
        else none)
unfolding loop is_clean last_at first_at
loop-literal i [] dot len h d = refl
loop-literal i (c ∷ cs) dot len h d =
    let on = rw (dotted-next i c dot len cs d) at (
      loop-literal (i + 1) cs (next_dot i c dot) len (omega arith)
        (next-IsElsewhere i c dot len cs d)) in
    rw (switch-literal i c dot len h) (elim (Bool-cases (c == b']')) [
      | inl mark ↦
          let (allowed, plain) =
            mark-allowed b']' c (dot + 1 == i) (ground arith) (ground arith) (ground arith) mark in
          let stop =
            rw (not-dotted i c dot len cs d) at (
              loop-rest (i + 1) cs dot (i + 1) (omega arith) (same-IsElsewhere i c dot len cs d)) in
          rw (mark, allowed, plain) stop
      | inr other ↦ rw other (elim (Bool-cases (is_allowed (dot + 1 == i) c)) [
        | inl ok ↦ rw ok on
        | inr bad ↦ rw bad refl
      ])
    ])

loop-usual :
    (i : ℕ) (xs : List ℕ) (dot len : ℕ)
    → 0 < i
    → IsElsewhere i xs dot
    → view (loop i xs (local usual dot len)) ≡ (
        if is_clean (dot + 1 == i) xs
        then some (last_at b'.' i xs dot, first_at b':' i xs len)
        else none)
unfolding loop is_clean last_at first_at
loop-usual i [] dot len h d = refl
loop-usual i (c ∷ cs) dot len h d =
    let on = rw (dotted-next i c dot len cs d) at (
      loop-usual (i + 1) cs (next_dot i c dot) len (omega arith)
        (next-IsElsewhere i c dot len cs d)) in
    rw (switch-usual i c dot len h) (elim (Bool-cases (c == b':')) [
      | inl mark ↦
          let (allowed, plain) =
            mark-allowed b':' c (dot + 1 == i) (ground arith) (ground arith) (ground arith) mark in
          let stop =
            rw (not-dotted i c dot len cs d) at
              (loop-rest (i + 1) cs dot (i) (omega arith) (same-IsElsewhere i c dot len cs d)) in
          rw (mark, allowed, plain) stop
      | inr other ↦ rw other (elim (Bool-cases (is_allowed (dot + 1 == i) c)) [
        | inl ok ↦ rw ok on
        | inr bad ↦ rw bad refl
      ])
    ])

-- The round at index 0.
switch-start :
    (c n : ℕ)
    → switch 0 c (local usual n n) ≡ (
        if c == b'['
        then some (local literal n n)
        else if c == b':'
        then some (local rest n 0)
        else if is_allowed false c
        then some (local usual (next_dot 0 c n) n)
        else none)
unfolding switch
switch-start c n = ground arith

dotted-start : (c : ℕ) (cs : List ℕ) → (next_dot 0 c (suc (length cs)) + 1 == 1) ≡ (c == b'.')
dotted-start c cs = ground arith

-- The whole loop.
loop-start :
    (xs : List ℕ)
    → view (loop 0 xs (local usual (length xs) (length xs)))
      ≡ (if is_clean false xs then some (last_at b'.' 0 xs (length xs), host_end xs) else none)
unfolding loop is_clean last_at host_end
loop-start [] = refl
loop-start (c ∷ cs) =
    let n = length (c ∷ cs) in
    let behind : IsElsewhere 1 cs n = inr (omega arith) in
    let plain : (n + 1 == 1) ≡ false = ground arith in
    rw (switch-start c n) (elim (Bool-cases (c == b'[')) [
      | inl bracket ↦
          let (allowed, no_dot) =
            mark-allowed b'[' c false (ground arith) (ground arith) (ground arith) bracket in
          rw (bracket, allowed, no_dot) (rw plain at (loop-literal 1 cs n n (omega arith) behind))
      | inr other ↦ rw other (elim (Bool-cases (c == b':')) [
        | inl colon ↦
            let (allowed, no_dot) =
              mark-allowed b':' c false (ground arith) (ground arith) (ground arith) colon in
            rw (colon, allowed, no_dot) (rw plain at (loop-rest 1 cs n 0 (omega arith) behind))
        | inr usual_byte ↦ rw usual_byte (elim (Bool-cases (is_allowed false c)) [
          | inl ok ↦ rw ok (
              rw (dotted-start c cs) at
                (loop-usual 1 cs (next_dot 0 c n) n (omega arith) (ground arith)))
          | inr bad ↦ rw bad refl
        ])
      ])
    ])

-- What follows the loop, as a function of what it leaves.
abbrev finish_view : (ℕ → ℕ) → List ℕ → Option (ℕ × ℕ) → Option (ℕ × List ℕ)
finish_view tolower host none = none
finish_view tolower host (some (dot, len)) =
    let n = if dot + 1 == len then len - 1 else len in
    if n == 0 then none else some (n, map tolower host)

finish-view :
    (tolower : ℕ → ℕ) (host : List ℕ) (o : Option Local)
    → finish tolower host o ≡ finish_view tolower host (view o)
unfolding finish lowcase_key_copy
finish-view tolower host none = refl
finish-view tolower host (some l) = refl

-- For every text http_process_host answers LERROR exactly when the text holds a NUL, a slash or two dots
-- in a row or nothing is left of it; otherwise all of the text is in lower case, and the new
-- length is that of the host without its port, less one for a dot that ends it, if that dot is
-- the last one of the whole text, the port included.
pub process_host-kept :
    (tolower : ℕ → ℕ) (host : List ℕ)
    → process_host tolower host ≡ (
        if is_clean false host && not (kept_length host == 0)
        then some (kept_length host, map tolower host)
        else none)
unfolding process_host kept_length
process_host-kept tolower host =
    let clean = is_clean false host in
    let loop_end = loop 0 host (local usual (length host) (length host)) in
    finish-view tolower host loop_end
    ∙ ap (finish_view tolower host) (loop-start host)
    ∙ (elim (Bool-cases clean) [ inl ok ↦ rw ok (ground arith) | inr bad ↦ rw bad refl ])
