-- ===== src/Host.antt =====
-- http_parse.c: http_process_host, and lowcase_key_copy_from_origin of http.c that it calls. A string is
-- a list of bytes, the bytes at `data` up to `length`; tolower of the C library is a parameter.
pub mod Spec
pub mod Laws
mod Tests
use leactor.Prelude.{
  ℕ, suc, ◌+◌, ◌-◌, Bool, true, false, List, [], ◌∷◌, map, Option, none, some, ◌==◌, ◌&&◌, not,
  if◌then◌else◌, length, take,
}

pub data Sw : Type 0 where
  usual literal rest : Sw

-- The local variables of the loop.
pub record Local : Type 0 where
  pub state : Sw
  pub dot_pos : ℕ
  pub host_len : ℕ

-- `state == sw_usual` and `state == sw_literal`
abbrev pub is_usual : Sw → Bool
is_usual usual = true
is_usual literal = false
is_usual rest = false

abbrev pub is_literal : Sw → Bool
is_literal usual = false
is_literal literal = true
is_literal rest = false

-- The switch on the byte `ch` at the index `i`; `none` is LERROR. The test for two dots in a row is
-- `dot_pos == i - 1` on size_t, where no position is the -1 of `i` = 0.
switch : ℕ → ℕ → Local → Option Local
switch i ch l =
    if ch == b'.'
    then (if l.dot_pos + 1 == i then none else some (record l { dot_pos = i }))
    else if ch == b':'
    then some (if is_usual l.state then record l { host_len = i; state = rest } else l)
    else if ch == b'['
    then some (if i == 0 then record l { state = literal } else l)
    else if ch == b']'
    then some (if is_literal l.state then record l { host_len = i + 1; state = rest } else l)
    else if ch == 0
    then none
    else if ch == b'/'
    then none
    else some l

-- Whether the loop goes on after a round.
abbrev go_on : Option Local → (Local → Option Local) → Option Local
go_on none f = none
go_on (some l) f = f l

loop : ℕ → List ℕ → Local → Option Local
loop i [] l = some l
loop i (ch ∷ chs) l = go_on (switch i ch l) (loop (i + 1) chs)

-- lowcase_key_copy_from_origin(low, origin), by the bytes that it leaves at `low->data`.
unfoldable pub lowcase_key_copy : (ℕ → ℕ) → List ℕ → List ℕ
lowcase_key_copy tolower origin = map tolower origin

-- What follows the loop. The bytes behind the new length stay in memory, in lower case too.
finish : (ℕ → ℕ) → List ℕ → Option Local → Option (ℕ × List ℕ)
finish tolower host none = none
finish tolower host (some l) =
    let n = if l.dot_pos + 1 == l.host_len then l.host_len - 1 else l.host_len in
    if n == 0 then none else some (n, lowcase_key_copy tolower host)

-- http_process_host: `none` for LERROR, else the new length and the bytes at `host->data`.
unfoldable pub process_host : (ℕ → ℕ) → List ℕ → Option (ℕ × List ℕ)
unfolding switch loop finish lowcase_key_copy
process_host tolower host =
    finish tolower host
      (loop 0 host (record { state = usual; dot_pos = length host; host_len = length host }))
