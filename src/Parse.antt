-- ===== src/Parse.antt =====
-- ngx_http_parse.c: what its three parsers share. Each is a loop `for (p = b->pos; p < b->last; p++)`
-- over a switch on the state. A parser's local variables, and the request that it writes, are
-- its value of type `L`; one round answers with a `Next`. The loop runs on the bytes that are left, so
-- it needs no fuel.
pub mod Scan
pub mod Resume
pub mod Text
pub mod StatusLine
pub mod HeaderLine
pub mod RequestLine
mod Tests
use leactor.Prelude.{ℕ, zero, suc, ◌+◌, ◌-◌, Ptr, ℤ, pos, negsuc}
use leactor.Request.{Bytes}

-- What the body of the loop does: go on with the next byte, `return` a code at once, jump to the label
-- `done` or to `header_done`, or fall into undefined behaviour.
pub data Next {ℓ} (L : Type ℓ) : Type ℓ where
  go : L → Next L
  leave : ℤ → L → Next L
  done : L → Next L
  header_done : L → Next L
  undefined : Next L

-- How the loop ends: at the end of the buffer, or in a round at the address `p`.
pub data Scanned {ℓ} (L : Type ℓ) : Type ℓ where
  at_end : Ptr → L → Scanned L
  stopped : Ptr → Next L → Scanned L

module _ {ℓ} {L : Type ℓ} (round : Ptr → L → Next L) where
  -- A round's answer, with what follows if the loop goes on.
  abbrev pub after : Ptr → Next L → (L → Scanned L) → Scanned L
  after p (go l) rest = rest l
  after p (leave code l) rest = stopped p (leave code l)
  after p (done l) rest = stopped p (done l)
  after p (header_done l) rest = stopped p (header_done l)
  after p undefined rest = stopped p undefined

  -- The loop over `n` bytes from `p` on.
  unfoldable pub scan : ℕ → Ptr → L → Scanned L
  scan zero p l = at_end p l
  scan (suc n) p l = after p (round p l) (scan n (p + 1))

-- The return codes of event_lea.h, http.h and ngx_http_request.h.
abbrev pub lok : ℤ
lok = pos 0

abbrev pub lerror : ℤ
lerror = negsuc 1

abbrev pub lagain : ℤ
lagain = negsuc 2

abbrev pub parse_header_done : ℤ
parse_header_done = pos 1

abbrev pub parse_invalid_method : ℤ
parse_invalid_method = pos 10

abbrev pub parse_invalid_request : ℤ
parse_invalid_request = pos 11

abbrev pub parse_invalid_09_method : ℤ
parse_invalid_09_method = pos 12

abbrev pub parse_invalid_header : ℤ
parse_invalid_header = pos 13
