-- ===== src/Parse/HeaderLine.antt =====
-- ngx_http_parse_header_line: one header line, or the empty line that ends the headers.
pub mod Chunks
pub mod Rounds
pub mod Field
pub mod Blank
pub mod Waits
use leactor.Prelude.{
  ℕ, ◌+◌, ◌-◌, ◌*◌, ◌%◌, Ptr, null, ℤ, Bool, true, false, leb, ◌==◌, ◌&&◌, ◌||◌, not, if◌then◌else◌,
  Option, none, some, update,
}
use leactor.Request.{Bytes, int32, Buffer, Request}
use leactor.Parse.{
  Next, go, leave, done, header_done, undefined, Scanned, at_end, stopped, scan, lok, lagain,
  parse_header_done, parse_invalid_header,
}

-- The enum of the states. `unlisted` stands for any other value of `r->state`, which no case matches.
pub data Sw : Type 0 where
  start name space_before_value value space_after_value ignore_line almost_done header_almost_done :
      Sw
  unlisted : ℕ → Sw

unfoldable pub encode : Sw → ℕ
encode start = 0
encode name = 1
encode space_before_value = 2
encode value = 3
encode space_after_value = 4
encode ignore_line = 5
encode almost_done = 6
encode header_almost_done = 7
encode (unlisted n) = 8 + n

unfoldable pub decode : ℕ → Sw
decode n =
    if n == 0
    then start
    else if n == 1
    then name
    else if n == 2
    then space_before_value
    else if n == 3
    then value
    else if n == 4
    then space_after_value
    else if n == 5
    then ignore_line
    else if n == 6
    then almost_done
    else if n == 7
    then header_almost_done
    else unlisted (n - 8)

-- The request and the local variables.
pub record Local : Type 0 where
  pub r : Request
  pub state : Sw
  pub hash : ℕ
  pub i : ℕ

-- The table `lowcase`: digits, the dash and the letters in lower case; 0 for every other byte.
unfoldable pub lowcase : ℕ → ℕ
lowcase ch =
    if ch == b'-'
    then ch
    else if leb b'0' ch && leb ch b'9'
    then ch
    else if leb b'A' ch && leb ch b'Z'
    then ch + 32
    else if leb b'a' ch && leb ch b'z'
    then ch
    else 0

-- The macro ngx_hash(key, c), as the bit pattern of an `int`.
unfoldable pub ngx_hash : ℕ → ℕ → ℕ
ngx_hash key c = int32 (key * 31 + c)

-- `hash = ngx_hash(0, c); r->lowcase_header[0] = c; i = 1;`
first_char : ℕ → Local → Local
first_char c l = record l {
  r = record (l.r) { lowcase_header = update l.r.lowcase_header 0 c };
  hash = ngx_hash 0 c;
  i = 1;
}

-- `hash = ngx_hash(hash, c); r->lowcase_header[i++] = c; i &= NGX_HTTP_LC_HEADER_LEN - 1;`
next_char : ℕ → Local → Local
next_char c l = record l {
  r = record (l.r) { lowcase_header = update l.r.lowcase_header l.i c };
  hash = ngx_hash l.hash c;
  i = (l.i + 1) % 32;
}

invalid : Local → Local
invalid l = record l { r = record (l.r) { invalid_header = true } }

-- The default case of the first state.
case_first_char : Bool → ℕ → Local → Next Local
case_first_char allow_underscores ch l =
    if not (lowcase ch == 0)
    then go (first_char (lowcase ch) l)
    else if ch == b'_'
    then go (if allow_underscores then first_char ch l else invalid l)
    else if ch == 0
    then leave parse_invalid_header l
    else go (invalid l)

case_start : Bool → Ptr → ℕ → Local → Next Local
case_start allow_underscores p ch l =
    let r : Request = record (l.r) { header_name_start = p; invalid_header = false } in
    if ch == 13
    then go (record l { r = record r { header_end = p }; state = header_almost_done })
    else if ch == 10
    then header_done (record l { r = record r { header_end = p } })
    else case_first_char allow_underscores ch (record l { r = r; state = name })

-- Whether a line begins with "HTTP": strncmp(r->header_name_start, "HTTP", 4) == 0.
begins_http : Bytes → Ptr → Bool
begins_http mem p =
    mem p == b'H' && mem (p + 1) == b'T' && mem (p + 2) == b'T' && mem (p + 3) == b'P'

case_name : Bool → Bytes → Ptr → ℕ → Local → Next Local
case_name allow_underscores mem p ch l =
    if not (lowcase ch == 0)
    then go (next_char (lowcase ch) l)
    else if ch == b'_'
    then go (if allow_underscores then next_char ch l else invalid l)
    else if ch == b':'
    then go (record l { r = record (l.r) { header_name_end = p }; state = space_before_value })
    else if ch == 13
    then go (record l {
      r = record (l.r) { header_name_end = p; header_start = p; header_end = p };
      state = almost_done;
    })
    else if ch == 10
    then done
        (record l { r = record (l.r) { header_name_end = p; header_start = p; header_end = p } })
    else if ch == b'/'
        && not (l.r.upstream == null)
        && (p - l.r.header_name_start == 4)
        && begins_http mem l.r.header_name_start
    then go (record l { state = ignore_line })
    else if ch == 0
    then leave parse_invalid_header l
    else go (invalid l)

case_space_before_value : Ptr → ℕ → Local → Next Local
case_space_before_value p ch l =
    if ch == b' '
    then go l
    else if ch == 13
    then go
        (record l { r = record (l.r) { header_start = p; header_end = p }; state = almost_done })
    else if ch == 10
    then done (record l { r = record (l.r) { header_start = p; header_end = p } })
    else if ch == 0
    then leave parse_invalid_header l
    else go (record l { r = record (l.r) { header_start = p }; state = value })

case_value : Ptr → ℕ → Local → Next Local
case_value p ch l =
    if ch == b' '
    then go (record l { r = record (l.r) { header_end = p }; state = space_after_value })
    else if ch == 13
    then go (record l { r = record (l.r) { header_end = p }; state = almost_done })
    else if ch == 10
    then done (record l { r = record (l.r) { header_end = p } })
    else if ch == 0
    then leave parse_invalid_header l
    else go l

case_space_after_value : ℕ → Local → Next Local
case_space_after_value ch l =
    if ch == b' '
    then go l
    else if ch == 13
    then go (record l { state = almost_done })
    else if ch == 10
    then done l
    else if ch == 0
    then leave parse_invalid_header l
    else go (record l { state = value })

case_ignore_line : ℕ → Local → Next Local
case_ignore_line ch l = if ch == 10 then go (record l { state = start }) else go l

case_almost_done : ℕ → Local → Next Local
case_almost_done ch l =
    if ch == 10 then done l else if ch == 13 then go l else leave parse_invalid_header l

case_header_almost_done : ℕ → Local → Next Local
case_header_almost_done ch l = if ch == 10 then header_done l else leave parse_invalid_header l

-- The switch.
pub switch : Sw → Bool → Bytes → Ptr → Local → Next Local
switch start allow mem p l = case_start allow p (mem p) l
switch name allow mem p l = case_name allow mem p (mem p) l
switch space_before_value allow mem p l = case_space_before_value p (mem p) l
switch value allow mem p l = case_value p (mem p) l
switch space_after_value allow mem p l = case_space_after_value (mem p) l
switch ignore_line allow mem p l = case_ignore_line (mem p) l
switch almost_done allow mem p l = case_almost_done (mem p) l
switch header_almost_done allow mem p l = case_header_almost_done (mem p) l
switch (unlisted n) allow mem p l = go l

unfoldable pub round : Bool → Bytes → Ptr → Local → Next Local
unfolding switch case_start case_first_char case_name case_space_before_value case_value
    case_space_after_value case_ignore_line case_almost_done case_header_almost_done first_char
    next_char invalid begins_http
round allow_underscores mem p l = switch l.state allow_underscores mem p l

-- What a call leaves behind: the code, the request and the buffer.
pub record Parsed : Type 0 where
  pub code : ℤ
  pub r : Request
  pub b : Buffer

-- The code under the label `done`.
finish : Ptr → Local → Buffer → Parsed
finish p l b = record {
  code = lok;
  r = record (l.r) {
    state = 0;
    header_hash = l.hash;
    header_length = int32 (l.r.header_end - l.r.header_name_start + 2);
    lowcase_index = l.i;
  };
  b = record b { pos = p + 1 };
}

-- What follows the loop; an undefined round does not occur in this parser.
conclude : Buffer → Scanned Local → Option Parsed
conclude b (at_end p l) = some (record {
  code = lagain;
  r = record (l.r) { state = encode l.state; header_hash = l.hash; lowcase_index = l.i };
  b = record b { pos = p };
})
conclude b (stopped p (go l)) = none
conclude b (stopped p (leave code l)) = some (record { code = code; r = l.r; b = b })
conclude b (stopped p (done l)) = some (finish p l b)
conclude b (stopped p (header_done l)) = some (record {
  code = parse_header_done;
  r = record (l.r) { state = 0 };
  b = record b { pos = p + 1 };
})
conclude b (stopped p undefined) = none

unfoldable pub begin : Request → Local
begin r = record { r = r; state = decode r.state; hash = r.header_hash; i = r.lowcase_index }

unfoldable pub parse_header_line : Bytes → Request → Buffer → Bool → Option Parsed
unfolding round finish conclude begin
parse_header_line mem r b allow_underscores =
    conclude b (scan (round allow_underscores mem) (b.last - b.pos) b.pos (begin r))
