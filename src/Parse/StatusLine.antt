-- ===== src/Parse/StatusLine.antt =====
-- ngx_http_parse_status_line: the first line of an upstream's response.
pub mod Chunks
pub mod Rounds
pub mod Line
use leactor.Prelude.{
  ℕ, ◌+◌, ◌-◌, ◌*◌, Ptr, null, ℤ, Bool, ltb, leb, ◌==◌, ◌&&◌, ◌||◌, if◌then◌else◌, Option, none,
  some,
}
use leactor.Request.{Bytes, int32, Buffer, Status, Request}
use leactor.Parse.{
  Next, go, leave, done, header_done, undefined, Scanned, at_end, stopped, scan, lok, lerror,
  lagain,
}

-- The enum of the states. `unlisted` stands for any other value of `r->state`, which no case matches.
pub data Sw : Type 0 where
  start h ht htt http : Sw
  first_major_digit major_digit first_minor_digit minor_digit : Sw
  status space_after_status status_text almost_done : Sw
  unlisted : ℕ → Sw

unfoldable pub encode : Sw → ℕ
encode start = 0
encode h = 1
encode ht = 2
encode htt = 3
encode http = 4
encode first_major_digit = 5
encode major_digit = 6
encode first_minor_digit = 7
encode minor_digit = 8
encode status = 9
encode space_after_status = 10
encode status_text = 11
encode almost_done = 12
encode (unlisted n) = 13 + n

unfoldable pub decode : ℕ → Sw
decode n =
    if n == 0
    then start
    else if n == 1
    then h
    else if n == 2
    then ht
    else if n == 3
    then htt
    else if n == 4
    then http
    else if n == 5
    then first_major_digit
    else if n == 6
    then major_digit
    else if n == 7
    then first_minor_digit
    else if n == 8
    then minor_digit
    else if n == 9
    then status
    else if n == 10
    then space_after_status
    else if n == 11
    then status_text
    else if n == 12
    then almost_done
    else unlisted (n - 13)

pub record Local : Type 0 where
  pub r : Request
  pub st : Status
  pub state : Sw

abbrev is_digit : ℕ → Bool
is_digit ch = leb b'0' ch && leb ch b'9'

-- A state that wants one byte and goes on to the next state.
expect : ℕ → Sw → ℕ → Local → Next Local
expect want next ch l = if ch == want then go (record l { state = next }) else leave lerror l

case_start : Ptr → ℕ → Local → Next Local
case_start p ch l =
    if ch == b'H'
    then go (record l { r = record (l.r) { request_start = p; http_protocol_data = p }; state = h })
    else leave lerror l

case_first_major_digit : ℕ → Local → Next Local
case_first_major_digit ch l =
    if ltb ch b'1' || ltb b'9' ch
    then leave lerror l
    else go (record l { r = record (l.r) { http_major = ch - b'0' }; state = major_digit })

case_major_digit : ℕ → Local → Next Local
case_major_digit ch l =
    if ch == b'.'
    then go (record l { state = first_minor_digit })
    else if ltb ch b'0' || ltb b'9' ch
    then leave lerror l
    else go
        (record l { r = record (l.r) { http_major = int32 (l.r.http_major * 10 + (ch - b'0')) } })

case_first_minor_digit : ℕ → Local → Next Local
case_first_minor_digit ch l =
    if ltb ch b'0' || ltb b'9' ch
    then leave lerror l
    else go (record l { r = record (l.r) { http_minor = ch - b'0' }; state = minor_digit })

case_minor_digit : Ptr → ℕ → Local → Next Local
case_minor_digit p ch l =
    if ch == b' '
    then go (record l { r = record (l.r) { http_protocol_end = p - 1 }; state = status })
    else if ltb ch b'0' || ltb b'9' ch
    then leave lerror l
    else go
        (record l { r = record (l.r) { http_minor = int32 (l.r.http_minor * 10 + (ch - b'0')) } })

case_status : Ptr → ℕ → Local → Next Local
case_status p ch l =
    if ch == b' '
    then go l
    else if ltb ch b'0' || ltb b'9' ch
    then leave lerror l
    else (let code = int32 (l.st.code * 10 + (ch - b'0')) in
        let count = int32 (l.st.count + 1) in
        if count == 3
        then go (record l {
          st = record (l.st) { code = code; count = count; start = p - 2 };
          state = space_after_status;
        })
        else go (record l { st = record (l.st) { code = code; count = count } }))

case_space_after_status : ℕ → Local → Next Local
case_space_after_status ch l =
    if ch == b' '
    then go (record l { state = status_text })
    else if ch == b'.'
    then go (record l { state = status_text })
    else if ch == 13
    then go (record l { state = almost_done })
    else if ch == 10
    then done l
    else leave lerror l

case_status_text : ℕ → Local → Next Local
case_status_text ch l =
    if ch == 13 then go (record l { state = almost_done }) else if ch == 10 then done l else go l

case_almost_done : Ptr → ℕ → Local → Next Local
case_almost_done p ch l =
    let l' : Local = record l { st = record (l.st) { end = p - 1 } } in
    if ch == 10 then done l' else leave lerror l'

-- The switch.
switch : Sw → Ptr → ℕ → Local → Next Local
switch start p ch l = case_start p ch l
switch h p ch l = expect b'T' ht ch l
switch ht p ch l = expect b'T' htt ch l
switch htt p ch l = expect b'P' http ch l
switch http p ch l = expect b'/' first_major_digit ch l
switch first_major_digit p ch l = case_first_major_digit ch l
switch major_digit p ch l = case_major_digit ch l
switch first_minor_digit p ch l = case_first_minor_digit ch l
switch minor_digit p ch l = case_minor_digit p ch l
switch status p ch l = case_status p ch l
switch space_after_status p ch l = case_space_after_status ch l
switch status_text p ch l = case_status_text ch l
switch almost_done p ch l = case_almost_done p ch l
switch (unlisted n) p ch l = go l

unfoldable pub round : Bytes → Ptr → Local → Next Local
unfolding switch expect case_start case_first_major_digit case_major_digit case_first_minor_digit
    case_minor_digit case_status case_space_after_status case_status_text case_almost_done
round mem p l = switch l.state p (mem p) l

-- What a call leaves behind: the code, the request, the status and the buffer.
pub record Parsed : Type 0 where
  pub code : ℤ
  pub r : Request
  pub st : Status
  pub b : Buffer

-- The code under the label `done`.
finish : Ptr → Local → Buffer → Parsed
finish p l b =
    let end = if l.st.end == null then p else l.st.end in
    record {
      code = lok;
      r = record (l.r) { state = 0 };
      st = record (l.st) {
        end = end;
        http_version = int32 (l.r.http_major * 1000 + l.r.http_minor);
      };
      b = record b { pos = p + 1 };
    }

-- What follows the loop; an undefined round does not occur in this parser.
conclude : Buffer → Scanned Local → Option Parsed
conclude b (at_end p l) = some (record {
  code = lagain;
  r = record (l.r) { state = encode l.state };
  st = l.st;
  b = record b { pos = p };
})
conclude b (stopped p (go l)) = none
conclude b (stopped p (leave code l)) = some (record { code = code; r = l.r; st = l.st; b = b })
conclude b (stopped p (done l)) = some (finish p l b)
conclude b (stopped p (header_done l)) = none
conclude b (stopped p undefined) = none

unfoldable pub begin : Request → Status → Local
begin r st = record { r = r; st = st; state = decode r.state }

unfoldable pub parse_status_line : Bytes → Request → Buffer → Status → Option Parsed
unfolding round finish conclude begin
parse_status_line mem r b st = conclude b (scan (round mem) (b.last - b.pos) b.pos (begin r st))
