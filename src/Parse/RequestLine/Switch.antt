-- ===== src/Parse/RequestLine/Switch.antt =====
-- The switch of ngx_http_parse_request_line, a definition for each state or group of states.
use leactor.Prelude.{
  ℕ, ◌+◌, ◌-◌, ◌*◌, Ptr, null, Bool, true, false, ltb, ◌==◌, ◌||◌, if◌then◌else◌, Option, none,
  some,
}
use leactor.Request.{Bytes, int32}
use leactor.Parse.{Next, go, leave, done, undefined, parse_invalid_method, parse_invalid_request}
use leactor.Parse.RequestLine.Method.{find_method}
use leactor.Parse.RequestLine.States.{
  Sw, start, method, spaces_before_uri, schema, schema_slash, schema_slash_slash, host_start, host,
  host_end, host_ip_literal, port, host_http_09, after_slash_in_uri, check_uri, check_uri_http_09,
  uri, http_09, http_h, http_ht, http_htt, http_http, first_major_digit, major_digit,
  first_minor_digit, minor_digit, spaces_after_digit, almost_done, unlisted, Local, is_digit,
  is_letter, not_method_char, usual,
}

abbrev refuse : Local → Next Local
refuse l = leave parse_invalid_request l

-- A state that wants one byte and goes on to the next state.
expect : ℕ → Sw → ℕ → Local → Next Local
expect want next ch l = if ch == want then go (record l { state = next }) else refuse l

case_start : Ptr → ℕ → Local → Next Local
case_start p ch l =
    let l' : Local = record l { r = record (l.r) { request_start = p } } in
    if ch == 13 || ch == 10
    then go l'
    else if not_method_char ch
    then leave parse_invalid_method l'
    else go (record l' { state = method })

case_method : Bytes → Ptr → ℕ → Local → Next Local
case_method mem p ch l =
    if ch == b' '
    then (let m = l.r.request_start in
        go (record l {
          r = record (l.r) { method_end = p - 1; method = find_method mem m (p - m) l.r.method };
          state = spaces_before_uri;
        }))
    else if not_method_char ch
    then leave parse_invalid_method l
    else go l

case_spaces_before_uri : Ptr → ℕ → Local → Next Local
case_spaces_before_uri p ch l =
    if ch == b'/'
    then go (record l { r = record (l.r) { uri_start = p }; state = after_slash_in_uri })
    else if is_letter ch
    then go (record l { r = record (l.r) { schema_start = p }; state = schema })
    else if ch == b' '
    then go l
    else refuse l

case_schema : Ptr → ℕ → Local → Next Local
case_schema p ch l =
    if is_letter ch
    then go l
    else if ch == b':'
    then go (record l { r = record (l.r) { schema_end = p }; state = schema_slash })
    else refuse l

-- The single "/" of "://" stands for the URI that is left out.
slash_of_schema : Local → Local
slash_of_schema l = record l {
  r = record (l.r) { uri_start = l.r.schema_end + 1; uri_end = l.r.schema_end + 2 };
  state = host_http_09;
}

case_host_end : Ptr → ℕ → Local → Next Local
case_host_end p ch l =
    let l' : Local = record l { r = record (l.r) { host_end = p } } in
    if ch == b':'
    then go (record l' { state = port })
    else if ch == b'/'
    then go (record l' { r = record (l'.r) { uri_start = p }; state = after_slash_in_uri })
    else if ch == b' '
    then go (slash_of_schema l')
    else refuse l'

case_host : Ptr → ℕ → Local → Next Local
case_host p ch l =
    if is_letter ch
    then go l
    else if is_digit ch || ch == b'.' || ch == b'-'
    then go l
    else case_host_end p ch l

case_host_start : Ptr → ℕ → Local → Next Local
case_host_start p ch l =
    let l' : Local = record l { r = record (l.r) { host_start = p } } in
    if ch == b'['
    then go (record l' { state = host_ip_literal })
    else case_host p ch (record l' { state = host })

-- "-._~" and "!$&'()*+,;=", which an IP literal may hold.
is_literal_mark : ℕ → Bool
is_literal_mark ch =
    ch == b'-'
    || ch == b'.'
    || ch == b'_'
    || ch == b'~'
    || ch == b'!'
    || ch == b'$'
    || ch == b'&'
    || ch == 39
    || ch == b'('
    || ch == b')'
    || ch == b'*'
    || ch == b'+'
    || ch == b','
    || ch == b';'
    || ch == b'='

case_host_ip_literal : ℕ → Local → Next Local
case_host_ip_literal ch l =
    if is_digit ch
    then go l
    else if is_letter ch
    then go l
    else if ch == b':'
    then go l
    else if ch == b']'
    then go (record l { state = host_end })
    else if is_literal_mark ch
    then go l
    else refuse l

case_port : Ptr → ℕ → Local → Next Local
case_port p ch l =
    let l' : Local = record l { r = record (l.r) { port_end = p } } in
    if is_digit ch
    then go l
    else if ch == b'/'
    then go (record l' { r = record (l'.r) { uri_start = p }; state = after_slash_in_uri })
    else if ch == b' '
    then go (slash_of_schema l')
    else refuse l

-- The cases that the three states after a URI share: space, CR, LF and the "H" of "HTTP/".
version_or : Ptr → ℕ → Local → Next Local → Next Local
version_or p ch l other =
    if ch == b' '
    then go l
    else if ch == 13
    then go (record l { r = record (l.r) { http_minor = 9 }; state = almost_done })
    else if ch == 10
    then done (record l { r = record (l.r) { http_minor = 9 } })
    else if ch == b'H'
    then go (record l { r = record (l.r) { http_protocol_data = p }; state = http_h })
    else other

-- The cases that the three states in a URI share: space, CR and LF end it.
uri_end_or : Sw → Ptr → ℕ → Local → Next Local → Next Local
uri_end_or next p ch l other =
    if ch == b' '
    then go (record l { r = record (l.r) { uri_end = p }; state = next })
    else if ch == 13
    then go (record l { r = record (l.r) { uri_end = p; http_minor = 9 }; state = almost_done })
    else if ch == 10
    then done (record l { r = record (l.r) { uri_end = p; http_minor = 9 } })
    else other

-- A byte of a URI: what follows if it is usual, and if not; undefined if it is not ASCII.
by_usual : Option Bool → Next Local → Next Local → Next Local
by_usual none yes_usual not_usual = undefined
by_usual (some true) yes_usual not_usual = yes_usual
by_usual (some false) yes_usual not_usual = not_usual

case_after_slash_in_uri : Ptr → ℕ → Local → Next Local
case_after_slash_in_uri p ch l = by_usual (usual ch) (go (record l { state = check_uri })) (
    uri_end_or check_uri_http_09 p ch l (
      if ch == b'.'
      then go (record l { r = record (l.r) { complex_uri = true }; state = uri })
      else if ch == b'%'
      then go (record l { r = record (l.r) { quoted_uri = true }; state = uri })
      else if ch == b'/'
      then go (record l { r = record (l.r) { complex_uri = true }; state = uri })
      else if ch == b'?'
      then go (record l { r = record (l.r) { args_start = p + 1 }; state = uri })
      else if ch == b'#'
      then go (record l { r = record (l.r) { complex_uri = true }; state = uri })
      else if ch == b'+'
      then go (record l { r = record (l.r) { plus_in_uri = true } })
      else if ch == 0
      then refuse l
      else go (record l { state = check_uri })))

case_check_uri : Ptr → ℕ → Local → Next Local
case_check_uri p ch l = by_usual (usual ch) (go l) (
    if ch == b'/'
    then go (record l { r = record (l.r) { uri_ext = null }; state = after_slash_in_uri })
    else if ch == b'.'
    then go (record l { r = record (l.r) { uri_ext = p + 1 } })
    else uri_end_or check_uri_http_09 p ch l (
        if ch == b'%'
        then go (record l { r = record (l.r) { quoted_uri = true }; state = uri })
        else if ch == b'?'
        then go (record l { r = record (l.r) { args_start = p + 1 }; state = uri })
        else if ch == b'#'
        then go (record l { r = record (l.r) { complex_uri = true }; state = uri })
        else if ch == b'+'
        then go (record l { r = record (l.r) { plus_in_uri = true } })
        else if ch == 0
        then refuse l
        else go l))

case_uri : Ptr → ℕ → Local → Next Local
case_uri p ch l = by_usual (usual ch) (go l) (
    uri_end_or http_09 p ch l (
      if ch == b'#'
      then go (record l { r = record (l.r) { complex_uri = true } })
      else if ch == 0
      then refuse l
      else go l))

-- `p--` makes the loop read the same byte again, in the state that is set here.
case_check_uri_http_09 : Ptr → ℕ → Local → Next Local
case_check_uri_http_09 p ch l =
    version_or p ch l (
      case_check_uri p ch
        (record l { r = record (l.r) { space_in_uri = true }; state = check_uri }))

case_http_09 : Ptr → ℕ → Local → Next Local
case_http_09 p ch l =
    version_or p ch l
      (case_uri p ch (record l { r = record (l.r) { space_in_uri = true }; state = uri }))

case_first_major_digit : ℕ → Local → Next Local
case_first_major_digit ch l =
    if ltb ch b'1' || ltb b'9' ch
    then refuse l
    else go (record l { r = record (l.r) { http_major = ch - b'0' }; state = major_digit })

case_major_digit : ℕ → Local → Next Local
case_major_digit ch l =
    if ch == b'.'
    then go (record l { state = first_minor_digit })
    else if ltb ch b'0' || ltb b'9' ch
    then refuse l
    else go
        (record l { r = record (l.r) { http_major = int32 (l.r.http_major * 10 + (ch - b'0')) } })

case_first_minor_digit : ℕ → Local → Next Local
case_first_minor_digit ch l =
    if ltb ch b'0' || ltb b'9' ch
    then refuse l
    else go (record l { r = record (l.r) { http_minor = ch - b'0' }; state = minor_digit })

case_minor_digit : ℕ → Local → Next Local
case_minor_digit ch l =
    if ch == 13
    then go (record l { state = almost_done })
    else if ch == 10
    then done l
    else if ch == b' '
    then go (record l { state = spaces_after_digit })
    else if ltb ch b'0' || ltb b'9' ch
    then refuse l
    else go
        (record l { r = record (l.r) { http_minor = int32 (l.r.http_minor * 10 + (ch - b'0')) } })

case_spaces_after_digit : ℕ → Local → Next Local
case_spaces_after_digit ch l =
    if ch == b' '
    then go l
    else if ch == 13
    then go (record l { state = almost_done })
    else if ch == 10
    then done l
    else refuse l

case_almost_done : Ptr → ℕ → Local → Next Local
case_almost_done p ch l =
    let l' : Local = record l { r = record (l.r) { request_end = p - 1 } } in
    if ch == 10 then done l' else refuse l'

unfoldable pub switch : Sw → Bytes → Ptr → ℕ → Local → Next Local
unfolding expect case_start case_method case_spaces_before_uri case_schema case_host_start case_host
    case_host_end case_host_ip_literal case_port case_after_slash_in_uri case_check_uri
    case_check_uri_http_09 case_uri case_http_09 case_first_major_digit case_major_digit
    case_first_minor_digit case_minor_digit case_spaces_after_digit case_almost_done slash_of_schema
    version_or uri_end_or by_usual is_literal_mark
switch start mem p ch l = case_start p ch l
switch method mem p ch l = case_method mem p ch l
switch spaces_before_uri mem p ch l = case_spaces_before_uri p ch l
switch schema mem p ch l = case_schema p ch l
switch schema_slash mem p ch l = expect b'/' schema_slash_slash ch l
switch schema_slash_slash mem p ch l = expect b'/' host_start ch l
switch host_start mem p ch l = case_host_start p ch l
switch host mem p ch l = case_host p ch l
switch host_end mem p ch l = case_host_end p ch l
switch host_ip_literal mem p ch l = case_host_ip_literal ch l
switch port mem p ch l = case_port p ch l
switch host_http_09 mem p ch l = version_or p ch l (refuse l)
switch after_slash_in_uri mem p ch l = case_after_slash_in_uri p ch l
switch check_uri mem p ch l = case_check_uri p ch l
switch check_uri_http_09 mem p ch l = case_check_uri_http_09 p ch l
switch uri mem p ch l = case_uri p ch l
switch http_09 mem p ch l = case_http_09 p ch l
switch http_h mem p ch l = expect b'T' http_ht ch l
switch http_ht mem p ch l = expect b'T' http_htt ch l
switch http_htt mem p ch l = expect b'P' http_http ch l
switch http_http mem p ch l = expect b'/' first_major_digit ch l
switch first_major_digit mem p ch l = case_first_major_digit ch l
switch major_digit mem p ch l = case_major_digit ch l
switch first_minor_digit mem p ch l = case_first_minor_digit ch l
switch minor_digit mem p ch l = case_minor_digit ch l
switch spaces_after_digit mem p ch l = case_spaces_after_digit ch l
switch almost_done mem p ch l = case_almost_done p ch l
switch (unlisted n) mem p ch l = go l
