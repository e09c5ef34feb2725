-- ===== src/Parse/RequestLine/States.antt =====
-- The states of ngx_http_parse_request_line, its local variables, and the tests on one byte.
use Prim.Native.Nat.{bit_or}
use leactor.Prelude.{
  ℕ, ◌+◌, ◌-◌, ◌/◌, ◌%◌, ◌^◌, Bool, leb, ltb, ◌==◌, ◌&&◌, ◌||◌, not, if◌then◌else◌, Option, none,
  some,
}
use leactor.Request.{Request}

-- The enum. `unlisted` stands for any other value of `r->state`, which no case matches.
pub data Sw : Type 0 where
  start method spaces_before_uri schema schema_slash schema_slash_slash : Sw
  host_start host host_end host_ip_literal port host_http_09 : Sw
  after_slash_in_uri check_uri check_uri_http_09 uri http_09 : Sw
  http_h http_ht http_htt http_http : Sw
  first_major_digit major_digit first_minor_digit minor_digit spaces_after_digit almost_done : Sw
  unlisted : ℕ → Sw

unfoldable pub encode : Sw → ℕ
encode start = 0
encode method = 1
encode spaces_before_uri = 2
encode schema = 3
encode schema_slash = 4
encode schema_slash_slash = 5
encode host_start = 6
encode host = 7
encode host_end = 8
encode host_ip_literal = 9
encode port = 10
encode host_http_09 = 11
encode after_slash_in_uri = 12
encode check_uri = 13
encode check_uri_http_09 = 14
encode uri = 15
encode http_09 = 16
encode http_h = 17
encode http_ht = 18
encode http_htt = 19
encode http_http = 20
encode first_major_digit = 21
encode major_digit = 22
encode first_minor_digit = 23
encode minor_digit = 24
encode spaces_after_digit = 25
encode almost_done = 26
encode (unlisted n) = 27 + n

decode_uri : ℕ → Sw
decode_uri n =
    if n == 12
    then after_slash_in_uri
    else if n == 13
    then check_uri
    else if n == 14
    then check_uri_http_09
    else if n == 15
    then uri
    else if n == 16
    then http_09
    else if n == 17
    then http_h
    else if n == 18
    then http_ht
    else if n == 19
    then http_htt
    else if n == 20
    then http_http
    else if n == 21
    then first_major_digit
    else if n == 22
    then major_digit
    else if n == 23
    then first_minor_digit
    else if n == 24
    then minor_digit
    else if n == 25
    then spaces_after_digit
    else if n == 26
    then almost_done
    else unlisted (n - 27)

unfoldable pub decode : ℕ → Sw
unfolding decode_uri
decode n =
    if n == 0
    then start
    else if n == 1
    then method
    else if n == 2
    then spaces_before_uri
    else if n == 3
    then schema
    else if n == 4
    then schema_slash
    else if n == 5
    then schema_slash_slash
    else if n == 6
    then host_start
    else if n == 7
    then host
    else if n == 8
    then host_end
    else if n == 9
    then host_ip_literal
    else if n == 10
    then port
    else if n == 11
    then host_http_09
    else decode_uri n

pub record Local : Type 0 where
  pub r : Request
  pub state : Sw

abbrev pub is_digit : ℕ → Bool
is_digit ch = leb b'0' ch && leb ch b'9'

-- `c = ch | 0x20; c >= 'a' && c <= 'z'`
unfoldable pub is_letter : ℕ → Bool
is_letter ch = let c = bit_or ch 0x20 in leb b'a' c && leb c b'z'

-- `(ch < 'A' || ch > 'Z') && ch != '_'`
abbrev pub not_method_char : ℕ → Bool
not_method_char ch = (ltb ch b'A' || ltb b'Z' ch) && not (ch == b'_')

usual_word : ℕ → ℕ
usual_word i = if i == 0 then 0xffffdbfe else if i == 1 then 0x7fff37d6 else 0xffffffff

-- `usual[ch >> 5] & (1 << (ch & 0x1f))`, where `ch` is a signed char: for a byte from 128 on the index is
-- negative, and the read is outside of the table.
unfoldable pub usual : ℕ → Option Bool
unfolding usual_word
usual ch = if ltb ch 128 then some (usual_word (ch / 32) / 2 ^ (ch % 32) % 2 == 1) else none
