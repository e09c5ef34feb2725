-- ===== src/Http/Line.antt =====
-- http_request_line_parsed.
use leactor.Prelude.{ℕ, ◌+◌, ◌^◌, ◌<◌, ◌≡◌, refl, Ptr, false, ◌||◌, if◌then◌else◌, not, arith}
use leactor.Request.{int32, Request}
use leactor.Parse.RequestLine.{Parsed}
use leactor.Parse.RequestLine.Line.{IsRequestLine}
use leactor.Http.{Str, Parts, diff}

-- http_request_line_parsed, on the request, the position of `header_in`, and the parts before. `uri.start`
-- stays as it was for a URI that would have to be decoded.
unfoldable pub request_line_parsed : Request → (header_in_pos : Ptr) → Parts → Parts
unfolding diff
request_line_parsed r header_in_pos l = record l {
  request_line = record { start = r.request_start; length = diff r.request_end r.request_start };
  request_length = diff header_in_pos r.request_start;
  method_name = record {
    start = r.request_start;
    length = int32 (diff r.method_end r.request_start + 1);
  };
  http_protocol_length = diff r.request_end r.http_protocol_data;
  uri = record {
    start = if r.complex_uri || r.quoted_uri then l.uri.start else r.uri_start;
    length = diff r.uri_end r.uri_start;
  };
  unparsed_uri = record { start = r.uri_start; length = diff r.uri_end r.uri_start };
  valid_unparsed_uri = not r.space_in_uri;
}

-- The parts of a request line that starts at `pos`, with a name, a path behind a slash, and a version.
pub record IsDivided (pos : Ptr) (name_length path_length : ℕ) (l : Parts) : Type 0 where
  pub method_name : l.method_name ≡ record { start = pos; length = name_length }
  pub uri : l.uri ≡ record { start = pos + name_length + 1; length = path_length + 1 }
  pub protocol_length : l.http_protocol_length ≡ 8
  pub request_line :
      l.request_line ≡ record { start = pos; length = name_length + path_length + 11 }
  pub request_length : l.request_length ≡ name_length + path_length + 13

pub diff-exact : (a b n : ℕ) → a ≡ b + n → n < 2 ^ 31 → a < 2 ^ 64 → diff a b ≡ n
unfolding diff
diff-exact a b n e small inside = omega arith

-- The length of the name, whose last byte is known.
named :
    (last first n : ℕ)
    → last + 1 ≡ first + n
    → 0 < n
    → n < 2 ^ 31
    → first + n < 2 ^ 64
    → int32 (diff last first + 1) ≡ n
unfolding diff
named last first n e some small inside = omega arith

abbrev str : Ptr → ℕ → Str
str a m = record { start = a; length = m }

text : (a b m n : ℕ) → a ≡ b → m ≡ n → str a m ≡ str b n
text a b m n e f = rw (e, f) refl

-- For a plain request line "NAME /path HTTP/a.b" and CR LF as ngx_http_parse_request_line leaves it, with
-- neither a complex nor a quoted URI, a name that is not empty, and lengths and addresses in
-- the range of their types, http_request_line_parsed assigns exactly the name, the URI with its slash,
-- the eight bytes of the version, the line less its CR LF, and a request_length that counts
-- the CR LF too.
pub request_line_parsed-IsDivided :
    (pos last : Ptr) (name path found version : ℕ) (r : Request) (p : Parsed) (l : Parts)
    → IsRequestLine pos last name path found version r p
    → r.complex_uri ≡ false
    → r.quoted_uri ≡ false
    → 0 < name
    → name + path + 13 < 2 ^ 31
    → pos + name + path + 13 < 2 ^ 64
    → IsDivided pos name path (request_line_parsed p.r p.b.pos l)
unfolding request_line_parsed diff
request_line_parsed-IsDivided pos last name path found version r p l v plain unquoted some small
      inside =
    record {
      method_name = text p.r.request_start pos _ name v.method_start (
          named p.r.method_end p.r.request_start name (omega (arith, v.method_end, v.method_start))
            some (omega arith) (omega (arith, v.method_start)));
      uri =
          rw (v.complex_same, v.quoted_same, plain, unquoted)
            (text p.r.uri_start (pos + name + 1) (diff p.r.uri_end p.r.uri_start) (path + 1)
              v.uri_start
              (diff-exact p.r.uri_end p.r.uri_start (path + 1)
                (omega (arith, v.uri_end, v.uri_start)) (omega arith) (omega (arith, v.uri_end))));
      protocol_length =
          diff-exact p.r.request_end p.r.http_protocol_data 8
            (omega (arith, v.request_end, v.protocol)) (omega arith) (omega (arith, v.request_end));
      request_line = text p.r.request_start pos _ (name + path + 11) v.method_start (
          diff-exact p.r.request_end p.r.request_start (name + path + 11)
            (omega (arith, v.request_end, v.method_start)) (omega arith)
            (omega (arith, v.request_end)));
      request_length =
          diff-exact p.b.pos p.r.request_start (name + path + 13)
            (omega (arith, v.position, v.method_start)) small (omega (arith, v.position));
    }
