-- ===== src/Parse/RequestLine.antt =====
-- ngx_http_parse_request_line: the first line of a client's request.
pub mod Method
pub mod States
pub mod Switch
pub mod Undefined
pub mod Chunks
pub mod Rounds
pub mod Line
pub mod Names
use leactor.Prelude.{
  ℕ, ◌+◌, ◌-◌, ◌*◌, Ptr, null, ℤ, ◌==◌, ◌&&◌, not, if◌then◌else◌, Option, none, some,
}
use leactor.Request.{Bytes, int32, Buffer, Request}
use leactor.Parse.{
  Next, go, leave, done, header_done, undefined, Scanned, at_end, stopped, scan, lok, lagain,
  parse_invalid_09_method,
}
use Method.{http_get}
use States.{Local, encode, decode}
use Switch.{switch}

unfoldable pub round : Bytes → Ptr → Local → Next Local
unfolding switch
round mem p l = switch l.state mem p (mem p) l

-- What a call leaves behind: the code, the request and the buffer.
pub record Parsed : Type 0 where
  pub code : ℤ
  pub r : Request
  pub b : Buffer

-- The code under the label `done`.
finish : Ptr → Request → Buffer → Parsed
finish p r b =
    let version = int32 (r.http_major * 1000 + r.http_minor) in
    record {
      code = if version == 9 && not (r.method == http_get) then parse_invalid_09_method else lok;
      r = record r {
        request_end = if r.request_end == null then p else r.request_end;
        http_version = version;
        state = 0;
      };
      b = record b { pos = p + 1 };
    }

-- What follows the loop. After an undefined round there is no outcome.
conclude : Buffer → Scanned Local → Option Parsed
conclude b (at_end p l) = some (record {
  code = lagain;
  r = record (l.r) { state = encode l.state };
  b = record b { pos = p };
})
conclude b (stopped p (go l)) = none
conclude b (stopped p (leave code l)) = some (record { code = code; r = l.r; b = b })
conclude b (stopped p (done l)) = some (finish p l.r b)
conclude b (stopped p (header_done l)) = none
conclude b (stopped p undefined) = none

unfoldable pub begin : Request → Local
begin r = record { r = r; state = decode r.state }

unfoldable pub parse_request_line : Bytes → Request → Buffer → Option Parsed
unfolding round finish conclude begin
parse_request_line mem r b = conclude b (scan (round mem) (b.last - b.pos) b.pos (begin r))
