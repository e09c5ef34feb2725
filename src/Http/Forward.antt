-- ===== src/Http/Forward.antt =====
-- http_process_request_line of http.c, up to the chain that is sent: the calls for one request, in their order.
pub mod Pieces
pub mod Whole
mod Tests
use leactor.Prelude.{ℕ, suc, Ptr, Option, none, some, if◌then◌else◌, Run, ok, undefined, ◌>>=◌}
use leactor.Parse.{lok}
use leactor.Parse.RequestLine.{Parsed, parse_request_line}
use leactor.Buffers.{Allocator}
use leactor.Http.{Str, Parts}
use leactor.Http.Line.{request_line_parsed}
use leactor.Http.Headers.{State, same_code, process_request_headers}
use leactor.Http.Construct.{Build, construct_request_chains}

-- The request and the bytes afterwards, the pieces, and the first of them.
pub record Forwarded (S : Type 0) : Type 0 where
  pub request : State S
  pub built : Build S
  pub send_chain : Ptr

module _ {S : Type 0} ⦃a : Allocator S⦄ (tolower : ℕ → ℕ) where
  -- What follows the parser, where `none` is a code other than LOK.
  abbrev after_line :
      (fuel : ℕ) → State S → Parts → Build S → Option Parsed → Run (Option (Forwarded S))
  after_line fuel s l u none = undefined
  after_line fuel s l u (some p) =
      let parts = request_line_parsed p.r p.b.pos l in
      let t : State S = record s { r = p.r; b = p.b; request_length = parts.request_length } in
      let version : State S → Str =
        λ v. record { start = v.r.http_protocol_data; length = parts.http_protocol_length } in
      let rest = process_request_headers tolower (suc fuel) t >>= λ v.
      construct_request_chains fuel parts (version v) v.elements v.head v.tail u >>= λ (w, c).
      ok (some (record { request = v; built = w; send_chain = c })) in
      if same_code p.code lok then rest else ok none

  -- http_process_request_line until http_send_to_upstream, on `fuel` rounds of the loop that makes the
  -- chain and one more of that over the header.
  unfoldable pub request_chain : (fuel : ℕ) → State S → Parts → Build S → Run (Option (Forwarded S))
  request_chain fuel s l u = after_line fuel s l u (parse_request_line s.mem s.r s.b)
