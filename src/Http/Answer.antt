-- ===== src/Http/Answer.antt =====
-- http_process_response_line of http.c, up to the chain that http_send_to_client sends: the calls for one response,
-- in their order. The buffer of the connection is the one that http_create_request gives the request.
pub mod Whole
mod Tests
use leactor.Prelude.{ℕ, suc, Ptr, Option, none, some, if◌then◌else◌, Run, ok, undefined, ◌>>=◌}
use leactor.Request.{Status}
use leactor.Parse.{lok}
use leactor.Parse.StatusLine.{Parsed, parse_status_line}
use leactor.Buffers.{Allocator}
use leactor.Http.{Str, diff}
use leactor.Http.Headers.{State, same_code, process_request_headers}
use leactor.Http.Construct.{Build, construct_response_chains}

-- The response and the bytes afterwards, its status, its first line and the length of its version, the pieces,
-- and the first of them.
pub record Answered (S : Type 0) : Type 0 where
  pub response : State S
  pub status : Status
  pub request_line : Str
  pub http_protocol_length : ℕ
  pub built : Build S
  pub out_chain : Ptr

module _ {S : Type 0} ⦃a : Allocator S⦄ (tolower : ℕ → ℕ) where
  -- What follows the parser, where `none` is a code other than LOK.
  abbrev after_status : (fuel : ℕ) → State S → Build S → Option Parsed → Run (Option (Answered S))
  after_status fuel s u none = undefined
  after_status fuel s u (some p) =
      let t : State S = record s { r = p.r; b = p.b } in
      let line : Str = record {
        start = p.r.request_start;
        length = diff p.st.end p.r.request_start;
      } in
      let length = diff p.r.http_protocol_end p.r.http_protocol_data in
      let rest = process_request_headers tolower (suc fuel) t >>= λ v.
      construct_response_chains fuel line v.elements v.head v.tail u >>= λ (w, c). ok (
        some (record {
          response = v;
          status = p.st;
          request_line = line;
          http_protocol_length = length;
          built = w;
          out_chain = c;
        })) in
      if same_code p.code lok then rest else ok none

  -- http_process_response_line until send_chains, on `fuel` rounds of the loop that makes the chain and one more of
  -- that over the header.
  unfoldable pub response_chain :
      (fuel : ℕ) → State S → Status → Build S → Run (Option (Answered S))
  response_chain fuel s st u = after_status fuel s u (parse_status_line s.mem s.r s.b st)
