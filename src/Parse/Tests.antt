-- ===== src/Parse/Tests.antt =====
-- Runs of the parsers, and the theorems at concrete texts.
use leactor.Prelude.{
  ℕ, ◌+◌, ◌≤◌, ◌≡◌, ◌≢◌, ◌↔◌, refl, arith, true, List, [], ◌∷◌, Option, none, some, update, ◌*◌,
}
use leactor.Request.{Request, Status}
use leactor.Request.Sample.{text, blank}
use leactor.Parse.{lagain, undefined, scan}
use leactor.Parse.StatusLine
use leactor.Parse.HeaderLine
use leactor.Parse.StatusLine.Chunks.{parse_status_line-chunks}
use leactor.Parse.StatusLine.Line.{IsStatus, parse_status_line-IsStatus}
use leactor.Parse.RequestLine.Method.{find_method}
use leactor.Parse.RequestLine.Line.{IsRequestLine, parse_request_line-IsRequestLine}
use leactor.Parse.RequestLine.Names.{find_method-bit_of}
use leactor.Parse.RequestLine.Chunks.{parse_request_line-chunks}
use leactor.Parse.RequestLine
use leactor.Parse.HeaderLine.{lowcase}
use leactor.Parse.HeaderLine.Rounds.{name_hash}
use leactor.Parse.HeaderLine.Chunks.{buffer, Agree, parse_header_line-chunks}
use leactor.Parse.HeaderLine.Field.{IsField, parse_header_line-IsField}
use leactor.Parse.RequestLine.States.{Local, start, is_letter, usual}
use leactor.Parse.RequestLine.Switch.{switch}
use leactor.Parse.RequestLine.Undefined.{IsUriState, switch-undefined}

-- "Ab: c" and CR LF, then an "X".
abbrev field : List ℕ
field = b'A' ∷ b'b' ∷ b':' ∷ b' ' ∷ b'c' ∷ 13 ∷ 10 ∷ b'X' ∷ []

parse_header_line-IsField_example :
    (p : HeaderLine.Parsed) × (HeaderLine.parse_header_line
        (text field)
        blank
        (record { pos = 100; last = 108 })
        true
      ≡ some p)
    × IsField 100 108 2 1 (name_hash 0 (b'A' ∷ b'b' ∷ [])) blank p
unfolding lowcase
parse_header_line-IsField_example =
    parse_header_line-IsField true (text field) 100 108 blank b'A' (b'b' ∷ []) b'c' [] refl
      (refl, (refl, tt)) (omega arith, tt) (omega arith) (omega arith)
      (refl, (refl, (refl, (refl, (refl, (refl, (refl, tt))))))) (omega arith)

-- The request after "Ab", the state `name`.
abbrev after_two : Request
after_two = record blank {
  state = 1;
  header_name_start = 100;
  lowcase_header = update (update (λ i. 0) 0 b'a') 1 b'b';
  header_hash = 97 * 31 + 98;
  lowcase_index = 2;
}

abbrev two_bytes : HeaderLine.Parsed
two_bytes = record { code = lagain; r = after_two; b = buffer 102 102 }

two_bytes_run :
    HeaderLine.parse_header_line (text field) blank (buffer 100 102) true ≡ some two_bytes
unfolding HeaderLine.parse_header_line lowcase HeaderLine.ngx_hash HeaderLine.encode
    HeaderLine.decode scan HeaderLine.round HeaderLine.begin
two_bytes_run = refl

parse_header_line-chunks_example :
    (two_bytes.code ≡ lagain
      → Agree
          (HeaderLine.parse_header_line (text field) blank (buffer 100 108) true)
          (HeaderLine.parse_header_line (text field) after_two (buffer 102 108) true))
    × (two_bytes.code ≢ lagain
        → HeaderLine.parse_header_line (text field) blank (buffer 100 108) true
          ≡ some (record two_bytes { b = buffer 102 108 }))
parse_header_line-chunks_example =
    parse_header_line-chunks true (text field) blank 100 102 108 (omega arith) (omega arith)
      two_bytes two_bytes_run

abbrev local : Local
local = record { r = blank; state = RequestLine.States.uri }

switch-undefined_example :
    (switch RequestLine.States.uri (text field) 100 200 local ≡ undefined)
    ↔ (IsUriState RequestLine.States.uri × (128 ≤ 200))
switch-undefined_example = switch-undefined RequestLine.States.uri (text field) 100 200 local

-- "HTTP/1.1 200 OK" with CR LF.
abbrev status_text : List ℕ
status_text =
    b'H' ∷ b'T' ∷ b'T' ∷ b'P' ∷ b'/' ∷ b'1' ∷ b'.' ∷ b'1' ∷ b' ' ∷ b'2' ∷ b'0' ∷ b'0' ∷ b' ' ∷ b'O'
    ∷ b'K' ∷ 13 ∷ 10 ∷ []

abbrev no_status : Status
no_status = record { http_version = 0; code = 0; count = 0; start = 0; end = 0 }

-- What a run of the status line leaves: the code, the version, the status, its text and the position.
abbrev status_summary : Option StatusLine.Parsed → List ℕ
status_summary none = []
status_summary (some p) = p.st.http_version ∷ p.st.code ∷ p.st.start ∷ p.st.end ∷ p.b.pos ∷ []

status_run :
    status_summary
      (StatusLine.parse_status_line (text status_text) blank (buffer 100 117) no_status)
    ≡ 1001 ∷ 200 ∷ 109 ∷ 115 ∷ 117 ∷ []
unfolding StatusLine.parse_status_line StatusLine.decode scan StatusLine.round
status_run = refl

-- "GET /a?b HTTP/1.1" with CR LF.
abbrev request_text : List ℕ
request_text =
    b'G' ∷ b'E' ∷ b'T' ∷ b' ' ∷ b'/' ∷ b'a' ∷ b'?' ∷ b'b' ∷ b' ' ∷ b'H' ∷ b'T' ∷ b'T' ∷ b'P' ∷ b'/'
    ∷ b'1' ∷ b'.' ∷ b'1' ∷ 13 ∷ 10 ∷ []

abbrev request_summary : Option RequestLine.Parsed → List ℕ
request_summary none = []
request_summary (some p) =
    p.r.method ∷ p.r.method_end ∷ p.r.uri_start ∷ p.r.uri_end ∷ p.r.args_start ∷ p.r.http_version
    ∷ p.b.pos ∷ []

request_run :
    request_summary (RequestLine.parse_request_line (text request_text) blank (buffer 100 119))
    ≡ 2 ∷ 102 ∷ 104 ∷ 108 ∷ 107 ∷ 1001 ∷ 119 ∷ []
unfolding RequestLine.parse_request_line RequestLine.States.decode scan RequestLine.round switch
    is_letter usual find_method
request_run = refl

-- The status line up to "HT", the state `ht`.
abbrev status_part : StatusLine.Parsed
status_part = record {
  code = lagain;
  r = record blank { state = 2; request_start = 100; http_protocol_data = 100 };
  st = no_status;
  b = buffer 102 102;
}

status_part_run :
    StatusLine.parse_status_line (text status_text) blank (buffer 100 102) no_status
    ≡ some status_part
unfolding StatusLine.parse_status_line StatusLine.encode StatusLine.decode scan StatusLine.round
status_part_run = refl

parse_status_line-chunks_example :
    (status_part.code ≡ lagain
      → StatusLine.Chunks.Agree
          (StatusLine.parse_status_line (text status_text) blank (buffer 100 117) no_status)
          (StatusLine.parse_status_line
            (text status_text)
            status_part.r
            (buffer 102 117)
            no_status))
    × (status_part.code ≢ lagain
        → StatusLine.parse_status_line (text status_text) blank (buffer 100 117) no_status
          ≡ some (record status_part { b = buffer 102 117 }))
parse_status_line-chunks_example =
    parse_status_line-chunks (text status_text) blank no_status 100 102 117 (omega arith)
      (omega arith) status_part status_part_run

-- The request line up to "GE", the state `method`.
abbrev request_part : RequestLine.Parsed
request_part = record {
  code = lagain;
  r = record blank { state = 1; request_start = 100 };
  b = buffer 102 102;
}

request_part_run :
    RequestLine.parse_request_line (text request_text) blank (buffer 100 102) ≡ some request_part
unfolding RequestLine.parse_request_line RequestLine.States.encode RequestLine.States.decode scan
    RequestLine.round switch
request_part_run = refl

parse_request_line-chunks_example :
    (request_part.code ≡ lagain
      → RequestLine.Chunks.Agree
          (RequestLine.parse_request_line (text request_text) blank (buffer 100 119))
          (RequestLine.parse_request_line (text request_text) request_part.r (buffer 102 119)))
    × (request_part.code ≢ lagain
        → RequestLine.parse_request_line (text request_text) blank (buffer 100 119)
          ≡ some (record request_part { b = buffer 102 119 }))
parse_request_line-chunks_example =
    parse_request_line-chunks (text request_text) blank 100 102 119 (omega arith) (omega arith)
      request_part request_part_run

parse_status_line-IsStatus_example :
    (p : StatusLine.Parsed) × (StatusLine.parse_status_line
        (text status_text)
        blank
        (record { pos = 100; last = 117 })
        no_status
      ≡ some p)
    × IsStatus 100 117 1001 200 2 p
parse_status_line-IsStatus_example =
    parse_status_line-IsStatus (text status_text) 100 117 blank no_status b'1' b'1' b'2' b'0' b'0'
      (b'O' ∷ b'K' ∷ []) refl refl refl (omega arith) (omega arith) (omega arith) (omega arith)
      (omega arith) (omega arith) (omega arith) (omega arith) (omega arith)

-- "GET /ab HTTP/1.1" with CR LF.
abbrev plain_text : List ℕ
plain_text =
    b'G' ∷ b'E' ∷ b'T' ∷ b' ' ∷ b'/' ∷ b'a' ∷ b'b' ∷ b' ' ∷ b'H' ∷ b'T' ∷ b'T' ∷ b'P' ∷ b'/' ∷ b'1'
    ∷ b'.' ∷ b'1' ∷ 13 ∷ 10 ∷ []

parse_request_line-IsRequestLine_example :
    (p : RequestLine.Parsed) × (RequestLine.parse_request_line
        (text plain_text)
        blank
        (record { pos = 100; last = 118 })
      ≡ some p)
    × IsRequestLine 100 118 3 2 (find_method (text plain_text) 100 3 0) 1001 blank p
unfolding usual
parse_request_line-IsRequestLine_example =
    parse_request_line-IsRequestLine (text plain_text) 100 118 blank b'G' (b'E' ∷ b'T' ∷ [])
      (b'a' ∷ b'b' ∷ []) b'1' b'1' refl (omega arith) (refl, (refl, tt)) (omega arith) (omega arith)
      (omega arith) (omega arith) (omega arith)

find_method-bit_of_example : find_method (text plain_text) 100 3 0 ≡ 2
find_method-bit_of_example =
    find_method-bit_of (text plain_text) 100 (b'G' ∷ b'E' ∷ b'T' ∷ []) 0 (refl, (refl, (refl, tt)))
