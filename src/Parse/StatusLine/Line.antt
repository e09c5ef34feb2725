-- ===== src/Parse/StatusLine/Line.antt =====
-- A whole status line: ngx_http_parse_status_line on the bytes of "HTTP/1.1 200 OK" and CR LF, for any
-- digits and any text.
use leactor.Prelude.{
  ℕ, suc, ◌+◌, ◌-◌, ◌*◌, ◌≤◌, ◌≡◌, refl, ap, ◌∙◌, Ptr, null, arith, some, List, [], ◌∷◌, ◌++◌,
  length, ◌==◌, if◌then◌else◌,
}
use leactor.Request.{Bytes, Status, Request}
use leactor.Parse.{lok}
use leactor.Parse.Scan.{scan-step, scan-stay, scan-done}
use leactor.Parse.Text.{At, All, At-append}
use leactor.Parse.StatusLine.{
  status_text, almost_done, decode, round, Parsed, conclude, finish, begin, parse_status_line,
}
use leactor.Parse.StatusLine.Rounds.{
  local, IsDigit, TextByte, round_cr, round_lf, run, read_http, after_http, read_version,
  after_version, read_code, after_code, read_text,
}

-- What the caller finds after the line that starts at `pos`.
pub record IsStatus (pos last : Ptr) (version code text_length : ℕ) (p : Parsed) : Type 0 where
  pub code_ok : p.code ≡ lok
  pub http_version : p.st.http_version ≡ version
  pub status_code : p.st.code ≡ code
  pub status_start : p.st.start ≡ pos + 9
  pub status_end : p.st.end ≡ pos + 13 + text_length
  pub ready : p.r.state ≡ 0
  pub line_start : p.r.request_start ≡ pos
  pub limit : p.b.last ≡ last
  pub position : p.b.pos ≡ pos + 13 + text_length + 2

abbrev pub http_text : List ℕ
http_text = b'H' ∷ b'T' ∷ b'T' ∷ b'P' ∷ b'/' ∷ []

abbrev pub version_text : ℕ → ℕ → List ℕ
version_text major minor = major ∷ b'.' ∷ minor ∷ b' ' ∷ []

abbrev pub code_text : ℕ → ℕ → ℕ → List ℕ
code_text c0 c1 c2 = c0 ∷ c1 ∷ c2 ∷ b' ' ∷ []

abbrev pub line_end : List ℕ
line_end = 13 ∷ 10 ∷ []

module _ (mem : Bytes) (pos last : Ptr) (r : Request) (st : Status) (major minor c0 c1 c2 : ℕ)
    (text : List ℕ) (fresh : r.state ≡ 0) (no_count : st.count ≡ 0) (no_code : st.code ≡ 0)
    (low : b'1' ≤ major) (high : major ≤ b'9') (minor_digit : IsDigit minor) (d0 : IsDigit c0)
    (d1 : IsDigit c1) (d2 : IsDigit c2) (text_bytes : All TextByte text)
    (line : At mem pos
      (http_text ++ (version_text major minor ++ (code_text c0 c1 c2 ++ (text ++ line_end)))))
    (whole : pos + 13 + length text + 2 ≤ last) where
  abbrev beyond : ℕ
  beyond = last - (pos + 13 + length text + 2)

  abbrev final_request : Request
  final_request = after_version mem (pos + 5) major minor (after_http mem pos r)

  abbrev final_status : Status
  final_status = after_code mem (pos + 5 + 4) c0 c1 c2 st

  abbrev cr : Ptr
  cr = pos + 5 + 4 + 4 + length text

  pieces :
      At mem pos http_text
      × At mem (pos + 5) (version_text major minor)
      × At mem (pos + 5 + 4) (code_text c0 c1 c2)
      × At mem (pos + 5 + 4 + 4) text
      × At mem cr line_end
  pieces =
      let (http, rest) =
        At-append mem pos http_text
          (version_text major minor ++ (code_text c0 c1 c2 ++ (text ++ line_end))) line in
      let (version, rest') =
        At-append mem (pos + 5) (version_text major minor)
          (code_text c0 c1 c2 ++ (text ++ line_end)) rest in
      let (code, rest'') =
        At-append mem (pos + 5 + 4) (code_text c0 c1 c2) (text ++ line_end) rest' in
      let (words, end) = At-append mem (pos + 5 + 4 + 4) text line_end rest'' in
      (http, version, code, words, end)

  read_line :
      run mem (last - pos) pos (begin r st)
      ≡ run mem (2 + beyond) cr (local final_request final_status status_text)
  unfolding begin decode
  read_line =
      let m = length text + (2 + beyond) in
      let (http, version, code, words, _) = pieces in
      ap (λ (s : ℕ). run mem (last - pos) pos (local r st (decode s))) fresh
      ∙ scan-stay (round mem) (last - pos) (5 + (4 + (4 + m))) pos pos _ (omega arith) refl
      ∙ read_http mem (4 + (4 + m)) pos r st http
      ∙ read_version mem (4 + m) (pos + 5) major minor (after_http mem pos r) st low high
          minor_digit version
      ∙ read_code mem m (pos + 5 + 4) c0 c1 c2 final_request st d0 d1 d2 no_count code
      ∙ read_text mem m (2 + beyond) (pos + 5 + 4 + 4) text final_request final_status refl words
          text_bytes

  -- ngx_http_parse_status_line, called with `state` 0 and a status with no digits yet on a buffer that
  -- begins with a whole line "HTTP/a.b ccc text" and CR LF, where the first digit is not 0 and the text
  -- holds no CR or LF: the call answers LOK, with the version a * 1000 + b, the three digits as the
  -- code, the status and its text delimited, `state` 0 again, and the position behind the line.
  pub parse_status_line-IsStatus :
      (p : Parsed) × (parse_status_line mem r (record { pos = pos; last = last }) st ≡ some p)
      × IsStatus pos last
          ((major - b'0') * 1000 + (minor - b'0'))
          ((c0 - b'0') * 100 + (c1 - b'0') * 10 + (c2 - b'0'))
          (length text)
          p
  unfolding parse_status_line finish conclude
  parse_status_line-IsStatus =
      let (_, _, _, _, (at_cr, (at_lf, _))) = pieces in
      let ended : Status = record final_status { end = cr + 1 - 1 } in
      let all =
        read_line
        ∙ scan-step (round mem) (2 + beyond) (1 + beyond) cr (cr + 1) _ _
            (round_cr mem cr 13 final_request final_status at_cr refl) (omega arith) refl
        ∙ scan-stay (round mem) (1 + beyond) (suc beyond) (cr + 1) (cr + 1) _ (omega arith) refl
        ∙ scan-done (round mem) beyond (cr + 1) _ _
            (round_lf mem (cr + 1) 10 final_request final_status at_lf refl) in
      let same : (if ended.end == null then cr + 1 else ended.end) ≡ cr = ground arith in
      (
        finish (cr + 1) (local final_request ended almost_done) (record { pos = pos; last = last }),
        ap (conclude (record { pos = pos; last = last })) all,
        record {
          code_ok = refl;
          http_version = omega arith;
          status_code = omega arith;
          status_start = omega arith;
          status_end = same ∙ omega arith;
          ready = refl;
          line_start = refl;
          limit = refl;
          position = omega arith;
        },
      )
