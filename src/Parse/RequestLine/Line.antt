-- ===== src/Parse/RequestLine/Line.antt =====
-- A whole request line: ngx_http_parse_request_line on the bytes of "GET /path HTTP/1.1" and CR LF, for any
-- method in capitals, any plain path and any digits.
use leactor.Prelude.{
  ℕ, suc, ◌+◌, ◌-◌, ◌*◌, ◌≤◌, ◌≡◌, refl, ap, ◌∙◌, Ptr, null, arith, some, List, [], ◌∷◌, ◌++◌,
  length, ◌==◌, false, if◌then◌else◌,
}
use leactor.Request.{Bytes, int32, Request}
use leactor.Parse.{lok}
use leactor.Parse.Scan.{scan-step, scan-stay, scan-done}
use leactor.Parse.Text.{At, All, At-append}
use leactor.Parse.RequestLine.{round, Parsed, conclude, finish, begin, parse_request_line}
use leactor.Parse.RequestLine.Method.{find_method}
use leactor.Parse.RequestLine.States.{Sw, check_uri_http_09, decode}
use leactor.Parse.RequestLine.Rounds.{
  local, IsDigit, MethodByte, PathByte, in_path, round_first, round_method_end, round_slash,
  round_path_end, round_cr, round_lf, run, read_method, read_path, path_state, read_version,
  after_version,
}

-- What the caller finds after the line that starts at `pos`.
pub record IsRequestLine (pos last : Ptr) (name_length path_length found version : ℕ) (r : Request)
    (p : Parsed) : Type 0 where
  pub code : p.code ≡ lok
  pub method_found : p.r.method ≡ found
  pub method_start : p.r.request_start ≡ pos
  pub method_end : p.r.method_end + 1 ≡ pos + name_length
  pub uri_start : p.r.uri_start ≡ pos + name_length + 1
  pub uri_end : p.r.uri_end ≡ pos + name_length + 2 + path_length
  pub http_version : p.r.http_version ≡ version
  pub request_end : p.r.request_end ≡ pos + name_length + 2 + path_length + 9
  pub ready : p.r.state ≡ 0
  pub protocol : p.r.http_protocol_data ≡ pos + name_length + 2 + path_length + 1
  pub complex_same : p.r.complex_uri ≡ r.complex_uri
  pub quoted_same : p.r.quoted_uri ≡ r.quoted_uri
  pub limit : p.b.last ≡ last
  pub position : p.b.pos ≡ pos + name_length + 2 + path_length + 11

abbrev pub version_text : ℕ → ℕ → List ℕ
version_text major minor = b'H' ∷ b'T' ∷ b'T' ∷ b'P' ∷ b'/' ∷ major ∷ b'.' ∷ minor ∷ []

abbrev pub line_end : List ℕ
line_end = 13 ∷ 10 ∷ []

path_state-in_path : (mem : Bytes) (path : List ℕ) → path_state mem [] path ≡ in_path path
path_state-in_path mem [] = refl
path_state-in_path mem (c ∷ cs) = refl

module _ (mem : Bytes) (pos last : Ptr) (r : Request) (m : ℕ) (ms path : List ℕ) (major minor : ℕ)
    (fresh : r.state ≡ 0) (name_bytes : All MethodByte (m ∷ ms)) (path_bytes : All PathByte path)
    (low : b'1' ≤ major) (high : major ≤ b'9') (digit : IsDigit minor)
    (line : At mem pos
      ((m ∷ ms) ++ (b' ' ∷ b'/' ∷ (path ++ (b' ' ∷ (version_text major minor ++ line_end))))))
    (whole : pos + suc (length ms) + 2 + length path + 11 ≤ last) where
  abbrev space : Ptr
  space = pos + suc (length ms)

  abbrev path_pos : Ptr
  path_pos = space + 1 + 1

  abbrev behind : Ptr
  behind = path_pos + length path

  abbrev cr : Ptr
  cr = behind + 1 + 8

  abbrev beyond : ℕ
  beyond = last - (cr + 2)

  pieces :
      At mem pos (m ∷ ms)
      × (mem space ≡ b' ')
      × (mem (space + 1) ≡ b'/')
      × At mem path_pos path
      × (mem behind ≡ b' ')
      × At mem (behind + 1) (version_text major minor)
      × At mem cr line_end
  pieces =
      let (name, (c0, (c1, rest))) =
        At-append mem pos (m ∷ ms)
          (b' ' ∷ b'/' ∷ (path ++ (b' ' ∷ (version_text major minor ++ line_end)))) line in
      let (text, (c2, rest')) =
        At-append mem path_pos path (b' ' ∷ (version_text major minor ++ line_end)) rest in
      let (version, end) = At-append mem (behind + 1) (version_text major minor) line_end rest' in
      (name, c0, c1, text, c2, version, end)

  -- The request after the name, after the slash, and behind the path.
  abbrev named : Request
  named = record r {
    request_start = pos;
    method_end = space - 1;
    method = find_method mem pos (space - pos) r.method;
  }

  abbrev slashed : Request
  slashed = record named { uri_start = space + 1 }

  abbrev located : Request
  located = record slashed { uri_end = behind }

  read_uri :
      run mem (last - pos) pos (begin r)
      ≡ run mem (8 + (2 + beyond)) (behind + 1) (local located check_uri_http_09)
  unfolding begin decode
  read_uri =
      let (name, c0, c1, text, c2, _, _) = pieces in
      let k = 8 + (2 + beyond) in
      let started = record r { request_start = pos } in
      ap (λ (s : ℕ). run mem (last - pos) pos (local r (decode s))) fresh
      ∙ scan-step (round mem) (last - pos) (length ms + (3 + (length path + k))) pos (pos + 1) _ _
          (round_first mem pos m r name.0 name_bytes.0) (omega arith) refl
      ∙ read_method mem (length ms + (3 + (length path + k))) (3 + (length path + k)) (pos + 1) ms
          started refl name.1 name_bytes.1
      ∙ scan-stay (round mem) (3 + (length path + k)) (3 + (length path + k)) (pos + 1 + length ms)
          space _ refl (omega arith)
      ∙ scan-step (round mem) (3 + (length path + k)) (2 + (length path + k)) space (space + 1) _ _
          (round_method_end mem space b' ' started c0 refl) (omega arith) refl
      ∙ scan-step (round mem) (2 + (length path + k)) (1 + (length path + k)) (space + 1) path_pos _
          _ (round_slash mem (space + 1) b'/' named c1 refl) (omega arith) refl
      ∙ read_path mem (1 + (length path + k)) (1 + k) path_pos [] path slashed (omega arith) text
          path_bytes
      ∙ ap (λ (s : Sw). run mem (1 + k) behind (local slashed s)) (path_state-in_path mem path)
      ∙ scan-step (round mem) (1 + k) k behind (behind + 1) _ _
          (round_path_end mem behind b' ' slashed c2 path refl) (omega arith) refl

  -- ngx_http_parse_request_line, called with `state` 0 on a buffer that begins with a whole line
  -- "NAME /path HTTP/a.b" and CR LF, where the name is of capital letters, the path behind its slash of
  -- bytes that pass the table of usual bytes, and the first digit is not 0: the call answers LOK,
  -- with the name, the URI and the end of the line delimited, the method found for the name, the
  -- version a * 1000 + b, `state` 0 again, and the position behind the line.
  pub parse_request_line-IsRequestLine :
      (p : Parsed) × (parse_request_line mem r (record { pos = pos; last = last }) ≡ some p)
      × IsRequestLine pos last
          (suc (length ms))
          (length path)
          (find_method mem pos (suc (length ms)) r.method)
          ((major - b'0') * 1000 + (minor - b'0'))
          r
          p
  unfolding parse_request_line finish conclude
  parse_request_line-IsRequestLine =
      let (_, _, _, _, _, version, (at_cr, (at_lf, _))) = pieces in
      let final = after_version mem major minor (behind + 1) located in
      let ended : Request = record final { request_end = cr + 1 - 1 } in
      let all =
        read_uri
        ∙ read_version mem (2 + beyond) (behind + 1) major minor located low high digit version
        ∙ scan-step (round mem) (2 + beyond) (suc beyond) cr (cr + 1) _ _
            (round_cr mem cr 13 final at_cr refl) (omega arith) refl
        ∙ scan-done (round mem) beyond (cr + 1) _ _ (round_lf mem (cr + 1) 10 final at_lf refl) in
      let v = int32 ((major - b'0') * 1000 + (minor - b'0')) in
      let modern : (v == 9) ≡ false = ground arith in
      let same : (if ended.request_end == null then cr + 1 else ended.request_end) ≡ cr =
        ground arith in
      (
        finish (cr + 1) ended (record { pos = pos; last = last }),
        ap (conclude (record { pos = pos; last = last })) all,
        record {
          code = rw modern refl;
          method_found = ap (λ (n : ℕ). find_method mem pos n r.method) (omega arith);
          method_start = refl;
          method_end = omega arith;
          uri_start = refl;
          uri_end = omega arith;
          http_version = omega arith;
          request_end = same ∙ omega arith;
          ready = refl;
          protocol = omega arith;
          complex_same = refl;
          quoted_same = refl;
          limit = refl;
          position = omega arith;
        },
      )
