-- ===== src/Http/Answer/Whole.antt =====
-- A whole response: what the client is sent is what the upstream has sent, with the field names in lower case.
use leactor.Prelude.{
  ℕ, suc, ◌+◌, ◌-◌, ◌*◌, ◌^◌, ◌<◌, ◌≤◌, ◌≡◌, refl, subst, ap, ◌∙◌, Ptr, null, arith, false, some,
  List, ◌∷◌, ◌++◌, length, length-append, ok, undefined, ◌==◌, Distinct,
}
use leactor.Request.{Bytes, Status}
use leactor.Parse.Text.{At, All, At-append}
use leactor.Parse.HeaderLine.Blank.{parse_header_line-IsBlank}
use leactor.Parse.StatusLine.{Parsed}
use leactor.Parse.StatusLine.Rounds.{IsDigit, TextByte}
use leactor.Parse.StatusLine.Line.{
  http_text, version_text, code_text, line_end, IsStatus, parse_status_line-IsStatus,
}
use leactor.Buffers.{Allocator}
use leactor.Buffers.Chain.{Supplies, slice}
use leactor.Chains.{gather}
use leactor.Http.{Str, diff}
use leactor.Http.Line.{diff-exact}
use leactor.Http.Headers.{State, loop, process_request_headers}
use leactor.Http.Headers.Memory.{slice-At, At-same, At-join}
use leactor.Http.Headers.Text.{Field, header_bytes, all_lowered, header_length}
use leactor.Http.Headers.Whole.{
  AllPlain, Listed, IsHeader, process_request_headers-IsHeader, Supplies-NotIn,
}
use leactor.Http.Construct.{Build, fields, construct_response_chains}
use leactor.Http.Construct.Fields.{field_pieces}
use leactor.Http.Construct.Response.{construct_response_chains-gathers}
use leactor.Http.Forward.Pieces.{vector_text, response_pieces-slice, length-header_bytes}
use leactor.Http.Answer.{Answered, response_chain}

-- "HTTP/a.b ccc text" and CR LF.
abbrev pub status_line : (major minor c0 c1 c2 : ℕ) → (text : List ℕ) → List ℕ
status_line major minor c0 c1 c2 text =
    http_text ++ (version_text major minor ++ (code_text c0 c1 c2 ++ (text ++ line_end)))

length-status_line :
    (major minor c0 c1 c2 : ℕ) (text : List ℕ)
    → length (status_line major minor c0 c1 c2 text) ≡ length text + 15
length-status_line major minor c0 c1 c2 text = omega (arith, length-append text line_end)

module _ {S : Type 0} ⦃a : Allocator S⦄ (tolower : ℕ → ℕ) (s : State S) (major minor c0 c1 c2 : ℕ)
    (text : List ℕ) (fs : List Field) (ps : List Ptr) (all_plain : AllPlain fs)
    (bytes : At s.mem s.b.pos (status_line major minor c0 c1 c2 text ++ header_bytes fs))
    (whole : s.b.pos + length text + header_length fs + 17 ≤ s.b.last)
    (small : length text + header_length fs + 17 < 2 ^ 31)
    (inside : s.b.pos + length text + header_length fs + 17 < 2 ^ 64)
    (counted : s.request_length < 2 ^ 32) (supply : Supplies s.manager ps) (distinct : Distinct ps)
    (same_length : length ps ≡ length fs) where
  abbrev line : List ℕ
  line = status_line major minor c0 c1 c2 text

  length-line : length line ≡ length text + 15
  length-line = length-status_line major minor c0 c1 c2 text

  parsed_line : At s.mem s.b.pos line × At s.mem (s.b.pos + length line) (header_bytes fs)
  parsed_line = At-append s.mem s.b.pos line (header_bytes fs) bytes

  -- The parser's outcome, and the header after it.
  module _ (version code : ℕ) (q : Parsed)
      (v : IsStatus s.b.pos s.b.last version code (length text) q) where
    abbrev after : State S
    after = record s { r = q.r; b = q.b }

    behind : q.b.pos ≡ s.b.pos + (length text + 13) + 2
    behind = v.position ∙ omega arith

    line_size : diff q.st.end q.r.request_start ≡ length text + 13
    line_size =
        diff-exact q.st.end q.r.request_start (length text + 13)
          (omega (arith, v.status_end, v.line_start)) (omega arith) (omega (arith, v.status_end))

    read :
        (t : State S) × (process_request_headers tolower (suc (length fs)) after ≡ ok t)
        × IsHeader tolower after fs ps t
    read =
        process_request_headers-IsHeader tolower after fs ps v.ready all_plain
          (subst (λ (at : Ptr). At s.mem at (header_bytes fs)) (omega (arith, length-line, behind))
            parsed_line.1)
          (omega (arith, behind, v.limit)) (omega arith) (omega (arith, behind)) counted supply
          distinct same_length

    sent-At :
        (t : State S)
        → IsHeader tolower after fs ps t
        → At t.mem s.b.pos (line ++ header_bytes (all_lowered tolower fs))
    sent-At t h =
        At-join t.mem s.b.pos line (header_bytes (all_lowered tolower fs))
          (At-same s.mem t.mem s.b.pos line
            (λ x from to. h.below x (omega (arith, length-line, behind))) parsed_line.0)
          (subst (λ (at : Ptr). At t.mem at (header_bytes (all_lowered tolower fs)))
            (omega (arith, length-line, behind)) h.bytes)

    -- The header is read, the line has its length, and the bytes are those that came but for the names.
    answered :
        (t : State S) × (process_request_headers tolower (suc (length fs)) after ≡ ok t)
        × IsHeader tolower after fs ps t
        × Listed t.elements (s.b.pos + (length text + 13) + 2) fs ps
        × (diff q.st.end q.r.request_start ≡ length text + 13)
        × At t.mem s.b.pos (line ++ header_bytes (all_lowered tolower fs))
    answered =
        let (t, run, h) = read in
        (
          t,
          run,
          h,
          subst (λ (x : Ptr). Listed t.elements x fs ps) behind h.listed,
          line_size,
          sent-At t h,
        )

-- The bytes of the pieces.
sent-text :
    (mem : Bytes) (pos : Ptr) (tolower : ℕ → ℕ) (major minor c0 c1 c2 : ℕ) (text : List ℕ)
    (f : Field) (fs : List Field)
    → At mem pos
        (status_line major minor c0 c1 c2 text ++ header_bytes (all_lowered tolower (f ∷ fs)))
    → vector_text mem
        ((pos, length text + 13 + 2) ∷ field_pieces (pos + (length text + 13) + 2) (f ∷ fs))
      ≡ status_line major minor c0 c1 c2 text ++ header_bytes (all_lowered tolower (f ∷ fs))
sent-text mem pos tolower major minor c0 c1 c2 text f fs sent =
    let line = status_line major minor c0 c1 c2 text in
    let bytes = header_bytes (all_lowered tolower (f ∷ fs)) in
    let total : length text + 13 + 2 + (header_length (f ∷ fs) + 2) ≡ length (line ++ bytes) =
      omega (
        arith,
        length-append line bytes,
        length-status_line major minor c0 c1 c2 text,
        length-header_bytes tolower (f ∷ fs),
      ) in
    response_pieces-slice mem pos (length text + 13) f fs
    ∙ ap (λ (n : ℕ). slice mem pos n) total
    ∙ slice-At mem pos (line ++ bytes) sent

module _ {S : Type 0} ⦃a : Allocator S⦄ (tolower : ℕ → ℕ) (s : State S) (st : Status) (u : Build S)
    (major minor c0 c1 c2 : ℕ) (text : List ℕ) (f : Field) (fs : List Field) (p : Ptr)
    (ps : List Ptr) (k0 k1 : Ptr) (ks : List Ptr) (fresh : s.r.state ≡ 0) (no_count : st.count ≡ 0)
    (no_code : st.code ≡ 0) (low : b'1' ≤ major) (high : major ≤ b'9') (minor_digit : IsDigit minor)
    (d0 : IsDigit c0) (d1 : IsDigit c1) (d2 : IsDigit c2) (text_bytes : All TextByte text)
    (all_plain : AllPlain (f ∷ fs))
    (bytes : At s.mem s.b.pos (status_line major minor c0 c1 c2 text ++ header_bytes (f ∷ fs)))
    (whole : s.b.pos + length text + header_length (f ∷ fs) + 17 ≤ s.b.last)
    (small : length text + header_length (f ∷ fs) + 17 < 2 ^ 31)
    (inside : s.b.pos + length text + header_length (f ∷ fs) + 17 < 2 ^ 64)
    (counted : s.request_length < 2 ^ 32) (supply : Supplies s.manager (p ∷ ps))
    (distinct : Distinct (p ∷ ps)) (same_length : length ps ≡ length fs)
    (supply' : Supplies u.manager (k0 ∷ k1 ∷ ks)) (distinct' : Distinct (k0 ∷ k1 ∷ ks))
    (same_length' : length ks ≡ 2 * length fs + 1) where
  -- For a response "HTTP/a.b ccc text" with at least one field, whole in the buffer, on which the parser starts with
  -- `state` 0 and a status with no digits yet, with a first digit other than 0, a text with no CR or LF,
  -- plain fields (no name with the hash for a host), free elements and pieces of their own, and
  -- lengths and addresses in the range of their types: http_process_response_line gets as far as
  -- sending, within as many rounds of its loops as there are fields and one, with the status's number,
  -- and a chain from which send_chains gives writev, put together, exactly the bytes of the response's
  -- header, with each byte of a field's name put through tolower.
  pub response_chain-forwards :
      (d : Answered S) × (response_chain tolower (suc (length fs)) s st u ≡ ok (some d))
      × (d.status.code ≡ (c0 - b'0') * 100 + (c1 - b'0') * 10 + (c2 - b'0'))
      × (d.out_chain ≡ k0)
      × (vec : List (Ptr × ℕ)) × (end : Ptr) × (gather
            (d.built.chains k0).chain_len
            d.built.chains
            k0
          ≡ ok (vec, end))
      × (vector_text d.response.mem vec
          ≡ status_line major minor c0 c1 c2 text ++ header_bytes (all_lowered tolower (f ∷ fs)))
  unfolding response_chain
  response_chain-forwards =
      let first =
        (At-append s.mem s.b.pos (status_line major minor c0 c1 c2 text) (header_bytes (f ∷ fs))
          bytes).0 in
      let (q, parsed, v) =
        parse_status_line-IsStatus s.mem s.b.pos s.b.last s.r st major minor c0 c1 c2 text fresh
          no_count no_code low high minor_digit d0 d1 d2 text_bytes first (omega arith) in
      let same : length (p ∷ ps) ≡ length (f ∷ fs) = omega (arith, same_length) in
      let (t, run, h, listed, size, sent) =
        answered tolower s major minor c0 c1 c2 text (f ∷ fs) (p ∷ ps) all_plain bytes whole small
          inside counted supply distinct same _ _ q v in
      let l : Str = record { start = s.b.pos; length = length text + 13 } in
      let line_is : record { start = q.r.request_start; length = diff q.st.end q.r.request_start }
          ≡ l =
        rw (size, v.line_start) refl in
      let (w, built, count, end, vector) =
        construct_response_chains-gathers t.elements l (s.b.pos + (length text + 13) + 2) f fs p ps
          k0 k1 ks u listed same_length (Supplies-NotIn s.manager (p ∷ ps) supply) distinct supply'
          distinct' same_length' (omega arith) (omega arith) in
      (
        record {
          response = t;
          status = q.st;
          request_line = l;
          http_protocol_length = diff q.r.http_protocol_end q.r.http_protocol_data;
          built = w;
          out_chain = k0;
        },
        rw (parsed, v.code_ok, run, h.head, h.tail, line_is, built) refl,
        v.status_code,
        refl,
        (s.b.pos, length text + 13 + 2) ∷ field_pieces (s.b.pos + (length text + 13) + 2) (f ∷ fs),
        end,
        rw count vector,
        sent-text t.mem s.b.pos tolower major minor c0 c1 c2 text f fs sent,
      )

module _ {S : Type 0} ⦃a : Allocator S⦄ (tolower : ℕ → ℕ) (s : State S) (st : Status) (u : Build S)
    (major minor c0 c1 c2 : ℕ) (text : List ℕ) (k0 k1 : Ptr) (ks : List Ptr) (fresh : s.r.state ≡ 0)
    (no_count : st.count ≡ 0) (no_code : st.code ≡ 0) (low : b'1' ≤ major) (high : major ≤ b'9')
    (minor_digit : IsDigit minor) (d0 : IsDigit c0) (d1 : IsDigit c1) (d2 : IsDigit c2)
    (text_bytes : All TextByte text)
    (bytes : At s.mem s.b.pos (status_line major minor c0 c1 c2 text ++ line_end))
    (whole : s.b.pos + length text + 17 ≤ s.b.last)
    (supply : Supplies u.manager (k0 ∷ k1 ∷ ks)) where
  -- For a response like that but without fields, with two free pieces: http_process_response_line reads the key
  -- of the first element through NULL.
  pub response_chain-undefined : (fuel : ℕ) → response_chain tolower (suc fuel) s st u ≡ undefined
  unfolding response_chain process_request_headers loop construct_response_chains fields
  response_chain-undefined fuel =
      let first =
        (At-append s.mem s.b.pos (status_line major minor c0 c1 c2 text) line_end bytes).0 in
      let (q, parsed, v) =
        parse_status_line-IsStatus s.mem s.b.pos s.b.last s.r st major minor c0 c1 c2 text fresh
          no_count no_code low high minor_digit d0 d1 d2 text_bytes first (omega arith) in
      let line = status_line major minor c0 c1 c2 text in
      let blank_line : At s.mem q.b.pos line_end =
        subst (λ (at : Ptr). At s.mem at line_end)
          (omega (arith, length-status_line major minor c0 c1 c2 text, v.position))
          (At-append s.mem s.b.pos line line_end bytes).1 in
      let (b, blank, w) =
        parse_header_line-IsBlank s.mem q.b.pos q.b.last q.r v.ready blank_line
          (omega (arith, v.position, v.limit)) in
      let (m0, s0, some0, (m1, s1, some1, rest)) = supply in
      let there0 : (k0 == null) ≡ false = ground arith in
      let there1 : (k1 == null) ≡ false = ground arith in
      rw (parsed, v.code_ok, blank, w.code, s0, there0, s1, there1) refl
