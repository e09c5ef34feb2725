-- ===== src/Http/Forward/Whole.antt =====
-- A whole request: what the proxy passes on is what the client has sent, with the field names in lower case.
use leactor.Prelude.{
  ℕ, suc, ◌+◌, ◌*◌, ◌^◌, ◌<◌, ◌≤◌, ◌≡◌, refl, subst, ap, ◌∙◌, Ptr, arith, false, some, List, ◌∷◌,
  ◌++◌, length, length-append, ok, Distinct,
}
use leactor.Parse.Text.{At, All, At-append}
use leactor.Parse.RequestLine.{Parsed}
use leactor.Parse.RequestLine.Rounds.{IsDigit, MethodByte, PathByte}
use leactor.Parse.RequestLine.Line.{
  version_text, line_end, IsRequestLine, parse_request_line-IsRequestLine,
}
use leactor.Buffers.{Allocator}
use leactor.Buffers.Chain.{Supplies, slice}
use leactor.Chains.{gather}
use leactor.Http.{Parts}
use leactor.Http.Line.{request_line_parsed, IsDivided, request_line_parsed-IsDivided}
use leactor.Http.Headers.{State, process_request_headers}
use leactor.Http.Headers.Memory.{slice-At, At-same, At-join}
use leactor.Http.Headers.Text.{Field, header_bytes, all_lowered, header_length}
use leactor.Http.Headers.Whole.{
  AllPlain, Listed, IsHeader, process_request_headers-IsHeader, Supplies-NotIn,
}
use leactor.Http.Construct.{Build}
use leactor.Http.Construct.Request.{request_pieces, construct_request_chains-gathers}
use leactor.Http.Forward.{Forwarded, request_chain}
use leactor.Http.Forward.Pieces.{vector_text, request_pieces-slice, length-header_bytes}

-- "NAME /path HTTP/a.b" and CR LF.
abbrev pub request_text : (name path : List ℕ) → (major minor : ℕ) → List ℕ
request_text name path major minor =
    name ++ (b' ' ∷ b'/' ∷ (path ++ (b' ' ∷ (version_text major minor ++ line_end))))

length-request_text :
    (name path : List ℕ) (major minor : ℕ)
    → length (request_text name path major minor) ≡ length name + length path + 13
length-request_text name path major minor = omega (
  arith,
  length-append name (b' ' ∷ b'/' ∷ (path ++ (b' ' ∷ (version_text major minor ++ line_end)))),
  length-append path (b' ' ∷ (version_text major minor ++ line_end)),
)

module _ {S : Type 0} ⦃a : Allocator S⦄ (tolower : ℕ → ℕ) (s : State S) (l : Parts) (u : Build S)
    (m : ℕ) (ms path : List ℕ) (major minor : ℕ) (f : Field) (fs : List Field) (p : Ptr)
    (ps : List Ptr) (c0 : Ptr) (cs : List Ptr) (fresh : s.r.state ≡ 0)
    (plain : s.r.complex_uri ≡ false) (unquoted : s.r.quoted_uri ≡ false)
    (name_bytes : All MethodByte (m ∷ ms)) (path_bytes : All PathByte path) (low : b'1' ≤ major)
    (high : major ≤ b'9') (digit : IsDigit minor) (all_plain : AllPlain (f ∷ fs))
    (text : At s.mem s.b.pos (request_text (m ∷ ms) path major minor ++ header_bytes (f ∷ fs)))
    (whole : s.b.pos + suc (length ms) + length path + header_length (f ∷ fs) + 15 ≤ s.b.last)
    (small : suc (length ms) + length path + header_length (f ∷ fs) + 15 < 2 ^ 31)
    (inside : s.b.pos + suc (length ms) + length path + header_length (f ∷ fs) + 15 < 2 ^ 64)
    (supply : Supplies s.manager (p ∷ ps)) (distinct : Distinct (p ∷ ps))
    (same_length : length ps ≡ length fs) (supply' : Supplies u.manager (c0 ∷ cs))
    (distinct' : Distinct (c0 ∷ cs)) (same_length' : length cs ≡ 2 * length fs + 4) where
  abbrev name : ℕ
  name = suc (length ms)

  abbrev line : List ℕ
  line = request_text (m ∷ ms) path major minor

  abbrev line_length : ℕ
  line_length = name + length path + 13

  length-line : length line ≡ line_length
  length-line = length-request_text (m ∷ ms) path major minor

  -- The parser's outcome, the parts of the line, and the header after it.
  module _ (found version : ℕ) (q : Parsed)
      (v : IsRequestLine s.b.pos s.b.last name (length path) found version s.r q) where
    abbrev parts : Parts
    parts = request_line_parsed q.r q.b.pos l

    abbrev after : State S
    after = record s { r = q.r; b = q.b; request_length = parts.request_length }

    divided : IsDivided s.b.pos name (length path) parts
    divided =
        request_line_parsed-IsDivided s.b.pos s.b.last name (length path) found version s.r q l v
          plain unquoted (omega arith) (omega arith) (omega arith)

    behind : q.b.pos ≡ s.b.pos + name + length path + 13
    behind = v.position ∙ omega arith

    header_text : At s.mem q.b.pos (header_bytes (f ∷ fs))
    header_text =
        subst (λ (at : Ptr). At s.mem at (header_bytes (f ∷ fs)))
          (omega (arith, length-line, behind))
          (At-append s.mem s.b.pos line (header_bytes (f ∷ fs)) text).1

    read :
        (t : State S) × (process_request_headers tolower (suc (suc (length fs))) after ≡ ok t)
        × IsHeader tolower after (f ∷ fs) (p ∷ ps) t
    read =
        process_request_headers-IsHeader tolower after (f ∷ fs) (p ∷ ps) v.ready all_plain
          header_text (omega (arith, behind, v.limit)) (omega arith) (omega (arith, behind))
          (omega (arith, divided.request_length)) supply distinct (omega (arith, same_length))

    -- The bytes afterwards.
    module _ (t : State S) (h : IsHeader tolower after (f ∷ fs) (p ∷ ps) t) where
      sent-At : At t.mem s.b.pos (line ++ header_bytes (all_lowered tolower (f ∷ fs)))
      sent-At =
          At-join t.mem s.b.pos line (header_bytes (all_lowered tolower (f ∷ fs)))
            (At-same s.mem t.mem s.b.pos line
              (λ x from to. h.below x (omega (arith, length-line, behind)))
              (At-append s.mem s.b.pos line (header_bytes (f ∷ fs)) text).0)
            (subst (λ (at : Ptr). At t.mem at (header_bytes (all_lowered tolower (f ∷ fs))))
              (omega (arith, length-line, behind)) h.bytes)

      sent-text :
          vector_text t.mem (request_pieces s.b.pos name (length path) (f ∷ fs))
          ≡ line ++ header_bytes (all_lowered tolower (f ∷ fs))
      sent-text =
          let total : line_length + (header_length (f ∷ fs) + 2)
              ≡ length (line ++ header_bytes (all_lowered tolower (f ∷ fs))) =
            omega (
              arith,
              length-append line (header_bytes (all_lowered tolower (f ∷ fs))),
              length-line,
              length-header_bytes tolower (f ∷ fs),
            ) in
          request_pieces-slice t.mem s.b.pos name (length path) f fs
          ∙ ap (λ (n : ℕ). slice t.mem s.b.pos n) total
          ∙ slice-At t.mem s.b.pos (line ++ header_bytes (all_lowered tolower (f ∷ fs))) sent-At

  -- For a request "NAME /path HTTP/a.b" with at least one field, whole in the buffer, on which the parser
  -- starts with `state` 0 and no complex or quoted URI noted, with a name of capital letters, a path of bytes
  -- that pass the table of usual bytes, a first digit other than 0, plain fields (no name with the hash
  -- for a host), free elements and pieces of their own, and lengths and addresses in the range of their
  -- types: http_process_request_line gets as far as sending, within as many rounds of its
  -- loops as there are fields and one, with a chain from which send_chains gives writev, put together,
  -- exactly the bytes of the request, with each byte of a field's name put through tolower.
  pub request_chain-forwards :
      (d : Forwarded S) × (request_chain tolower (suc (length fs)) s l u ≡ ok (some d))
      × (d.send_chain ≡ c0)
      × (vec : List (Ptr × ℕ)) × (end : Ptr) × (gather
            (d.built.chains c0).chain_len
            d.built.chains
            c0
          ≡ ok (vec, end))
      × (vector_text d.request.mem vec
          ≡ request_text (m ∷ ms) path major minor ++ header_bytes (all_lowered tolower (f ∷ fs)))
  unfolding request_chain
  request_chain-forwards =
      let first = (At-append s.mem s.b.pos line (header_bytes (f ∷ fs)) text).0 in
      let (q, parsed, v) =
        parse_request_line-IsRequestLine s.mem s.b.pos s.b.last s.r m ms path major minor fresh
          name_bytes path_bytes low high digit first (omega arith) in
      let (t, run, h) = read _ _ q v in
      let at = behind _ _ q v in
      let listed : Listed t.elements (s.b.pos + name + length path + 13) (f ∷ fs) (p ∷ ps) =
        subst (λ (x : Ptr). Listed t.elements x (f ∷ fs) (p ∷ ps)) at h.listed in
      let d = divided _ _ q v in
      let start : t.r.http_protocol_data ≡ s.b.pos + name + length path + 3 =
        h.same_version ∙ v.protocol ∙ omega arith in
      let (w, built, count, end, vector) =
        construct_request_chains-gathers t.elements (parts _ _ q v)
          (record { start = t.r.http_protocol_data; length = (parts _ _ q v).http_protocol_length })
          s.b.pos name (length path) (f ∷ fs) (p ∷ ps) cs c0 u d
          (rw (start, d.protocol_length) refl) listed (omega (arith, same_length))
          (Supplies-NotIn s.manager (p ∷ ps) supply) distinct supply' distinct'
          (omega (arith, same_length')) (omega arith) (omega arith) in
      (
        record { request = t; built = w; send_chain = c0 },
        rw (parsed, v.code, run, h.head, h.tail, built) refl,
        refl,
        request_pieces s.b.pos name (length path) (f ∷ fs),
        end,
        rw count vector,
        sent-text _ _ q v t h,
      )
