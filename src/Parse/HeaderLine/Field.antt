-- ===== src/Parse/HeaderLine/Field.antt =====
-- A whole header line: ngx_http_parse_header_line on the bytes of "name: value" and CR LF.
use leactor.Prelude.{
  ◌^◌, ◌%◌, ◌*◌, ℕ, suc, ◌+◌, ◌-◌, ◌≤◌, ◌≡◌, ◌≢◌, refl, sym, ap, ◌∙◌, Ptr, Bool, false, arith, ◌==◌,
  if◌then◌else◌, some, List, [], ◌∷◌, ◌++◌, length, update, last_or,
}
use leactor.Request.{Bytes, Request}
use leactor.Parse.{lok}
use leactor.Parse.Scan.{scan-done}
use leactor.Parse.Text.{At, All, At-append}
use leactor.Parse.HeaderLine.{
  value, space_after_value, almost_done, decode, round, Parsed, conclude, finish, begin,
  parse_header_line, lowcase,
}
use leactor.Parse.HeaderLine.Rounds.{
  NameByte, NameByte-not_end, ValueByte, name_hash, ascii_lower, ngx_hash-lowcase, local,
  round_first, round_colon, round_space, round_first_value, round_cr, round_lf, run, step, stay,
  read_name, read_value,
}

-- What the caller finds in the request and the buffer after the line that starts at `pos`.
pub record IsField (pos last : Ptr) (name_length value_length hash : ℕ) (r : Request) (p : Parsed)
    : Type 0 where
  pub code : p.code ≡ lok
  pub name_start : p.r.header_name_start ≡ pos
  pub name_end : p.r.header_name_end ≡ pos + name_length
  pub value_start : p.r.header_start ≡ pos + name_length + 2
  pub value_end : p.r.header_end ≡ pos + name_length + 2 + value_length
  pub hashed : p.r.header_hash ≡ hash
  pub valid : p.r.invalid_header ≡ false
  pub ready : p.r.state ≡ 0
  pub same_version : p.r.http_protocol_data ≡ r.http_protocol_data
  pub limit : p.b.last ≡ last
  pub position : p.b.pos ≡ pos + name_length + 2 + value_length + 2

module _ (allow : Bool) (mem : Bytes) (pos last : Ptr) (r : Request) (n : ℕ) (ns : List ℕ) (v : ℕ)
    (vs : List ℕ) (fresh : r.state ≡ 0) (name_bytes : All NameByte (n ∷ ns))
    (value_bytes : All ValueByte (v ∷ vs)) (no_space : v ≢ b' ') (no_trailing : last_or v vs ≢ b' ')
    (line : At mem pos ((n ∷ ns) ++ (b':' ∷ b' ' ∷ ((v ∷ vs) ++ (13 ∷ 10 ∷ [])))))
    (whole : pos + suc (length ns) + 2 + suc (length vs) + 2 ≤ last) where
  abbrev colon : Ptr
  colon = pos + suc (length ns)

  abbrev text : Ptr
  text = colon + 1 + 1

  abbrev cr : Ptr
  cr = text + suc (length vs)

  -- What is left of the buffer behind the line.
  abbrev beyond : ℕ
  beyond = last - (cr + 2)

  name_part : At mem pos (n ∷ ns) × At mem colon (b':' ∷ b' ' ∷ ((v ∷ vs) ++ (13 ∷ 10 ∷ [])))
  name_part = At-append mem pos (n ∷ ns) _ line

  value_part : At mem text (v ∷ vs) × At mem cr (13 ∷ 10 ∷ [])
  value_part = At-append mem text (v ∷ vs) (13 ∷ 10 ∷ []) name_part.1.1.1

  abbrev after_first : Request
  after_first = record r {
    header_name_start = pos;
    invalid_header = false;
    lowcase_header = update r.lowcase_header 0 (lowcase n);
  }

  -- The request after the name, the colon and the first byte of the value.
  abbrev at_value : (ℕ → ℕ) → Request
  at_value f = record after_first {
    lowcase_header = f;
    header_name_end = colon;
    header_start = text;
  }

  read_to_value :
      (f : ℕ → ℕ) × (j : ℕ) × (run allow mem (last - pos) pos (begin r)
        ≡ run allow mem
            (length vs + (2 + beyond))
            (text + 1)
            (local (at_value f) value (name_hash 0 (n ∷ ns)) j))
  unfolding begin name_hash decode
  read_to_value =
      let m = length vs + (2 + beyond) in
      let ends = NameByte-not_end n name_bytes.0 in
      let (f, j, rest) =
        read_name allow mem (length ns + (3 + m)) (3 + m) (pos + 1) ns after_first
          ((0 * 31 + ascii_lower n) % 2 ^ 32) 1 refl name_part.0.1 name_bytes.1 in
      let named = record after_first { lowcase_header = f } in
      let coloned = record named { header_name_end = colon } in
      (
        f,
        j,
        ap
              (λ (s : ℕ).
                run allow mem (last - pos) pos (local r (decode s) r.header_hash r.lowcase_index))
              fresh
            ∙ step allow mem (last - pos) (length ns + (3 + m)) pos (pos + 1) _ _
                (rw (← ngx_hash-lowcase 0 n name_bytes.0) (
                  round_first allow mem pos n r r.header_hash r.lowcase_index name_part.0.0
                    name_bytes.0 ends.0 ends.1))
                (omega arith) refl
            ∙ rest
            ∙ stay allow mem (3 + m) (3 + m) (pos + 1 + length ns) colon _ refl (omega arith)
            ∙ step allow mem (3 + m) (2 + m) colon (colon + 1) _ _
                (round_colon allow mem colon b':' named _ j name_part.1.0 refl) (omega arith) refl
            ∙ step allow mem (2 + m) (1 + m) (colon + 1) text _ _
                (round_space allow mem (colon + 1) b' ' coloned _ j name_part.1.1.0 refl)
                (omega arith) refl
            ∙ step allow mem (1 + m) m text (text + 1) _ _
                (round_first_value allow mem text v coloned _ j value_part.0.0 value_bytes.0
                  no_space)
                (omega arith) refl,
      )

  -- ngx_http_parse_header_line, called with `state` 0 on a buffer that begins with a whole line
  -- "name: value" and CR LF: for a name of letters, digits and dashes and a value with no CR, LF or
  -- NUL that neither begins nor ends with a space, both not empty, the call answers LOK, delimits
  -- exactly the name and the value, leaves the name's lower-case hash, and stands behind the line.
  pub parse_header_line-IsField :
      (p : Parsed) × (parse_header_line mem r (record { pos = pos; last = last }) allow ≡ some p)
      × IsField pos last (suc (length ns)) (suc (length vs)) (name_hash 0 (n ∷ ns)) r p
  unfolding parse_header_line
  parse_header_line-IsField =
      let (f, j, to_value) = read_to_value in
      let hash = name_hash 0 (n ∷ ns) in
      let (e, rest) =
        read_value allow mem (length vs + (2 + beyond)) (2 + beyond) (text + 1) v vs (at_value f)
          hash j refl value_part.0.1 value_bytes.1 in
      let plain : (v == b' ') ≡ false = ground arith in
      let plain' : (last_or v vs == b' ') ≡ false = ground arith in
      let valued = record (at_value f) { header_end = e } in
      let ended = record (at_value f) { header_end = cr } in
      let all =
        to_value
        ∙ ap
            (λ (b : Bool).
              run allow mem (length vs + (2 + beyond)) (text + 1)
                (local (at_value f) (if b then space_after_value else value) hash j))
            (sym plain)
        ∙ rest
        ∙ stay allow mem (2 + beyond) (2 + beyond) (text + 1 + length vs) cr _ refl (omega arith)
        ∙ ap
            (λ (b : Bool).
              run allow mem (2 + beyond) cr
                (local valued (if b then space_after_value else value) hash j))
            plain'
        ∙ step allow mem (2 + beyond) (suc beyond) cr (cr + 1) _ _
            (round_cr allow mem cr 13 valued hash j value_part.1.0 refl) (omega arith) refl
        ∙ scan-done (round allow mem) beyond (cr + 1) _ _
            (round_lf allow mem (cr + 1) 10 ended hash j value_part.1.1.0 refl) in
      (
        finish (cr + 1) (local ended almost_done hash j) (record { pos = pos; last = last }),
        ap (conclude (record { pos = pos; last = last })) all,
        record {
          code = refl;
          name_start = refl;
          name_end = refl;
          value_start = omega arith;
          value_end = omega arith;
          hashed = refl;
          valid = refl;
          ready = refl;
          same_version = refl;
          limit = refl;
          position = omega arith;
        },
      )
