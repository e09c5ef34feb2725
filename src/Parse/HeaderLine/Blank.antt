-- ===== src/Parse/HeaderLine/Blank.antt =====
-- The blank line that ends a header: ngx_http_parse_header_line on CR LF.
use leactor.Prelude.{
  ℕ, suc, ◌+◌, ◌-◌, ◌≤◌, ◌≡◌, refl, ap, ◌∙◌, Ptr, arith, true, false, some, [], ◌∷◌,
}
use leactor.Request.{Bytes, Request}
use leactor.Parse.{header_done, parse_header_done, stopped, scan}
use leactor.Parse.Scan.{scan-step}
use leactor.Parse.Text.{At}
use leactor.Parse.HeaderLine.{
  header_almost_done, decode, begin, round, Parsed, conclude, parse_header_line, Local,
}
use leactor.Parse.HeaderLine.Rounds.{local, run}

-- What the caller finds after a blank line.
pub record IsBlank (pos last : Ptr) (r : Request) (p : Parsed) : Type 0 where
  pub code : p.code ≡ parse_header_done
  pub ready : p.r.state ≡ 0
  pub same_version : p.r.http_protocol_data ≡ r.http_protocol_data
  pub position : p.b.pos ≡ pos + 2

module _ (mem : Bytes) (pos last : Ptr) (r : Request) (fresh : r.state ≡ 0)
    (line : At mem pos (13 ∷ 10 ∷ [])) (whole : pos + 2 ≤ last) where
  abbrev seen : Request
  seen = record r { header_name_start = pos; invalid_header = false; header_end = pos }

  abbrev met : Local
  met = local seen header_almost_done r.header_hash r.lowcase_index

  blank_end : (n : ℕ) → run true mem (suc n) (pos + 1) met ≡ stopped (pos + 1) (header_done met)
  unfolding scan round
  blank_end n = rw line.1.0 refl

  -- The parser on a blank line.
  pub parse_header_line-IsBlank :
      (p : Parsed) × (parse_header_line mem r (record { pos = pos; last = last }) true ≡ some p)
      × IsBlank pos last r p
  unfolding parse_header_line begin decode conclude round
  parse_header_line-IsBlank =
      let n = last - (pos + 2) in
      (
        _,
        ap (conclude (record { pos = pos; last = last })) (
            ap
              (λ s.
                run true mem (last - pos) pos (local r (decode s) r.header_hash r.lowcase_index))
              fresh
            ∙ scan-step (round true mem) (last - pos) (suc n) pos (pos + 1) _ met (rw line.0 refl)
                (omega arith) refl
            ∙ blank_end n),
        record { code = refl; ready = refl; same_version = refl; position = omega arith },
      )
