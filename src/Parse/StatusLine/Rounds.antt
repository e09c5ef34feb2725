-- ===== src/Parse/StatusLine/Rounds.antt =====
-- The rounds of ngx_http_parse_status_line, one for each kind of byte of a status line.
use leactor.Prelude.{
  ℕ, suc, ◌+◌, ◌-◌, ◌*◌, ◌≤◌, ◌≡◌, ◌≢◌, refl, ◌∙◌, Ptr, arith, List, [], ◌∷◌, length,
}
use leactor.Request.{Bytes, int32, Status, Request}
use leactor.Parse.{go, done, Scanned, scan}
use leactor.Parse.Scan.{scan-step, scan-stay}
use leactor.Parse.Text.{At, All}
use leactor.Parse.StatusLine.{
  Sw, start, h, ht, htt, http, first_major_digit, major_digit, first_minor_digit, minor_digit,
  status, space_after_status, status_text, almost_done, Local, round,
}

abbrev pub local : Request → Status → Sw → Local
local r st state = record { r = r; st = st; state = state }

abbrev pub IsDigit : ℕ → Type 0
IsDigit c = (b'0' ≤ c) × (c ≤ b'9')

-- A byte of the text behind the code: not CR or LF.
abbrev pub TextByte : ℕ → Type 0
TextByte c = (c ≢ 13) × (c ≢ 10)

-- The status with one more digit of the code.
abbrev pub add_digit : ℕ → Status → Status
add_digit c st = record st {
  code = int32 (st.code * 10 + (c - b'0'));
  count = int32 (st.count + 1);
}

module _ (mem : Bytes) (p : Ptr) (c : ℕ) (r : Request) (st : Status) (here : mem p ≡ c) where
  pub round_major :
      b'1' ≤ c
      → c ≤ b'9'
      → round mem p (local r st first_major_digit)
        ≡ go (local (record r { http_major = c - b'0' }) st major_digit)
  unfolding round
  round_major low high = ground arith

  pub round_minor :
      IsDigit c
      → round mem p (local r st first_minor_digit)
        ≡ go (local (record r { http_minor = c - b'0' }) st minor_digit)
  unfolding round
  round_minor d = ground arith

  pub round_digit :
      IsDigit c
      → int32 (st.count + 1) ≢ 3
      → round mem p (local r st status) ≡ go (local r (add_digit c st) status)
  unfolding round
  round_digit d more = ground arith

  pub round_last_digit :
      IsDigit c
      → int32 (st.count + 1) ≡ 3
      → round mem p (local r st status)
        ≡ go (local r (record (add_digit c st) { start = p - 2 }) space_after_status)
  unfolding round
  round_last_digit d last = ground arith

  pub round_text : TextByte c → round mem p (local r st status_text) ≡ go (local r st status_text)
  unfolding round
  round_text t = ground arith

  pub round_cr : c ≡ 13 → round mem p (local r st status_text) ≡ go (local r st almost_done)
  unfolding round
  round_cr e = rw (here, e) refl

  pub round_lf :
      c ≡ 10
      → round mem p (local r st almost_done)
        ≡ done (local r (record st { end = p - 1 }) almost_done)
  unfolding round
  round_lf e = rw (here, e) refl

module _ (mem : Bytes) where
  abbrev pub run : ℕ → Ptr → Local → Scanned Local
  run = scan (round mem)

  -- The request after "HTTP/".
  abbrev pub after_http : Ptr → Request → Request
  after_http p r = record r { request_start = p; http_protocol_data = p }

  pub read_http :
      (n : ℕ) (p : Ptr) (r : Request) (st : Status)
      → At mem p (b'H' ∷ b'T' ∷ b'T' ∷ b'P' ∷ b'/' ∷ [])
      → run (5 + n) p (local r st start)
        ≡ run n (p + 5) (local (after_http p r) st first_major_digit)
  unfolding round
  read_http n p r st (c0, (c1, (c2, (c3, (c4, _))))) =
      let l : Sw → Local = local (after_http p r) st in
      scan-step (round mem) (5 + n) (4 + n) p (p + 1) (local r st start) (l h) (rw c0 refl)
        (omega arith) refl
      ∙ scan-step (round mem) (4 + n) (3 + n) (p + 1) (p + 1 + 1) (l h) (l ht) (rw c1 refl)
          (omega arith) refl
      ∙ scan-step (round mem) (3 + n) (2 + n) (p + 1 + 1) (p + 1 + 1 + 1) (l ht) (l htt)
          (rw c2 refl) (omega arith) refl
      ∙ scan-step (round mem) (2 + n) (1 + n) (p + 1 + 1 + 1) (p + 1 + 1 + 1 + 1) (l htt) (l http)
          (rw c3 refl) (omega arith) refl
      ∙ scan-step (round mem) (1 + n) n (p + 1 + 1 + 1 + 1) (p + 5) (l http) (l first_major_digit)
          (rw c4 refl) (omega arith) (omega arith)

  -- The request after "1.1 " at `p`, for the digits `major` and `minor`.
  abbrev pub after_version : Ptr → (major minor : ℕ) → Request → Request
  after_version p major minor r = record r {
    http_major = major - b'0';
    http_minor = minor - b'0';
    http_protocol_end = p + 1 + 1 + 1 - 1;
  }

  pub read_version :
      (n : ℕ) (p : Ptr) (major minor : ℕ) (r : Request) (st : Status)
      → b'1' ≤ major
      → major ≤ b'9'
      → IsDigit minor
      → At mem p (major ∷ b'.' ∷ minor ∷ b' ' ∷ [])
      → run (4 + n) p (local r st first_major_digit)
        ≡ run n (p + 4) (local (after_version p major minor r) st status)
  unfolding round
  read_version n p major minor r st low high d (c0, (c1, (c2, (c3, _)))) =
      let r1 = record r { http_major = major - b'0' } in
      scan-step (round mem) (4 + n) (3 + n) p (p + 1) _ _ (round_major mem p major r st c0 low high)
        (omega arith) refl
      ∙ scan-step (round mem) (3 + n) (2 + n) (p + 1) (p + 1 + 1) (local r1 st major_digit)
          (local r1 st first_minor_digit) (rw c1 refl) (omega arith) refl
      ∙ scan-step (round mem) (2 + n) (1 + n) (p + 1 + 1) (p + 1 + 1 + 1) _ _
          (round_minor mem (p + 1 + 1) minor r1 st c2 d) (omega arith) refl
      ∙ scan-step (round mem) (1 + n) n (p + 1 + 1 + 1) (p + 4) _ _ (rw c3 refl) (omega arith)
          (omega arith)

  -- The status after the three digits at `p`.
  abbrev pub after_code : Ptr → (c0 c1 c2 : ℕ) → Status → Status
  after_code p c0 c1 c2 st = record (add_digit c2 (add_digit c1 (add_digit c0 st))) {
    start = p + 1 + 1 - 2;
  }

  pub read_code :
      (n : ℕ) (p : Ptr) (c0 c1 c2 : ℕ) (r : Request) (st : Status)
      → IsDigit c0
      → IsDigit c1
      → IsDigit c2
      → st.count ≡ 0
      → At mem p (c0 ∷ c1 ∷ c2 ∷ b' ' ∷ [])
      → run (4 + n) p (local r st status)
        ≡ run n (p + 4) (local r (after_code p c0 c1 c2 st) status_text)
  unfolding round
  read_code n p c0 c1 c2 r st d0 d1 d2 fresh (h0, (h1, (h2, (h3, _)))) =
      let s1 = add_digit c0 st in
      let s2 = add_digit c1 s1 in
      scan-step (round mem) (4 + n) (3 + n) p (p + 1) _ _
        (round_digit mem p c0 r st h0 d0 (omega arith)) (omega arith) refl
      ∙ scan-step (round mem) (3 + n) (2 + n) (p + 1) (p + 1 + 1) _ _
          (round_digit mem (p + 1) c1 r s1 h1 d1 (omega arith)) (omega arith) refl
      ∙ scan-step (round mem) (2 + n) (1 + n) (p + 1 + 1) (p + 1 + 1 + 1) _ _
          (round_last_digit mem (p + 1 + 1) c2 r s2 h2 d2 (omega arith)) (omega arith) refl
      ∙ scan-step (round mem) (1 + n) n (p + 1 + 1 + 1) (p + 4) _ _ (rw h3 refl) (omega arith)
          (omega arith)

  pub read_text :
      (m n : ℕ) (p : Ptr) (cs : List ℕ) (r : Request) (st : Status)
      → m ≡ length cs + n
      → At mem p cs
      → All TextByte cs
      → run m p (local r st status_text) ≡ run n (p + length cs) (local r st status_text)
  read_text m n p [] r st e at all =
      scan-stay (round mem) m n p (p + 0) _ (omega arith) (omega arith)
  read_text m n p (c ∷ cs) r st e at all =
      scan-step (round mem) m (length cs + n) p (p + 1) _ _ (round_text mem p c r st at.0 all.0)
        (omega arith) refl
      ∙ read_text (length cs + n) n (p + 1) cs r st refl at.1 all.1
      ∙ scan-stay (round mem) n n (p + 1 + length cs) (p + suc (length cs)) _ refl (omega arith)
