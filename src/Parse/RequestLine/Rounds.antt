-- ===== src/Parse/RequestLine/Rounds.antt =====
-- The rounds of ngx_http_parse_request_line, one for each kind of byte of a plain request line.
use leactor.Prelude.{
  ℕ, suc, ◌+◌, ◌-◌, ◌≤◌, ◌≡◌, refl, ap, ◌∙◌, Ptr, arith, List, [], ◌∷◌, length, some, true,
}
use leactor.Request.{Bytes, Request}
use leactor.Parse.{go, done, Scanned, scan}
use leactor.Parse.Scan.{scan-step, scan-stay}
use leactor.Parse.Text.{At, All}
use leactor.Parse.RequestLine.{round}
use leactor.Parse.RequestLine.Method.{find_method}
use leactor.Parse.RequestLine.States.{
  Sw, start, method, spaces_before_uri, after_slash_in_uri, check_uri, check_uri_http_09, http_h,
  http_ht, http_htt, http_http, first_major_digit, major_digit, first_minor_digit, minor_digit,
  almost_done, Local, usual,
}
use leactor.Parse.RequestLine.Switch.{switch}

abbrev pub local : Request → Sw → Local
local r state = record { r = r; state = state }

abbrev pub IsDigit : ℕ → Type 0
IsDigit c = (b'0' ≤ c) × (c ≤ b'9')

-- A byte of a method's name: a capital letter.
abbrev pub MethodByte : ℕ → Type 0
MethodByte c = (b'A' ≤ c) × (c ≤ b'Z')

-- A byte of the path that stands for itself.
abbrev pub PathByte : ℕ → Type 0
PathByte c = usual c ≡ some true

-- The state behind the slash and the bytes of the path.
abbrev pub in_path : List ℕ → Sw
in_path [] = after_slash_in_uri
in_path (c ∷ cs) = check_uri

module _ (mem : Bytes) (p : Ptr) (c : ℕ) (r : Request) (here : mem p ≡ c) where
  pub round_first :
      MethodByte c
      → round mem p (local r start) ≡ go (local (record r { request_start = p }) method)
  unfolding round switch
  round_first m = ground arith

  pub round_method : MethodByte c → round mem p (local r method) ≡ go (local r method)
  unfolding round switch
  round_method m = ground arith

  pub round_method_end :
      c ≡ b' '
      → round mem p (local r method)
        ≡ go (
            local
              (record r {
                method_end = p - 1;
                method = find_method mem r.request_start (p - r.request_start) r.method;
              })
              spaces_before_uri)
  unfolding round switch
  round_method_end e = rw (here, e) refl

  pub round_slash :
      c ≡ b'/'
      → round mem p (local r spaces_before_uri)
        ≡ go (local (record r { uri_start = p }) after_slash_in_uri)
  unfolding round switch
  round_slash e = rw (here, e) refl

  pub round_path :
      (cs : List ℕ) → PathByte c → round mem p (local r (in_path cs)) ≡ go (local r check_uri)
  unfolding round switch
  round_path [] u = rw (here, u) refl
  round_path (x ∷ xs) u = rw (here, u) refl

  pub round_path_end :
      (cs : List ℕ)
      → c ≡ b' '
      → round mem p (local r (in_path cs)) ≡ go (local (record r { uri_end = p }) check_uri_http_09)
  unfolding round switch usual
  round_path_end [] e = rw (here, e) refl
  round_path_end (x ∷ xs) e = rw (here, e) refl

  pub round_major :
      b'1' ≤ c
      → c ≤ b'9'
      → round mem p (local r first_major_digit)
        ≡ go (local (record r { http_major = c - b'0' }) major_digit)
  unfolding round switch
  round_major low high = ground arith

  pub round_minor :
      IsDigit c
      → round mem p (local r first_minor_digit)
        ≡ go (local (record r { http_minor = c - b'0' }) minor_digit)
  unfolding round switch
  round_minor d = ground arith

  pub round_cr : c ≡ 13 → round mem p (local r minor_digit) ≡ go (local r almost_done)
  unfolding round switch
  round_cr e = rw (here, e) refl

  pub round_lf :
      c ≡ 10
      → round mem p (local r almost_done)
        ≡ done (local (record r { request_end = p - 1 }) almost_done)
  unfolding round switch
  round_lf e = rw (here, e) refl

module _ (mem : Bytes) where
  abbrev pub run : ℕ → Ptr → Local → Scanned Local
  run = scan (round mem)

  pub read_method :
      (m n : ℕ) (p : Ptr) (cs : List ℕ) (r : Request)
      → m ≡ length cs + n
      → At mem p cs
      → All MethodByte cs
      → run m p (local r method) ≡ run n (p + length cs) (local r method)
  read_method m n p [] r e at all =
      scan-stay (round mem) m n p (p + 0) _ (omega arith) (omega arith)
  read_method m n p (c ∷ cs) r e at all =
      scan-step (round mem) m (length cs + n) p (p + 1) _ _ (round_method mem p c r at.0 all.0)
        (omega arith) refl
      ∙ read_method (length cs + n) n (p + 1) cs r refl at.1 all.1
      ∙ scan-stay (round mem) n n (p + 1 + length cs) (p + suc (length cs)) _ refl (omega arith)

  -- The state after the bytes `cs` that follow `before`.
  abbrev pub path_state : (before cs : List ℕ) → Sw
  path_state before [] = in_path before
  path_state before (c ∷ cs) = check_uri

  path_state_cons : (before : List ℕ) (c : ℕ) (cs : List ℕ) → path_state (c ∷ before) cs ≡ check_uri
  path_state_cons before c [] = refl
  path_state_cons before c (x ∷ xs) = refl

  pub read_path :
      (m n : ℕ) (p : Ptr) (before cs : List ℕ) (r : Request)
      → m ≡ length cs + n
      → At mem p cs
      → All PathByte cs
      → run m p (local r (in_path before)) ≡ run n (p + length cs) (local r (path_state before cs))
  read_path m n p before [] r e at all =
      scan-stay (round mem) m n p (p + 0) _ (omega arith) (omega arith)
  read_path m n p before (c ∷ cs) r e at all =
      scan-step (round mem) m (length cs + n) p (p + 1) _ _ (round_path mem p c r at.0 before all.0)
        (omega arith) refl
      ∙ read_path (length cs + n) n (p + 1) (c ∷ before) cs r refl at.1 all.1
      ∙ scan-stay (round mem) n n (p + 1 + length cs) (p + suc (length cs)) _ refl (omega arith)
      ∙ ap (λ (s : Sw). run n (p + suc (length cs)) (local r s)) (path_state_cons before c cs)

  -- From the space behind the path on: "HTTP/" with the version's digits and the CR.
  abbrev pub after_version : (major minor : ℕ) → Ptr → Request → Request
  after_version major minor p r = record r {
    http_protocol_data = p;
    http_major = major - b'0';
    http_minor = minor - b'0';
  }

  pub read_version :
      (n : ℕ) (p : Ptr) (major minor : ℕ) (r : Request)
      → b'1' ≤ major
      → major ≤ b'9'
      → IsDigit minor
      → At mem p (b'H' ∷ b'T' ∷ b'T' ∷ b'P' ∷ b'/' ∷ major ∷ b'.' ∷ minor ∷ [])
      → run (8 + n) p (local r check_uri_http_09)
        ≡ run n (p + 8) (local (after_version major minor p r) minor_digit)
  unfolding round switch
  read_version n p major minor r low high d (c0, (c1, (c2, (c3, (c4, (c5, (c6, (c7, _)))))))) =
      let l : Sw → Local = local (record r { http_protocol_data = p }) in
      let r1 = record r { http_protocol_data = p; http_major = major - b'0' } in
      let q = p + 1 + 1 + 1 + 1 + 1 in
      scan-step (round mem) (8 + n) (7 + n) p (p + 1) (local r check_uri_http_09) (l http_h)
        (rw c0 refl) (omega arith) refl
      ∙ scan-step (round mem) (7 + n) (6 + n) (p + 1) (p + 1 + 1) (l http_h) (l http_ht)
          (rw c1 refl) (omega arith) refl
      ∙ scan-step (round mem) (6 + n) (5 + n) (p + 1 + 1) (p + 1 + 1 + 1) (l http_ht) (l http_htt)
          (rw c2 refl) (omega arith) refl
      ∙ scan-step (round mem) (5 + n) (4 + n) (p + 1 + 1 + 1) (p + 1 + 1 + 1 + 1) (l http_htt)
          (l http_http) (rw c3 refl) (omega arith) refl
      ∙ scan-step (round mem) (4 + n) (3 + n) (p + 1 + 1 + 1 + 1) q (l http_http)
          (l first_major_digit) (rw c4 refl) (omega arith) refl
      ∙ scan-step (round mem) (3 + n) (2 + n) q (q + 1) _ _
          (round_major mem q major (record r { http_protocol_data = p }) c5 low high) (omega arith)
          refl
      ∙ scan-step (round mem) (2 + n) (1 + n) (q + 1) (q + 1 + 1) (local r1 major_digit)
          (local r1 first_minor_digit) (rw c6 refl) (omega arith) refl
      ∙ scan-step (round mem) (1 + n) n (q + 1 + 1) (p + 8) _ _
          (round_minor mem (q + 1 + 1) minor r1 c7 d) (omega arith) (omega arith)
