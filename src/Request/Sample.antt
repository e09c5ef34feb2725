-- ===== src/Request/Sample.antt =====
-- A text in memory and an empty request, for the tests.
use leactor.Prelude.{
  ℕ, suc, ◌+◌, ◌≡◌, refl, ap, ◌∙◌, arith, [], ◌∷◌, ◌-◌, false, List, Option, none, some, get_elem?,
  ltb, if◌then◌else◌,
}
use leactor.Parse.Text.{At}
use leactor.Request.{Bytes, Request}

-- The bytes `xs` at 100, and zeros elsewhere.
abbrev or_zero : Option ℕ → ℕ
or_zero none = 0
or_zero (some c) = c

abbrev pub text : List ℕ → Bytes
text xs p = if ltb p 100 then 0 else or_zero (get_elem? xs (p - 100))

abbrev pub blank : Request
blank = record {
  state = 0;
  method_end = 0;
  method = 0;
  http_protocol_data = 0;
  http_protocol_end = 0;
  uri_start = 0;
  uri_end = 0;
  uri_ext = 0;
  port_end = 0;
  host_start = 0;
  host_end = 0;
  args_start = 0;
  schema_start = 0;
  schema_end = 0;
  http_version = 0;
  complex_uri = false;
  quoted_uri = false;
  plus_in_uri = false;
  space_in_uri = false;
  request_start = 0;
  request_end = 0;
  header_start = 0;
  header_end = 0;
  header_name_start = 0;
  header_name_end = 0;
  header_hash = 0;
  header_length = 0;
  lowcase_index = 0;
  invalid_header = false;
  http_major = 0;
  http_minor = 0;
  lowcase_header = λ i. 0;
  upstream = 0;
}

-- The bytes from number `k` on.
text_from :
    (xs : List ℕ) (k : ℕ) (ys : List ℕ)
    → ((i : ℕ) → get_elem? xs (k + i) ≡ get_elem? ys i)
    → At (text xs) (100 + k) ys
text_from xs k [] same = tt
text_from xs k (y ∷ ys) same =
    let below : ltb (100 + k) 100 ≡ false = ground arith in
    let here : 100 + k - 100 ≡ k + 0 = omega arith in
    let there : 100 + k + 1 ≡ 100 + (k + 1) = omega arith in
    (
      rw (below, here, same 0) refl,
      rw there (
          text_from xs (k + 1) ys (λ i.
            ap (λ (n : ℕ). get_elem? xs n) (let e : k + 1 + i ≡ k + suc i = omega arith in e)
            ∙ same (suc i))),
    )

pub text-At : (xs : List ℕ) → At (text xs) 100 xs
text-At xs = text_from xs 0 xs (λ i. ap (λ (n : ℕ). get_elem? xs n) (omega arith))
