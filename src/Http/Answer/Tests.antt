-- ===== src/Http/Answer/Tests.antt =====
-- A whole response, with fields and without, at a concrete text.
use leactor.Prelude.{◌++◌, ℕ, ◌≡◌, refl, arith, List, [], ◌∷◌, ok, undefined, some}
use leactor.Request.{Status}
use leactor.Request.Sample.{text, text-At}
use leactor.Parse.StatusLine.Line.{line_end}
use leactor.Chains.{gather}
use leactor.Http.Headers.{State}
use leactor.Http.Headers.Text.{header_bytes, all_lowered}
use leactor.Http.Forward.Pieces.{vector_text}
use leactor.Http.Answer.{Answered, response_chain}
use leactor.Http.Answer.Whole.{status_line, response_chain-forwards, response_chain-undefined}
use leactor.Http.Sample.{header, fields, fields-AllPlain, counter, begun, tolower, unbuilt}

-- "OK"
abbrev ok_text : List ℕ
ok_text = b'O' ∷ b'K' ∷ []

-- "HTTP/1.1 200 OK" with CR LF.
abbrev first_line : List ℕ
first_line = status_line b'1' b'1' b'2' b'0' b'0' ok_text

abbrev no_status : Status
no_status = record { http_version = 0; code = 0; count = 0; start = 0; end = 0 }

abbrev whole_response : State ℕ
whole_response = record begun {
  mem = text (first_line ++ header);
  b = record { pos = 100; last = 134 };
}

response_chain-forwards_example :
    (d : Answered ℕ) × (response_chain tolower 2 whole_response no_status unbuilt ≡ ok (some d))
    × (d.status.code ≡ 200)
    × (d.out_chain ≡ 6000)
    × (vec : List (ℕ × ℕ)) × (end : ℕ) × (gather (d.built.chains 6000).chain_len d.built.chains 6000
        ≡ ok (vec, end))
    × (vector_text d.response.mem vec ≡ first_line ++ header_bytes (all_lowered tolower fields))
response_chain-forwards_example =
    response_chain-forwards tolower whole_response no_status unbuilt b'1' b'1' b'2' b'0' b'0'
      ok_text (record { first = b'A'; name = b'b' ∷ []; value_first = b'c'; value = [] })
      (record { first = b'D'; name = b'e' ∷ []; value_first = b'f'; value = b'g' ∷ [] } ∷ []) 5000
      (5088 ∷ []) 6000 6088 (6176 ∷ 6264 ∷ 6352 ∷ []) refl refl refl (omega arith) (omega arith)
      (omega arith) (omega arith) (omega arith) (omega arith) (omega arith, (omega arith, tt))
      fields-AllPlain (text-At (first_line ++ header)) (omega arith) (omega arith) (omega arith)
      (omega arith) (5088, refl, omega arith, (5176, refl, omega arith, tt))
      ((omega arith, tt), (tt, tt)) refl
      (
        6088,
        refl,
        omega arith,
        (
          6176,
          refl,
          omega arith,
          (6264, refl, omega arith, (6352, refl, omega arith, (6440, refl, omega arith, tt))),
        ),
      )
      (
        (omega arith, (omega arith, (omega arith, (omega arith, tt)))),
        (
          (omega arith, (omega arith, (omega arith, tt))),
          ((omega arith, (omega arith, tt)), ((omega arith, tt), (tt, tt))),
        ),
      )
      refl

abbrev bare_response : State ℕ
bare_response = record begun {
  mem = text (first_line ++ line_end);
  b = record { pos = 100; last = 119 };
}

response_chain-undefined_example :
    response_chain tolower 4 bare_response no_status unbuilt ≡ undefined
response_chain-undefined_example =
    response_chain-undefined tolower bare_response no_status unbuilt b'1' b'1' b'2' b'0' b'0'
      ok_text 6000 6088 [] refl refl refl (omega arith) (omega arith) (omega arith) (omega arith)
      (omega arith) (omega arith) (omega arith, (omega arith, tt))
      (text-At (first_line ++ line_end)) (omega arith)
      (6088, refl, omega arith, (6176, refl, omega arith, tt)) 3
