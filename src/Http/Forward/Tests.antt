-- ===== src/Http/Forward/Tests.antt =====
-- The chain of a request, and a whole request, at a concrete text.
use leactor.Prelude.{
  ◌++◌, ℕ, ◌≡◌, refl, arith, true, List, [], ◌∷◌, ok, some, ◌==◌, if◌then◌else◌, Distinct,
}
use leactor.Request.Sample.{text, text-At}
use leactor.Parse.HeaderLine.Rounds.{name_hash}
use leactor.Chains.{gather}
use leactor.Http.Headers.Whole.{Listed}
use leactor.Http.Construct.{Build, construct_request_chains}
use leactor.Http.Construct.Request.{request_pieces, construct_request_chains-gathers}
use leactor.Http.{Str, Parts, Element}
use leactor.Http.Line.{IsDivided}
use leactor.Http.Headers.{State}
use leactor.Parse.RequestLine.States.{usual}
use leactor.Buffers.Chain.{Supplies}
use leactor.Http.Headers.Text.{header_bytes, all_lowered}
use leactor.Http.Forward.{Forwarded, request_chain}
use leactor.Http.Forward.Pieces.{vector_text}
use leactor.Http.Forward.Whole.{request_text, request_chain-forwards}
use leactor.Http.Sample.{
  header, fields, fields-AllPlain, counter, begun, tolower, no_parts, unbuilt,
}

-- The elements for the two fields, where their text begins at 118.
abbrev element_at : ℕ → Element
element_at p =
    if p == 5000
    then record {
      hash = name_hash 0 (b'A' ∷ b'b' ∷ []);
      length = 5;
      key = record { start = 118; length = 2 };
      value = record { start = 122; length = 1 };
      lowcase_key = record { start = 118; length = 2 };
      next = 5088;
    }
    else record {
      hash = name_hash 0 (b'D' ∷ b'e' ∷ []);
      length = 6;
      key = record { start = 125; length = 2 };
      value = record { start = 129; length = 2 };
      lowcase_key = record { start = 125; length = 2 };
      next = 0;
    }

abbrev divided : Parts
divided = record {
  request_line = record { start = 100; length = 16 };
  request_length = 18;
  method_name = record { start = 100; length = 3 };
  http_protocol_length = 8;
  uri = record { start = 104; length = 3 };
  unparsed_uri = record { start = 104; length = 3 };
  valid_unparsed_uri = true;
}

divided-IsDivided : IsDivided 100 3 2 divided
divided-IsDivided = record {
  method_name = refl;
  uri = refl;
  protocol_length = refl;
  request_line = refl;
  request_length = refl;
}

abbrev version_string : Str
version_string = record { start = 108; length = 8 }

abbrev pieces : List ℕ
pieces = 6088 ∷ 6176 ∷ 6264 ∷ 6352 ∷ 6440 ∷ 6528 ∷ []

pieces-Supplies : Supplies unbuilt.manager (6000 ∷ pieces)
pieces-Supplies = (
  6088,
  refl,
  omega arith,
  (
    6176,
    refl,
    omega arith,
    (
      6264,
      refl,
      omega arith,
      (
        6352,
        refl,
        omega arith,
        (6440, refl, omega arith, (6528, refl, omega arith, (6616, refl, omega arith, tt))),
      ),
    ),
  ),
)

pieces-Distinct : Distinct (6000 ∷ pieces)
pieces-Distinct = (
  (omega arith, (omega arith, (omega arith, (omega arith, (omega arith, (omega arith, tt)))))),
  (
    (omega arith, (omega arith, (omega arith, (omega arith, (omega arith, tt))))),
    (
      (omega arith, (omega arith, (omega arith, (omega arith, tt)))),
      (
        (omega arith, (omega arith, (omega arith, tt))),
        ((omega arith, (omega arith, tt)), ((omega arith, tt), (tt, tt))),
      ),
    ),
  ),
)

elements-Listed : Listed element_at 118 fields (5000 ∷ 5088 ∷ [])
elements-Listed = (
  record { hashed = refl; key = refl; value = refl; lowcase_key = refl },
  refl,
  (record { hashed = refl; key = refl; value = refl; lowcase_key = refl }, tt, tt),
)

construct_request_chains-gathers_example :
    (w : Build ℕ) × (construct_request_chains 2 divided version_string element_at 5000 5088 unbuilt
      ≡ ok (w, 6000))
    × ((w.chains 6000).chain_len ≡ 7)
    × (end : ℕ) × (gather 7 w.chains 6000 ≡ ok (request_pieces 100 3 2 fields, end))
construct_request_chains-gathers_example =
    construct_request_chains-gathers element_at divided version_string 100 3 2 fields
      (5000 ∷ 5088 ∷ []) pieces 6000 unbuilt divided-IsDivided refl elements-Listed refl
      (omega arith, (omega arith, tt)) ((omega arith, tt), (tt, tt)) pieces-Supplies pieces-Distinct
      refl (omega arith) (omega arith)

-- "GET /ab HTTP/1.1" and the header, and the request before.
abbrev whole_request : State ℕ
whole_request = record begun {
  mem = text (
      b'G' ∷ b'E' ∷ b'T' ∷ b' ' ∷ b'/' ∷ b'a' ∷ b'b' ∷ b' ' ∷ b'H' ∷ b'T' ∷ b'T' ∷ b'P' ∷ b'/'
      ∷ b'1' ∷ b'.' ∷ b'1' ∷ 13 ∷ 10 ∷ header);
  b = record { pos = 100; last = 135 };
}

abbrev get : List ℕ
get = b'G' ∷ b'E' ∷ b'T' ∷ []

abbrev path_text : List ℕ
path_text = b'a' ∷ b'b' ∷ []

request_chain-forwards_example :
    (d : Forwarded ℕ) × (request_chain tolower 2 whole_request no_parts unbuilt ≡ ok (some d))
    × (d.send_chain ≡ 6000)
    × (vec : List (ℕ × ℕ)) × (end : ℕ) × (gather (d.built.chains 6000).chain_len d.built.chains 6000
        ≡ ok (vec, end))
    × (vector_text d.request.mem vec
        ≡ request_text get path_text b'1' b'1' ++ header_bytes (all_lowered tolower fields))
unfolding usual
request_chain-forwards_example =
    request_chain-forwards tolower whole_request no_parts unbuilt b'G' (b'E' ∷ b'T' ∷ []) path_text
      b'1' b'1' (record { first = b'A'; name = b'b' ∷ []; value_first = b'c'; value = [] })
      (record { first = b'D'; name = b'e' ∷ []; value_first = b'f'; value = b'g' ∷ [] } ∷ []) 5000
      (5088 ∷ []) 6000 pieces refl refl refl (omega arith) (refl, (refl, tt)) (omega arith)
      (omega arith) (omega arith) fields-AllPlain
      (text-At (request_text get path_text b'1' b'1' ++ header)) (omega arith) (omega arith)
      (omega arith) (5088, refl, omega arith, (5176, refl, omega arith, tt))
      ((omega arith, tt), (tt, tt)) refl pieces-Supplies pieces-Distinct refl
