-- ===== src/Http/Tests.antt =====
-- Runs of the request handling, and the theorems at concrete texts.
use leactor.Prelude.{ℕ, ◌+◌, ◌≡◌, refl, arith, true, [], ◌∷◌, ok, out_of_fuel, some, update, ◌*◌}
use leactor.Request.Sample.{blank}
use leactor.Parse.{lok, lagain, scan}
use leactor.Parse.HeaderLine.{lowcase, ngx_hash, encode, decode}
use leactor.Parse.HeaderLine
use leactor.Parse.HeaderLine.Rounds.{name_hash}
use leactor.Parse.RequestLine
use leactor.Parse.RequestLine.Line.{IsRequestLine}
use leactor.Http.Hash.{bkdr_hash}
use leactor.Http.Headers.{State, process_request_headers}
use leactor.Http.Headers.Whole.{IsHeader, process_request_headers-IsHeader}
use leactor.Http.Headers.Spin.{process_request_headers-out_of_fuel}
use leactor.Http.Sample.{fields, fields-AllPlain, counter, begun, tolower}

process_request_headers-IsHeader_example :
    (t : State ℕ) × (process_request_headers tolower 3 begun ≡ ok t)
    × IsHeader tolower begun fields (5000 ∷ 5088 ∷ []) t
unfolding lowcase name_hash ngx_hash bkdr_hash
process_request_headers-IsHeader_example =
    process_request_headers-IsHeader tolower begun fields (5000 ∷ 5088 ∷ []) refl fields-AllPlain
      (
        refl,
        (
          refl,
          (
            refl,
            (
              refl,
              (
                refl,
                (
                  refl,
                  (
                    refl,
                    (
                      refl,
                      (refl, (refl, (refl, (refl, (refl, (refl, (refl, (refl, (refl, tt))))))))),
                    ),
                  ),
                ),
              ),
            ),
          ),
        ),
      )
      (omega arith) (omega arith) (omega arith) (omega arith)
      (5088, refl, omega arith, (5176, refl, omega arith, tt)) ((omega arith, tt), (tt, tt)) refl

-- The first two bytes of the same header.
abbrev cut : State ℕ
cut = record begun { b = record { pos = 100; last = 102 } }

-- What the parser leaves after these two bytes.
abbrev after_two : HeaderLine.Parsed
after_two = record {
  code = lagain;
  r = record blank {
    state = 1;
    header_name_start = 100;
    lowcase_header = update (update (λ i. 0) 0 b'a') 1 b'b';
    header_hash = 97 * 31 + 98;
    lowcase_index = 2;
  };
  b = record { pos = 102; last = 102 };
}

cut_run : HeaderLine.parse_header_line cut.mem cut.r cut.b true ≡ some after_two
unfolding HeaderLine.parse_header_line scan decode lowcase encode ngx_hash
cut_run = refl

process_request_headers-out_of_fuel_example : process_request_headers tolower 1000 cut ≡ out_of_fuel
process_request_headers-out_of_fuel_example =
    process_request_headers-out_of_fuel tolower cut after_two (omega arith) cut_run refl 1000

-- The request after "GET /ab HTTP/1.1" at 100.
abbrev parsed : RequestLine.Parsed
parsed = record {
  code = lok;
  r = record blank {
    method = 2;
    request_start = 100;
    method_end = 102;
    uri_start = 104;
    uri_end = 107;
    http_protocol_data = 108;
    http_version = 1001;
    request_end = 116;
  };
  b = record { pos = 118; last = 118 };
}

parsed-IsRequestLine : IsRequestLine 100 118 3 2 2 1001 blank parsed
parsed-IsRequestLine = record {
  code = refl;
  method_found = refl;
  method_start = refl;
  method_end = refl;
  uri_start = refl;
  uri_end = refl;
  http_version = refl;
  request_end = refl;
  ready = refl;
  protocol = refl;
  complex_same = refl;
  quoted_same = refl;
  limit = refl;
  position = refl;
}
