-- ===== src/Http/Sample.antt =====
-- A request with two fields, and where its elements and pieces come from, for the tests.
use leactor.Prelude.{ℕ, ◌+◌, arith, false, List, [], ◌∷◌, ok, leb, ◌&&◌, if◌then◌else◌, refl}
use leactor.Request.Sample.{text, blank}
use leactor.Parse.HeaderLine.{lowcase, ngx_hash}
use leactor.Parse.HeaderLine.Rounds.{name_hash}
use leactor.Buffers.{Allocator}
use leactor.Http.{Str, Parts}
use leactor.Http.Hash.{bkdr_hash}
use leactor.Http.Construct.{Build}
use leactor.Http.Headers.{State}
use leactor.Http.Headers.Text.{Field}
use leactor.Http.Headers.Whole.{AllPlain}

-- "Ab: c" and "De: fg" with CR LF, and a blank line.
abbrev pub header : List ℕ
header =
    b'A' ∷ b'b' ∷ b':' ∷ b' ' ∷ b'c' ∷ 13 ∷ 10 ∷ b'D' ∷ b'e' ∷ b':' ∷ b' ' ∷ b'f' ∷ b'g' ∷ 13 ∷ 10
    ∷ 13 ∷ 10 ∷ []

abbrev pub fields : List Field
fields =
    record { first = b'A'; name = b'b' ∷ []; value_first = b'c'; value = [] }
    ∷ record { first = b'D'; name = b'e' ∷ []; value_first = b'f'; value = b'g' ∷ [] }
    ∷ []

pub fields-AllPlain : AllPlain fields
unfolding lowcase name_hash ngx_hash bkdr_hash
fields-AllPlain = (
  record {
    name_bytes = (refl, (refl, tt));
    value_bytes = (omega arith, tt);
    no_space = omega arith;
    no_trailing = omega arith;
    no_host = λ e. omega arith;
  },
  (
    record {
      name_bytes = (refl, (refl, tt));
      value_bytes = (omega arith, (omega arith, tt));
      no_space = omega arith;
      no_trailing = omega arith;
      no_host = λ e. omega arith;
    },
    tt,
  ),
)

-- Elements of 88 bytes, one behind the other.
instance abbrev pub counter : Allocator ℕ
counter = record { alloc = λ n. ok (n + 88, n) }

abbrev pub no_string : Str
no_string = record { start = 0; length = 0 }

abbrev pub begun : State ℕ
begun = record {
  mem = text header;
  r = blank;
  b = record { pos = 100; last = 117 };
  request_length = 18;
  manager = 5000;
  elements = λ p. record {
    hash = 0;
    length = 0;
    key = no_string;
    value = no_string;
    lowcase_key = no_string;
    next = 7;
  };
  head = 9;
  tail = 9;
}

-- tolower of the C locale
abbrev pub tolower : ℕ → ℕ
tolower c = if leb b'A' c && leb c b'Z' then c + 32 else c

-- The parts before the call.
abbrev pub no_parts : Parts
no_parts = record {
  request_line = no_string;
  request_length = 0;
  method_name = no_string;
  http_protocol_length = 0;
  uri = no_string;
  unparsed_uri = no_string;
  valid_unparsed_uri = false;
}

-- No chains yet, with pieces of 88 bytes to come from 6000 on.
abbrev pub unbuilt : Build ℕ
unbuilt = record {
  manager = 6000;
  chains = λ p. record { iov_base = 0; iov_len = 0; next = 7; chain_len = 0 };
}
