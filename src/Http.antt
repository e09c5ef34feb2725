-- ===== src/Http.antt =====
-- http.c: what is made of a request once its lines are parsed. A string is an address and a length; lengths
-- are the bit patterns of `int`, and so are the differences of addresses that they come from.
pub mod Hash
pub mod Line
pub mod Headers
pub mod Construct
pub mod Forward
pub mod Answer
pub mod Free
pub mod Sample
mod Tests
use leactor.Prelude.{ℕ, ◌+◌, ◌-◌, ◌^◌, Ptr, Bool, ◌||◌, ◌==◌, if◌then◌else◌, ltb}
use leactor.Request.{int32, Request}

-- struct string, less its unused hash.
pub record Str : Type 0 where
  pub start : Ptr
  pub length : ℕ

-- The difference of two addresses, as an `int`.
unfoldable pub diff : Ptr → Ptr → ℕ
diff a b = int32 (a + 2 ^ 64 - b)

-- An `int` converted to size_t.
unfoldable pub size_of_int : ℕ → ℕ
size_of_int n = if ltb n (2 ^ 31) then n else n + 2 ^ 64 - 2 ^ 32

-- The fields of request_t that stand for the parts of the request line.
pub record Parts : Type 0 where
  pub request_line : Str
  pub request_length : ℕ
  pub method_name : Str
  pub http_protocol_length : ℕ
  pub uri : Str
  pub unparsed_uri : Str
  pub valid_unparsed_uri : Bool

-- struct http_header_element
pub record Element : Type 0 where
  pub hash : ℕ
  pub length : ℕ
  pub key : Str
  pub value : Str
  pub lowcase_key : Str
  pub next : Ptr
