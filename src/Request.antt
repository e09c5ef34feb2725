-- ===== src/Request.antt =====
-- The parts of `struct request` and `struct status` of http.h that the parsers write, and the byte
-- buffer that they read. A `char *` is an address and `null` is NULL; the bytes in memory are a function
-- of the address. An `int` that only counts up from 0 is a number below 2 ^ 32, its bit pattern.
pub mod Sample
use leactor.Prelude.{ℕ, ◌%◌, ◌^◌, Ptr, Bool}

-- The bytes in memory, each below 256.
abbrev pub Bytes : Type 0
Bytes = Ptr → ℕ

abbrev pub int32 : ℕ → ℕ
int32 n = n % 2 ^ 32

-- The fields of lt_buffer_t that the parsers use.
pub record Buffer : Type 0 where
  pub pos : Ptr
  pub last : Ptr

pub record Status : Type 0 where
  pub http_version : ℕ
  pub code : ℕ
  pub count : ℕ
  pub start : Ptr
  pub end : Ptr

pub record Request : Type 0 where
  pub state : ℕ
  pub method_end : Ptr
  pub method : ℕ
  pub http_protocol_data : Ptr
  pub http_protocol_end : Ptr
  pub uri_start : Ptr
  pub uri_end : Ptr
  pub uri_ext : Ptr
  pub port_end : Ptr
  pub host_start : Ptr
  pub host_end : Ptr
  pub args_start : Ptr
  pub schema_start : Ptr
  pub schema_end : Ptr
  pub http_version : ℕ
  pub complex_uri : Bool
  pub quoted_uri : Bool
  pub plus_in_uri : Bool
  pub space_in_uri : Bool
  pub request_start : Ptr
  pub request_end : Ptr
  pub header_start : Ptr
  pub header_end : Ptr
  pub header_name_start : Ptr
  pub header_name_end : Ptr
  pub header_hash : ℕ
  pub header_length : ℕ
  pub lowcase_index : ℕ
  pub invalid_header : Bool
  pub http_major : ℕ
  pub http_minor : ℕ
  pub lowcase_header : ℕ → ℕ
  pub upstream : Ptr
