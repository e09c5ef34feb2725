-- ===== src/Http/Headers.antt =====
-- http_process_request_headers, http_process_element and lowcase_key_copy_from_origin of http.c. The header
-- elements are known by their addresses, apart from the bytes of the request. The value's bytes that
-- http_process_host reads and writes are those of its `int` length.
pub mod Memory
pub mod Text
mod Round
mod Field
pub mod Whole
pub mod Spin
use leactor.Prelude.{
  ℕ, zero, suc, ◌+◌, ◌^◌, ℤ, pos, negsuc, Ptr, null, Bool, true, false, ◌==◌, if◌then◌else◌, ltb,
  List, Option, none, some, update, Run, ok, undefined, out_of_fuel, ◌>>=◌,
}
use leactor.Request.{Bytes, int32, Buffer, Request}
use leactor.Parse.{lok, parse_header_done}
use leactor.Parse.HeaderLine.{Parsed, parse_header_line}
use leactor.Host.{lowcase_key_copy, process_host}
use leactor.Buffers.{Allocator}
use leactor.Buffers.Chain.{slice, write}
use leactor.Http.{Str, Element, diff}
use leactor.Http.Hash.{host_hash}

-- The bytes, the request with its buffer and the fields that the parsers do not use, the pool, and the elements.
pub record State (S : Type 0) : Type 0 where
  pub mem : Bytes
  pub r : Request
  pub b : Buffer
  pub request_length : ℕ
  pub manager : S
  pub elements : Ptr → Element
  pub head : Ptr
  pub tail : Ptr

abbrev pub same_code : ℤ → ℤ → Bool
same_code (pos m) (pos n) = m == n
same_code (pos m) (negsuc n) = false
same_code (negsuc m) (pos n) = false
same_code (negsuc m) (negsuc n) = m == n

-- How often a loop from 0 to an `int` runs.
abbrev pub rounds_of : ℕ → ℕ
rounds_of n = if ltb n (2 ^ 31) then n else 0

-- The bytes of a string.
abbrev pub text_of : Bytes → Str → List ℕ
text_of mem s = slice mem s.start (rounds_of s.length)

-- lowcase_key_copy_from_origin: `low` shares the bytes of `origin`, which become lower case in place.
abbrev pub lower : (tolower : ℕ → ℕ) → Bytes → Str → Bytes
lower tolower mem origin = write mem origin.start (lowcase_key_copy tolower (text_of mem origin))

-- The assignments to an element from the line that is parsed.
abbrev pub described : Request → Element → Element
described r e = record e {
  hash = r.header_hash;
  key = record { start = r.header_name_start; length = diff r.header_name_end r.header_name_start };
  value = record { start = r.header_start; length = diff r.header_end r.header_start };
  lowcase_key = record {
    start = r.header_name_start;
    length = diff r.header_name_end r.header_name_start;
  };
}

-- The codes of the loop's rounds.
abbrev pub Rounds : Type 0 → Type 0
Rounds S = State S → (prev : Ptr) → Run (State S)

module _ {S : Type 0} (tolower : ℕ → ℕ) where
  -- The new element at the end of the list; the `next` of the first is not set.
  abbrev pub link : State S → (prev element : Ptr) → State S
  link s prev element =
      let linked = update s.elements prev (record (s.elements prev) { next = element }) in
      if s.head == null then record s { head = element; tail = element } else record s {
        tail = element;
        elements = update linked element (record (linked element) { next = null });
      }

  -- http_process_host on the element's value; its code does not matter.
  abbrev pub with_host : State S → (element : Ptr) → Option (ℕ × List ℕ) → State S
  with_host s element none = s
  with_host s element (some (n, bytes)) =
      let e = s.elements element in
      record s {
        mem = write s.mem e.value.start bytes;
        elements = update s.elements element (record e { value = record (e.value) { length = n } });
      }

  -- http_process_element
  abbrev pub process_element : State S → (element : Ptr) → State S
  process_element s element =
      let e = record (s.elements element) { length = s.r.header_length } in
      let t : State S = record s { elements = update s.elements element e } in
      if e.hash == host_hash
      then with_host t element (process_host tolower (text_of t.mem e.value))
      else t

  -- The element for the line that is parsed, at an address that is not NULL.
  abbrev pub fill : State S → (prev element : Ptr) → State S
  fill s prev element =
      let t = link s prev element in
      let e = described t.r (t.elements element) in
      process_element
        (record t { elements = update t.elements element e; mem = lower tolower t.mem e.key })
        element

module _ {S : Type 0} ⦃a : Allocator S⦄ (tolower : ℕ → ℕ) where
  abbrev pub take_field : State S → (prev : Ptr) → Run (State S × Ptr)
  take_field s prev = a.alloc s.manager >>= λ (m, element).
      if element == null
      then undefined
      else ok (fill tolower (record s { manager = m }) prev element, element)

  -- What follows a call of ngx_http_parse_header_line.
  abbrev pub turn : Rounds S → State S → (prev : Ptr) → Option Parsed → Run (State S)
  turn rounds s prev none = undefined
  turn rounds s prev (some p) =
      let t : State S = record s { r = p.r; b = p.b } in
      let counted : State S = record t {
        request_length = int32 (s.request_length + diff p.b.pos p.r.header_name_start);
      } in
      let taken = take_field counted prev >>= λ (u, element). rounds u element in
      let skipped = rounds counted prev in
      let again = rounds t prev in
      if same_code p.code lok
      then (if p.r.invalid_header then skipped else taken)
      else if same_code p.code parse_header_done
      then ok t
      else again

  -- The loop, on `fuel` rounds.
  unfoldable pub loop : (fuel : ℕ) → Rounds S
  loop zero s prev = out_of_fuel
  loop (suc fuel) s prev = turn (loop fuel) s prev (parse_header_line s.mem s.r s.b true)

  -- http_process_request_headers, on `fuel` rounds of its loop; it returns LOK or does not return.
  unfoldable pub process_request_headers : (fuel : ℕ) → State S → Run (State S)
  unfolding loop
  process_request_headers fuel s = loop fuel (record s { head = null; tail = null }) null
