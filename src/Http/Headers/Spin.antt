-- ===== src/Http/Headers/Spin.antt =====
-- http_process_request_headers on a header that has not arrived whole.
use leactor.Prelude.{ℕ, zero, suc, ◌≤◌, ◌≡◌, refl, sym, ap, ◌∙◌, Ptr, true, null, some, out_of_fuel}
use leactor.Request.{Buffer}
use leactor.Parse.{lagain}
use leactor.Parse.HeaderLine.{Parsed, parse_header_line}
use leactor.Parse.HeaderLine.Waits.{waits, lagain-end}
use leactor.Buffers.{Allocator}
use leactor.Http.Headers.{State, loop, process_request_headers}

module _ {S : Type 0} ⦃a : Allocator S⦄ (tolower : ℕ → ℕ) where
  spin :
      (fuel : ℕ) (s : State S) (prev : Ptr)
      → s.b.pos ≡ s.b.last
      → loop tolower fuel s prev ≡ out_of_fuel
  unfolding loop
  spin zero s prev e = refl
  spin (suc fuel) s prev e =
      let (p, parsed, again, same) = waits true s.mem s.r s.b e in
      rw (parsed, again)
        (spin fuel (record s { r = p.r; b = p.b }) prev
          (ap (λ (b : Buffer). b.pos) same ∙ e ∙ ap (λ (b : Buffer). b.last) (sym same)))

  -- If the parser asks for more bytes, its call on the buffer of the request answering LAGAIN,
  -- http_process_request_headers does not return: no number of rounds is enough.
  pub process_request_headers-out_of_fuel :
      (s : State S) (p : Parsed)
      → s.b.pos ≤ s.b.last
      → parse_header_line s.mem s.r s.b true ≡ some p
      → p.code ≡ lagain
      → (fuel : ℕ) → process_request_headers tolower fuel s ≡ out_of_fuel
  unfolding process_request_headers loop
  process_request_headers-out_of_fuel s p inside parsed again zero = refl
  process_request_headers-out_of_fuel s p inside parsed again (suc fuel) =
      rw (parsed, again)
        (spin fuel (record s { r = p.r; b = p.b; head = null; tail = null }) null
          (lagain-end true s.mem s.r s.b inside p parsed again))
