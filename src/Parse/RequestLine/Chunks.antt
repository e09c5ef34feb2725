-- ===== src/Parse/RequestLine/Chunks.antt =====
-- A request line that comes in two pieces: what the parser keeps in the request between the calls is
-- enough.
use leactor.Prelude.{ℕ, ◌-◌, ◌≤◌, ◌≡◌, ◌≢◌, refl, subst, ap, ◌⊎◌, Ptr, arith, Option, none, some, ℤ}
use leactor.Request.{Bytes, Buffer, Request}
use leactor.Parse.{
  Next, go, leave, done, header_done, undefined, Scanned, at_end, stopped, scan,
  parse_invalid_method, parse_invalid_request, lagain,
}
use leactor.Parse.Scan.{touch_next, touch_scanned, scan-touch}
use leactor.Parse.Resume.{whole-stopped, whole-at_end, scan-StopHolds}
use leactor.Parse.RequestLine.{round, Parsed, conclude, begin, finish, parse_request_line}
use leactor.Parse.RequestLine.States.{Sw, unlisted, encode, decode, Local}
use leactor.Parse.RequestLine.Switch.{switch}

abbrev save : ℕ → Request → Request
save state r = record r { state = state }

abbrev touch : ℕ → Local → Local
touch state l = record l { r = save state l.r }

-- No round reads the saved state.
round-touch :
    (mem : Bytes) (n : ℕ) (s : Sw) (p : Ptr) (l : Local)
    → switch s mem p (mem p) (touch n l)
      ≡ touch_next (round mem) (touch n) (switch s mem p (mem p) l)
unfolding switch
round-touch mem n s p l = ground arith

-- The codes that a round may return.
abbrev pub IsRefusal : ℤ → Type 0
IsRefusal code = (code ≡ parse_invalid_method) ⊎ (code ≡ parse_invalid_request)

-- A round that stops does so with such a code, by the jump to `done`, or by an undefined access.
abbrev IsStop : Next Local → Type 0
IsStop (leave code l) = IsRefusal code
IsStop (go l) = Unit
IsStop (done l) = Unit
IsStop (header_done l) = ⊥
IsStop undefined = Unit

round-IsStop : (mem : Bytes) (s : Sw) (p : Ptr) (l : Local) → IsStop (switch s mem p (mem p) l)
unfolding switch
round-IsStop mem s p l = ground arith

decode-encode : (s : Sw) → decode (encode s) ≡ s
unfolding encode decode
decode-encode (unlisted n) = ground arith
decode-encode s = refl

abbrev pub buffer : Ptr → Ptr → Buffer
buffer pos last = record { pos = pos; last = last }

-- Two outcomes of a call that the caller cannot tell apart: the same code and the same request but
-- for its state; without one of the two codes of an error, the same state and position too.
abbrev pub Agree : Option Parsed → Option Parsed → Type 0
Agree none none = Unit
Agree none (some q) = ⊥
Agree (some p) none = ⊥
Agree (some p) (some q) =
    (p.code ≡ q.code) × (save 0 p.r ≡ save 0 q.r) × (¬ IsRefusal p.code → p ≡ q)

module _ (mem : Bytes) where
  conclude-touch :
      (n pos pos' last : ℕ) (s : Scanned Local)
      → ((q : Ptr) (x : Next Local) → s ≡ stopped q x → IsStop x)
      → Agree
          (conclude (buffer pos last) s)
          (conclude (buffer pos' last) (touch_scanned (round mem) (touch n) s))
  unfolding conclude finish
  conclude-touch n pos pos' last (at_end p l) stops = (refl, refl, λ e. refl)
  conclude-touch n pos pos' last (stopped p (go l)) stops = tt
  conclude-touch n pos pos' last (stopped p (leave code l)) stops =
      (refl, refl, λ ne. absurd (ne (stops p (leave code l) refl)))
  conclude-touch n pos pos' last (stopped p (done l)) stops = (refl, refl, λ e. refl)
  conclude-touch n pos pos' last (stopped p (header_done l)) stops =
      absurd (stops p (header_done l) refl)
  conclude-touch n pos pos' last (stopped p undefined) stops = tt

module _ (mem : Bytes) (r : Request) (pos mid last : ℕ) (low : pos ≤ mid) (high : mid ≤ last) where
  -- What a second call sees after a first one that reached the end of its buffer.
  again :
      (l : Local)
      → Agree
          (conclude (buffer pos last) (scan (round mem) (last - mid) mid l))
          (parse_request_line mem (save (encode l.state) l.r) (buffer mid last))
  unfolding parse_request_line
  again l =
      let t = touch (encode l.state) in
      let same : begin (save (encode l.state) l.r) ≡ t l =
        ap (λ (s : Sw). record (t l) { state = s }) (decode-encode l.state) in
      let moved =
        scan-touch (round mem) t (λ p m. round-touch mem (encode l.state) m.state p m) (last - mid)
          mid l in
      rw (same, moved)
        (conclude-touch mem (encode l.state) pos mid last (scan (round mem) (last - mid) mid l) (
          scan-StopHolds (round mem) IsStop (λ p m. round-IsStop mem m.state p m) (last - mid) mid
            l))

  -- What is claimed of the outcome of the call on the shorter buffer.
  abbrev Continues : Option Parsed → Type 0
  Continues none = Unit
  Continues (some p) =
      (p.code ≡ lagain
        → Agree (parse_request_line mem r (buffer pos last))
            (parse_request_line mem p.r (buffer p.b.pos last)))
      × (p.code ≢ lagain
          → parse_request_line mem r (buffer pos last)
            ≡ some (record p { b = buffer p.b.pos last }))

  conclude-Continues :
      (s : Scanned Local)
      → scan (round mem) (mid - pos) pos (begin r) ≡ s
      → Continues (conclude (buffer pos mid) s)
  unfolding conclude finish parse_request_line
  conclude-Continues (at_end q l) e =
      let (at, run) = whole-at_end (round mem) pos mid last low high (begin r) q l e in
      (λ _. rw (run, at) (again l), λ ne. absurd (ne refl))
  conclude-Continues (stopped q (go l)) e = tt
  conclude-Continues (stopped q (leave code l)) e =
      let is : IsRefusal code =
        scan-StopHolds (round mem) IsStop (λ p m. round-IsStop mem m.state p m) (mid - pos) pos
          (begin r) q _ e in
      (
        λ e'. absurd (ground arith),
        λ _.
            ap (conclude (buffer pos last))
              (whole-stopped (round mem) pos mid last low high (begin r) q _ e),
      )
  conclude-Continues (stopped q (done l)) e = (
    λ e'. absurd (ground arith),
    λ _.
        ap (conclude (buffer pos last))
          (whole-stopped (round mem) pos mid last low high (begin r) q _ e),
  )
  conclude-Continues (stopped q (header_done l)) e = tt
  conclude-Continues (stopped q undefined) e = tt

  -- A buffer that ends anywhere inside the request line: if ngx_http_parse_request_line answers LAGAIN on
  -- it, the call on the longer buffer and a second call, with the request and from the position
  -- that the first one left, have the same outcome. If it answers anything else, the
  -- longer buffer makes no difference.
  pub parse_request_line-chunks :
      (p : Parsed)
      → parse_request_line mem r (buffer pos mid) ≡ some p
      → (p.code ≡ lagain
          → Agree
              (parse_request_line mem r (buffer pos last))
              (parse_request_line mem p.r (buffer p.b.pos last)))
        × (p.code ≢ lagain
            → parse_request_line mem r (buffer pos last)
              ≡ some (record p { b = buffer p.b.pos last }))
  unfolding parse_request_line
  parse_request_line-chunks p e =
      subst Continues e (conclude-Continues (scan (round mem) (mid - pos) pos (begin r)) refl)
