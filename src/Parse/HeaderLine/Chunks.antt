-- ===== src/Parse/HeaderLine/Chunks.antt =====
-- A header line that comes in two pieces: what the parser keeps in the request between the calls is enough.
use leactor.Prelude.{
  ℕ, ◌-◌, ◌≤◌, ◌≡◌, ◌≢◌, refl, subst, ap, Ptr, Bool, arith, Option, none, some, ◌⊎◌,
}
use leactor.Request.{Bytes, Buffer, Request}
use leactor.Parse.{
  Next, go, leave, done, header_done, undefined, Scanned, at_end, stopped, scan, lok, lagain,
  parse_header_done, parse_invalid_header,
}
use leactor.Parse.Scan.{touch_next, touch_scanned, scan-touch}
use leactor.Parse.Resume.{whole-stopped, whole-at_end, scan-StopHolds}
use leactor.Parse.HeaderLine.{
  Sw, start, name, space_before_value, unlisted, encode, decode, Local, switch, round, Parsed,
  conclude, begin, finish, parse_header_line,
}

-- The fields of the request that carry the parser's variables over to the next call.
abbrev save : ℕ → ℕ → ℕ → Request → Request
save state hash i r = record r { state = state; header_hash = hash; lowcase_index = i }

abbrev touch : ℕ → ℕ → ℕ → Local → Local
touch state hash i l = record l { r = save state hash i l.r }

-- No round reads those fields.
round-touch :
    (allow : Bool) (mem : Bytes) (a b c : ℕ) (s : Sw) (p : Ptr) (l : Local)
    → switch s allow mem p (touch a b c l)
      ≡ touch_next (round allow mem) (touch a b c) (switch s allow mem p l)
unfolding round
round-touch allow mem a b c start p l = ground arith
round-touch allow mem a b c name p l = ground arith
round-touch allow mem a b c space_before_value p l = ground arith
round-touch allow mem a b c s p l = ground arith

-- The one code that a round returns at once.
abbrev pub LeavesInvalid : Next Local → Type 0
LeavesInvalid (leave code l) = code ≡ parse_invalid_header
LeavesInvalid (go l) = Unit
LeavesInvalid (done l) = Unit
LeavesInvalid (header_done l) = Unit
LeavesInvalid undefined = ⊥

pub round-LeavesInvalid :
    (allow : Bool) (mem : Bytes) (s : Sw) (p : Ptr) (l : Local)
    → LeavesInvalid (switch s allow mem p l)
unfolding round
round-LeavesInvalid allow mem start p l = ground arith
round-LeavesInvalid allow mem s p l = ground arith

decode-encode : (s : Sw) → decode (encode s) ≡ s
unfolding encode decode
decode-encode start = refl
decode-encode (unlisted n) = ground arith
decode-encode s = refl

abbrev pub buffer : Ptr → Ptr → Buffer
buffer pos last = record { pos = pos; last = last }

-- Two outcomes of a call that the caller cannot tell apart: the same code, and the same request but for
-- the fields that are kept between the calls; with LOK and LAGAIN also those, and the position,
-- are the same, and with HTTP_PARSE_HEADER_DONE the position is.
abbrev pub Agree : Option Parsed → Option Parsed → Type 0
Agree none none = Unit
Agree none (some q) = ⊥
Agree (some p) none = ⊥
Agree (some p) (some q) =
    (p.code ≡ q.code)
    × (save 0 0 0 p.r ≡ save 0 0 0 q.r)
    × ((p.code ≡ lok) ⊎ (p.code ≡ lagain) → p ≡ q)
    × (p.code ≡ parse_header_done → p.b ≡ q.b)

module _ (allow : Bool) (mem : Bytes) where
  conclude-touch :
      (a b c pos pos' last : ℕ) (s : Scanned Local)
      → ((q : Ptr) (x : Next Local) → s ≡ stopped q x → LeavesInvalid x)
      → Agree
          (conclude (buffer pos last) s)
          (conclude (buffer pos' last) (touch_scanned (round allow mem) (touch a b c) s))
  unfolding conclude finish
  conclude-touch a b c pos pos' last (at_end p l) stops = (refl, refl, λ e. refl, λ e. refl)
  conclude-touch a b c pos pos' last (stopped p (go l)) stops = tt
  conclude-touch a b c pos pos' last (stopped p (leave code l)) stops =
      let is = stops p (leave code l) refl in
      (refl, refl, λ e. absurd (ground arith), λ e. absurd (ground arith))
  conclude-touch a b c pos pos' last (stopped p (done l)) stops = (refl, refl, λ e. refl, λ e. refl)
  conclude-touch a b c pos pos' last (stopped p (header_done l)) stops =
      (refl, refl, λ e. absurd (ground arith), λ e. refl)
  conclude-touch a b c pos pos' last (stopped p undefined) stops = absurd (stops p undefined refl)

module _ (allow : Bool) (mem : Bytes) (r : Request) (pos mid last : ℕ) (low : pos ≤ mid)
    (high : mid ≤ last) where
  -- What a second call sees after a first one that reached the end of its buffer.
  again :
      (l : Local)
      → Agree
          (conclude (buffer pos last) (scan (round allow mem) (last - mid) mid l))
          (parse_header_line mem (save (encode l.state) l.hash l.i l.r) (buffer mid last) allow)
  unfolding parse_header_line
  again l =
      let t = touch (encode l.state) l.hash l.i in
      let same : begin (save (encode l.state) l.hash l.i l.r) ≡ t l =
        ap (λ (s : Sw). record (t l) { state = s }) (decode-encode l.state) in
      let moved =
        scan-touch (round allow mem) t
          (λ p m. round-touch allow mem (encode l.state) l.hash l.i m.state p m) (last - mid) mid
          l in
      rw (same, moved)
        (conclude-touch allow mem (encode l.state) l.hash l.i pos mid last
          (scan (round allow mem) (last - mid) mid l)
          (scan-StopHolds (round allow mem) LeavesInvalid
            (λ p m. round-LeavesInvalid allow mem m.state p m) (last - mid) mid l))

  -- What is claimed of the outcome of the call on the shorter buffer.
  abbrev Continues : Option Parsed → Type 0
  Continues none = Unit
  Continues (some p) =
      (p.code ≡ lagain
        → Agree (parse_header_line mem r (buffer pos last) allow)
            (parse_header_line mem p.r (buffer p.b.pos last) allow))
      × (p.code ≢ lagain
          → parse_header_line mem r (buffer pos last) allow
            ≡ some (record p { b = buffer p.b.pos last }))

  conclude-Continues :
      (s : Scanned Local)
      → scan (round allow mem) (mid - pos) pos (begin r) ≡ s
      → Continues (conclude (buffer pos mid) s)
  unfolding conclude finish parse_header_line
  conclude-Continues (at_end q l) e =
      let (at, run) = whole-at_end (round allow mem) pos mid last low high (begin r) q l e in
      (λ _. rw (run, at) (again l), λ ne. absurd (ne refl))
  conclude-Continues (stopped q (go l)) e = tt
  conclude-Continues (stopped q (leave code l)) e =
      let is : code ≡ parse_invalid_header =
        scan-StopHolds (round allow mem) LeavesInvalid
          (λ p m. round-LeavesInvalid allow mem m.state p m) (mid - pos) pos (begin r) q _ e in
      (
        λ e'. absurd (ground arith),
        λ _.
            ap (conclude (buffer pos last))
              (whole-stopped (round allow mem) pos mid last low high (begin r) q _ e),
      )
  conclude-Continues (stopped q (done l)) e = (
    λ e'. absurd (ground arith),
    λ _.
        ap (conclude (buffer pos last))
          (whole-stopped (round allow mem) pos mid last low high (begin r) q _ e),
  )
  conclude-Continues (stopped q (header_done l)) e = (
    λ e'. absurd (ground arith),
    λ _.
        ap (conclude (buffer pos last))
          (whole-stopped (round allow mem) pos mid last low high (begin r) q _ e),
  )
  conclude-Continues (stopped q undefined) e = tt

  -- A buffer that ends anywhere inside the header line: if the call on it answers LAGAIN, the call on
  -- the longer buffer and a second call, with the request and from the position that the first one
  -- left, have the same outcome. If it answers anything else, the longer buffer makes no difference.
  pub parse_header_line-chunks :
      (p : Parsed)
      → parse_header_line mem r (buffer pos mid) allow ≡ some p
      → (p.code ≡ lagain
          → Agree
              (parse_header_line mem r (buffer pos last) allow)
              (parse_header_line mem p.r (buffer p.b.pos last) allow))
        × (p.code ≢ lagain
            → parse_header_line mem r (buffer pos last) allow
              ≡ some (record p { b = buffer p.b.pos last }))
  unfolding parse_header_line
  parse_header_line-chunks p e =
      subst Continues e (conclude-Continues (scan (round allow mem) (mid - pos) pos (begin r)) refl)
