-- ===== src/Parse/HeaderLine/Waits.antt =====
-- LAGAIN of ngx_http_parse_header_line: it stands at the end of the buffer, and stays there.
use leactor.Prelude.{◌-◌, ◌≤◌, ◌≡◌, refl, subst, ap, Bool, Option, none, some, arith}
use leactor.Request.{Bytes, Buffer, Request}
use leactor.Parse.{
  Scanned, at_end, stopped, go, leave, done, header_done, undefined, scan, lagain,
  parse_invalid_header,
}
use leactor.Parse.Scan.{scan-at_end}
use leactor.Parse.Resume.{scan-StopHolds}
use leactor.Parse.HeaderLine.{Local, round, Parsed, conclude, finish, begin, parse_header_line}
use leactor.Parse.HeaderLine.Chunks.{LeavesInvalid, round-LeavesInvalid}

module _ (allow : Bool) (mem : Bytes) (r : Request) (b : Buffer) where
  -- A call on an empty buffer: LAGAIN, and the same buffer.
  pub waits :
      b.pos ≡ b.last
      → (p : Parsed) × (parse_header_line mem r b allow ≡ some p) × (p.code ≡ lagain) × (p.b ≡ b)
  unfolding parse_header_line conclude scan
  waits e =
      let none_left : b.last - b.pos ≡ 0 = omega arith in
      (_, ap (λ n. conclude b (scan (round allow mem) n b.pos (begin r))) none_left, refl, refl)

  abbrev AtEnd : Option Parsed → Type 0
  AtEnd none = Unit
  AtEnd (some p) = p.code ≡ lagain → p.b.pos ≡ p.b.last

  conclude-AtEnd :
      b.pos ≤ b.last
      → (s : Scanned Local) → scan (round allow mem) (b.last - b.pos) b.pos (begin r) ≡ s
      → AtEnd (conclude b s)
  unfolding conclude finish round
  conclude-AtEnd inside (at_end q l) e =
      let at = scan-at_end (round allow mem) (b.last - b.pos) b.pos (begin r) q l e in
      λ _. omega arith
  conclude-AtEnd inside (stopped q (go l)) e = tt
  conclude-AtEnd inside (stopped q (leave code l)) e =
      let is : code ≡ parse_invalid_header =
        scan-StopHolds (round allow mem) LeavesInvalid
          (λ p m. round-LeavesInvalid allow mem m.state p m) (b.last - b.pos) b.pos (begin r) q _
          e in
      λ e'. absurd (ground arith)
  conclude-AtEnd inside (stopped q (done l)) e = λ e'. absurd (ground arith)
  conclude-AtEnd inside (stopped q (header_done l)) e = λ e'. absurd (ground arith)
  conclude-AtEnd inside (stopped q undefined) e = tt

  pub lagain-end :
      b.pos ≤ b.last
      → (p : Parsed) → parse_header_line mem r b allow ≡ some p
      → p.code ≡ lagain
      → p.b.pos ≡ p.b.last
  unfolding parse_header_line
  lagain-end inside p e =
      subst AtEnd e
        (conclude-AtEnd inside (scan (round allow mem) (b.last - b.pos) b.pos (begin r)) refl)
