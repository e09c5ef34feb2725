-- ===== src/Http/Headers/Field.antt =====
-- One round of the loop of http_process_request_headers, on the line of a plain field.
use leactor.Prelude.{
  ℕ, ◌+◌, ◌^◌, ◌<◌, ◌≤◌, ◌≡◌, ◌≢◌, refl, sym, subst, ap, ◌∙◌, Ptr, null, arith, true, false, ◌==◌,
  List, length, map, if◌then◌else◌, ltb, ok, some,
}
use leactor.Request.{Bytes, Buffer, int32, Request}
use leactor.Parse.Text.{At, At-append}
use leactor.Parse.HeaderLine.{Parsed, parse_header_line}
use leactor.Parse.HeaderLine.Field.{IsField, parse_header_line-IsField}
use leactor.Parse.HeaderLine.Rounds.{name_hash}
use leactor.Host.{lowcase_key_copy}
use leactor.Buffers.{Allocator}
use leactor.Buffers.Chain.{write, write-below}
use leactor.Http.{diff}
use leactor.Http.Line.{diff-exact}
use leactor.Http.Headers.{State, lower, fill, Rounds, turn}
use leactor.Http.Headers.Memory.{slice-At, length-map, write-above, At-write, At-same, At-join}
use leactor.Http.Headers.Round.{IsTaken, fill-IsTaken}
use leactor.Http.Headers.Text.{
  Field, key_of, value_of, value_part, field_length, line_of, lowered, IsPlain, Describes,
}

-- What the round leaves to the next one.
pub record IsRound {S : Type 0} ⦃a : Allocator S⦄ (tolower : ℕ → ℕ) (s : State S) (prev : Ptr)
    (f : Field) (m : S) (e : Ptr) (t : State S) : Type 0 where
  pub run :
      (rounds : Rounds S)
      → turn tolower rounds s prev (parse_header_line s.mem s.r s.b true) ≡ rounds t e
  pub ready : t.r.state ≡ 0
  pub same_version : t.r.http_protocol_data ≡ s.r.http_protocol_data
  pub limit : t.b.last ≡ s.b.last
  pub position : t.b.pos ≡ s.b.pos + field_length f
  pub manager : t.manager ≡ m
  pub head : t.head ≡ (if s.head == null then e else s.head)
  pub tail : t.tail ≡ e
  pub counted : t.request_length ≡ int32 (s.request_length + field_length f)
  pub bytes : At t.mem s.b.pos (line_of (lowered tolower f))
  pub below : (q : Ptr) → q < s.b.pos → t.mem q ≡ s.mem q
  pub above : (q : Ptr) → s.b.pos + field_length f ≤ q → t.mem q ≡ s.mem q
  pub new : Describes f s.b.pos (t.elements e)
  pub linked : s.head ≢ null → t.elements prev ≡ record (s.elements prev) { next = e }
  pub kept : (n : Ptr) × (t.elements prev ≡ record (s.elements prev) { next = n })
  pub others : (x : Ptr) → x ≢ e → x ≢ prev → t.elements x ≡ s.elements x

-- The name in lower case.
module _ (tolower : ℕ → ℕ) (mem : Bytes) (pos : Ptr) (f : Field) (line : At mem pos (line_of f))
    (small : length (key_of f) < 2 ^ 31) where
  abbrev after : Bytes
  after = lower tolower mem (record { start = pos; length = length (key_of f) })

  after-write : after ≡ write mem pos (map tolower (key_of f))
  unfolding lowcase_key_copy
  after-write =
      let less : ltb (length (key_of f)) (2 ^ 31) ≡ true = ground arith in
      rw less (
        ap (λ (xs : List ℕ). write mem pos (map tolower xs))
          (slice-At mem pos (key_of f) (At-append mem pos (key_of f) (value_part f) line).0))

  above-after : (q : Ptr) → pos + length (key_of f) ≤ q → after q ≡ mem q
  above-after q h =
      rw after-write
        (write-above mem pos (map tolower (key_of f)) q (omega (arith, length-map tolower f.name)))

  below-after : (q : Ptr) → q < pos → after q ≡ mem q
  below-after q h = rw after-write (write-below mem pos (map tolower (key_of f)) q h)

  after-line : At after pos (line_of (lowered tolower f))
  after-line =
      let key' = map tolower (key_of f) in
      let len : length key' ≡ length (key_of f) = length-map tolower (key_of f) in
      let value = (At-append mem pos (key_of f) (value_part f) line).1 in
      let kept =
        At-same mem after (pos + length (key_of f)) (value_part f) (λ q low high. above-after q low)
          value in
      At-join after pos key' (value_part f)
        (subst (λ (other : Bytes). At other pos key') (sym after-write) (At-write mem pos key'))
        (rw len kept)

module _ {S : Type 0} ⦃a : Allocator S⦄ (tolower : ℕ → ℕ) (s : State S) (prev : Ptr) (f : Field)
    (m : S) (e : Ptr) (fresh : s.r.state ≡ 0) (plain : IsPlain f)
    (line : At s.mem s.b.pos (line_of f)) (whole : s.b.pos + field_length f ≤ s.b.last)
    (small : field_length f < 2 ^ 31) (inside : s.b.pos + field_length f < 2 ^ 64)
    (supply : a.alloc s.manager ≡ ok (m, e)) (some_element : e ≢ null) (apart : prev ≢ e)
    (p : Parsed) (parsed : parse_header_line s.mem s.r s.b true ≡ some p)
    (v : IsField s.b.pos s.b.last
      (length (key_of f))
      (length (value_of f))
      (name_hash 0 (key_of f))
      s.r
      p) where
  abbrev counted : State S
  counted = record s {
    r = p.r;
    b = p.b;
    request_length = int32 (s.request_length + diff p.b.pos p.r.header_name_start);
    manager = m;
  }

  abbrev next : State S
  next = fill tolower counted prev e

  name_length : diff p.r.header_name_end p.r.header_name_start ≡ length (key_of f)
  name_length =
      diff-exact p.r.header_name_end p.r.header_name_start (length (key_of f))
        (omega (arith, v.name_end, v.name_start)) (omega arith) (omega (arith, v.name_end))

  value_length : diff p.r.header_end p.r.header_start ≡ length (value_of f)
  value_length =
      diff-exact p.r.header_end p.r.header_start (length (value_of f))
        (omega (arith, v.value_end, v.value_start)) (omega arith) (omega (arith, v.value_end))

  line_length : diff p.b.pos p.r.header_name_start ≡ field_length f
  line_length =
      diff-exact p.b.pos p.r.header_name_start (field_length f)
        (omega (arith, v.position, v.name_start)) (omega arith) (omega (arith, v.position))

  short : length (key_of f) < 2 ^ 31
  short = omega arith

  taken : IsTaken tolower counted prev e next
  taken = fill-IsTaken tolower counted prev e apart (λ h. plain.no_host (sym v.hashed ∙ h))

  next-mem : next.mem ≡ after tolower s.mem s.b.pos f line short
  next-mem = taken.mem ∙ rw (name_length, v.name_start) refl

  describes : Describes f s.b.pos (next.elements e)
  describes = rw taken.new.1 (record {
    hashed = v.hashed;
    key = rw (name_length, v.name_start) refl;
    value = rw (value_length, v.value_start) refl;
    lowcase_key = refl;
  })

  run_next :
      (rounds : Rounds S)
      → turn tolower rounds s prev (parse_header_line s.mem s.r s.b true) ≡ rounds next e
  run_next rounds =
      let there : (e == null) ≡ false = ground arith in
      rw (parsed, v.code, v.valid, supply, there) refl

  next-IsRound : IsRound tolower s prev f m e next
  next-IsRound = record {
    run = run_next;
    ready = ap (λ (r : Request). r.state) taken.request ∙ v.ready;
    same_version = ap (λ (r : Request). r.http_protocol_data) taken.request ∙ v.same_version;
    limit = ap (λ (b : Buffer). b.last) taken.buffer ∙ v.limit;
    position = ap (λ (b : Buffer). b.pos) taken.buffer ∙ v.position ∙ omega arith;
    manager = taken.manager;
    head = taken.head;
    tail = taken.tail;
    counted = taken.counted ∙ rw line_length refl;
    bytes =
        subst (λ (mem : Bytes). At mem s.b.pos (line_of (lowered tolower f))) (sym next-mem)
          (after-line tolower s.mem s.b.pos f line short);
    below = λ q h. rw next-mem (below-after tolower s.mem s.b.pos f line short q h);
    above = λ q h. rw next-mem (above-after tolower s.mem s.b.pos f line short q (omega arith));
    new = describes;
    linked = taken.linked;
    kept = taken.kept;
    others = taken.others;
  }

module _ {S : Type 0} ⦃a : Allocator S⦄ (tolower : ℕ → ℕ) (s : State S) (prev : Ptr) (f : Field)
    (m : S) (e : Ptr) (fresh : s.r.state ≡ 0) (plain : IsPlain f)
    (line : At s.mem s.b.pos (line_of f)) (whole : s.b.pos + field_length f ≤ s.b.last)
    (small : field_length f < 2 ^ 31) (inside : s.b.pos + field_length f < 2 ^ 64)
    (supply : a.alloc s.manager ≡ ok (m, e)) (some_element : e ≢ null) (apart : prev ≢ e) where
  pub turn-IsRound : (t : State S) × IsRound tolower s prev f m e t
  turn-IsRound =
      let (p, parsed, v) =
        parse_header_line-IsField true s.mem s.b.pos s.b.last s.r f.first f.name f.value_first
          f.value fresh plain.name_bytes plain.value_bytes plain.no_space plain.no_trailing line
          (omega arith) in
      (
        next tolower s prev f m e fresh plain line whole small inside supply some_element apart p
            parsed v,
        next-IsRound tolower s prev f m e fresh plain line whole small inside supply some_element
            apart p parsed v,
      )
