-- ===== src/Http/Headers/Whole.antt =====
-- A whole header: http_process_request_headers on plain fields and a blank line.
use leactor.Prelude.{
  ℕ, suc, ◌+◌, ◌^◌, ◌<◌, ◌≤◌, ◌≡◌, ◌≢◌, refl, sym, subst, ap, ◌∙◌, Ptr, null, arith, false, ◌==◌,
  List, [], ◌∷◌, length, if◌then◌else◌, ok, last_or, first_or, NotIn, Distinct,
}
use leactor.Request.{int32}
use leactor.Parse.Text.{At, At-append}
use leactor.Parse.HeaderLine.Blank.{parse_header_line-IsBlank}
use leactor.Buffers.{Allocator}
use leactor.Buffers.Chain.{Supplies}
use leactor.Http.{Element}
use leactor.Http.Headers.{State, loop, process_request_headers}
use leactor.Http.Headers.Memory.{length-map, At-same, At-join}
use leactor.Http.Headers.Text.{
  Field, field_length, line_of, header_bytes, lowered, all_lowered, header_length, IsPlain,
  length-line_of, Describes,
}
use leactor.Http.Headers.Field.{IsRound, turn-IsRound}

abbrev pub AllPlain : List Field → Type 0
AllPlain [] = Unit
AllPlain (f ∷ fs) = IsPlain f × AllPlain fs

-- The element that follows the one at `p`, if there is one.
abbrev pub Follows : (Ptr → Element) → Ptr → List Ptr → Type 0
Follows elements p [] = Unit
Follows elements p (q ∷ qs) = (elements p).next ≡ q

-- The elements are for these fields, the first of which starts at `pos`, and are linked in this order.
abbrev pub Listed : (Ptr → Element) → (pos : Ptr) → List Field → List Ptr → Type 0
Listed elements pos [] ps = Unit
Listed elements pos (f ∷ fs) [] = ⊥
Listed elements pos (f ∷ fs) (p ∷ ps) =
    Describes f pos (elements p)
    × Follows elements p ps
    × Listed elements (pos + field_length f) fs ps

-- What the loop leaves, from the state `s` on, for the fields and their elements.
record IsRead {S : Type 0} (tolower : ℕ → ℕ) (s : State S) (prev : Ptr) (fs : List Field)
    (ps : List Ptr) (t : State S) : Type 0 where
  position : t.b.pos ≡ s.b.pos + header_length fs + 2
  ready : t.r.state ≡ 0
  same_version : t.r.http_protocol_data ≡ s.r.http_protocol_data
  head : t.head ≡ (if s.head == null then first_or null ps else s.head)
  tail : t.tail ≡ last_or s.tail ps
  counted : t.request_length ≡ int32 (s.request_length + header_length fs)
  bytes : At t.mem s.b.pos (header_bytes (all_lowered tolower fs))
  below : (q : Ptr) → q < s.b.pos → t.mem q ≡ s.mem q
  listed : Listed t.elements s.b.pos fs ps
  linked : s.head ≢ null → Follows t.elements prev ps
  kept : (n : Ptr) × (t.elements prev ≡ record (s.elements prev) { next = n })
  others : (x : Ptr) → NotIn x ps → x ≢ prev → t.elements x ≡ s.elements x

Describes-next :
    (f : Field) (pos : Ptr) (e : Element) (n : Ptr)
    → Describes f pos e
    → Describes f pos (record e { next = n })
Describes-next f pos e n d = record {
  hashed = d.hashed;
  key = d.key;
  value = d.value;
  lowcase_key = d.lowcase_key;
}

module _ {S : Type 0} ⦃a : Allocator S⦄ (tolower : ℕ → ℕ) where
  -- A state that is about to read the fields, with elements for them.
  record IsAhead (s : State S) (prev : Ptr) (fs : List Field) (ps : List Ptr) : Type 0 where
    fresh : s.r.state ≡ 0
    plain : AllPlain fs
    text : At s.mem s.b.pos (header_bytes fs)
    whole : s.b.pos + header_length fs + 2 ≤ s.b.last
    small : header_length fs < 2 ^ 31
    inside : s.b.pos + header_length fs + 2 < 2 ^ 64
    counted : s.request_length < 2 ^ 32
    supply : Supplies s.manager ps
    distinct : Distinct ps
    apart : NotIn prev ps
    same_length : length ps ≡ length fs

  abbrev Reads : State S → Ptr → List Field → List Ptr → Type 0
  Reads s prev fs ps =
      (t : State S) × (loop tolower (suc (length fs)) s prev ≡ ok t) × IsRead tolower s prev fs ps t

  read_blank : (s : State S) (prev : Ptr) → IsAhead s prev [] [] → Reads s prev [] []
  unfolding loop
  read_blank s prev h =
      let (p, parsed, v) =
        parse_header_line-IsBlank s.mem s.b.pos s.b.last s.r h.fresh h.text (omega arith) in
      (
        record s { r = p.r; b = p.b },
        rw (parsed, v.code) refl,
        record {
          position = v.position ∙ omega arith;
          ready = v.ready;
          same_version = v.same_version;
          head = ground arith;
          tail = refl;
          counted = let small = h.counted in omega arith;
          bytes = h.text;
          below = λ q low. refl;
          listed = tt;
          linked = λ some. tt;
          kept = ((s.elements prev).next, refl);
          others = λ x new old. refl;
        },
      )

  module _ (s : State S) (prev : Ptr) (f : Field) (fs : List Field) (m : S) (p : Ptr)
      (ps : List Ptr) (t : State S) (k : IsRound tolower s prev f m p t)
      (some_element : p ≢ null) where
    round-head : t.head ≢ null
    round-head = let head = k.head in ground arith

    ahead : IsAhead s prev (f ∷ fs) (p ∷ ps) → Supplies m ps → IsAhead t p fs ps
    ahead h supply =
        let len = length-line_of f in
        let rest = (At-append s.mem s.b.pos (line_of f) (header_bytes fs) h.text).1 in
        let here : s.b.pos + length (line_of f) ≡ t.b.pos = omega (arith, len, k.position) in
        record {
          fresh = k.ready;
          plain = h.plain.1;
          text =
              At-same s.mem t.mem t.b.pos (header_bytes fs)
                (λ q low high. k.above q (omega (arith, k.position)))
                (subst (λ (at : Ptr). At s.mem at (header_bytes fs)) here rest);
          whole = omega (arith, h.whole, k.position, k.limit);
          small = omega (arith, h.small);
          inside = omega (arith, h.inside, k.position);
          counted = omega (arith, k.counted);
          supply = subst (λ (n : S). Supplies n ps) (sym k.manager) supply;
          distinct = h.distinct.1;
          apart = h.distinct.0;
          same_length = omega (arith, h.same_length);
        }

    -- The round and the rest of the loop together.
    join-IsRead :
        NotIn p ps
        → NotIn prev (p ∷ ps)
        → (u : State S) → IsRead tolower t p fs ps u
        → IsRead tolower s prev (f ∷ fs) (p ∷ ps) u
    join-IsRead new apart u v =
        let some_head : (t.head == null) ≡ false = let ne = round-head in ground arith in
        let name' = length-map tolower f.name in
        let len : s.b.pos + length (line_of (lowered tolower f)) ≡ t.b.pos =
          omega (arith, length-line_of (lowered tolower f), name', k.position) in
        let prev_same = v.others prev apart.1 apart.0 in
        record {
          position = omega (arith, v.position, k.position);
          ready = v.ready;
          same_version = v.same_version ∙ k.same_version;
          head = v.head ∙ rw some_head k.head;
          tail = v.tail ∙ ap (λ (d : Ptr). last_or d ps) k.tail;
          counted = omega (arith, v.counted, k.counted);
          bytes =
              At-join u.mem s.b.pos (line_of (lowered tolower f))
                (header_bytes (all_lowered tolower fs))
                (At-same t.mem u.mem s.b.pos (line_of (lowered tolower f))
                  (λ q low high. v.below q (omega (arith, len))) k.bytes)
                (subst (λ (at : Ptr). At u.mem at (header_bytes (all_lowered tolower fs))) (sym len)
                  v.bytes);
          below = λ q low. v.below q (omega (arith, k.position)) ∙ k.below q low;
          listed = (
            rw v.kept.1 (Describes-next f s.b.pos (t.elements p) v.kept.0 k.new),
            v.linked round-head,
            subst (λ (at : Ptr). Listed u.elements at fs ps) k.position v.listed,
          );
          linked = λ some. ap (λ (e : Element). e.next) (prev_same ∙ k.linked some);
          kept = (k.kept.0, prev_same ∙ k.kept.1);
          others = λ x away old. v.others x away.1 away.0 ∙ k.others x away.0 old;
        }

  loop-IsRead :
      (s : State S) (prev : Ptr) (fs : List Field) (ps : List Ptr)
      → IsAhead s prev fs ps
      → Reads s prev fs ps
  unfolding loop
  loop-IsRead s prev [] [] h = read_blank s prev h
  loop-IsRead s prev [] (p ∷ ps) h = absurd (omega (arith, h.same_length))
  loop-IsRead s prev (f ∷ fs) [] h = absurd (omega (arith, h.same_length))
  loop-IsRead s prev (f ∷ fs) (p ∷ ps) h =
      let (m, supplied, some_element, supply) = h.supply in
      let line = (At-append s.mem s.b.pos (line_of f) (header_bytes fs) h.text).0 in
      let (t, k) =
        turn-IsRound tolower s prev f m p h.fresh h.plain.0 line (omega (arith, h.whole))
          (omega (arith, h.small)) (omega (arith, h.inside)) supplied some_element h.apart.0 in
      let (u, run, v) =
        loop-IsRead t p fs ps (ahead s prev f fs m p ps t k some_element h supply) in
      (
        u,
        k.run (loop tolower (suc (length fs))) ∙ run,
        join-IsRead s prev f fs m p ps t k some_element h.distinct.0 h.apart u v,
      )

-- What the caller finds after the header.
pub record IsHeader {S : Type 0} (tolower : ℕ → ℕ) (s : State S) (fs : List Field) (ps : List Ptr)
    (t : State S) : Type 0 where
  pub position : t.b.pos ≡ s.b.pos + header_length fs + 2
  pub same_version : t.r.http_protocol_data ≡ s.r.http_protocol_data
  pub below : (q : Ptr) → q < s.b.pos → t.mem q ≡ s.mem q
  pub head : t.head ≡ first_or null ps
  pub tail : t.tail ≡ last_or null ps
  pub counted : t.request_length ≡ int32 (s.request_length + header_length fs)
  pub bytes : At t.mem s.b.pos (header_bytes (all_lowered tolower fs))
  pub listed : Listed t.elements s.b.pos fs ps

pub Supplies-NotIn :
    {S : Type 0} → ⦃a : Allocator S⦄ → (m : S) (ps : List Ptr) → Supplies m ps → NotIn null ps
Supplies-NotIn m [] h = tt
Supplies-NotIn m (p ∷ ps) (n, supplied, some, rest) = (λ e. some (sym e), Supplies-NotIn n ps rest)

-- http_process_request_headers, called between two lines on a buffer that holds the rest of the header
-- whole, where its fields are plain (names of letters, digits and dashes, values that need no trimming, and no
-- name with the hash for a host), with a free element of its own for each field, and lengths and
-- addresses in the range of their types: it returns within one round more than there are fields;
-- the elements stand in the order of the fields, from the head to the tail, each with the hash,
-- the name and the value of its line; the names in the buffer are in lower case and its other bytes up to the
-- end of the header unchanged, as is every byte before it; request_length has grown by the lines but the blank one, the
-- address of the version is kept, and the position is behind the blank line.
pub process_request_headers-IsHeader :
    {S : Type 0}
    → ⦃a : Allocator S⦄ → (tolower : ℕ → ℕ) (s : State S) (fs : List Field) (ps : List Ptr)
    → s.r.state ≡ 0
    → AllPlain fs
    → At s.mem s.b.pos (header_bytes fs)
    → s.b.pos + header_length fs + 2 ≤ s.b.last
    → header_length fs < 2 ^ 31
    → s.b.pos + header_length fs + 2 < 2 ^ 64
    → s.request_length < 2 ^ 32
    → Supplies s.manager ps
    → Distinct ps
    → length ps ≡ length fs
    → (t : State S) × (process_request_headers tolower (suc (length fs)) s ≡ ok t)
      × IsHeader tolower s fs ps t
unfolding process_request_headers
process_request_headers-IsHeader tolower s fs ps fresh plain text whole small inside counted supply
      distinct same =
    let begun = record s { head = null; tail = null } in
    let (t, run, v) = loop-IsRead tolower begun null fs ps (record {
      fresh = fresh;
      plain = plain;
      text = text;
      whole = whole;
      small = small;
      inside = inside;
      counted = counted;
      supply = supply;
      distinct = distinct;
      apart = Supplies-NotIn s.manager ps supply;
      same_length = same;
    }) in
    (
      t,
      run,
      record {
        position = v.position;
        same_version = v.same_version;
        below = v.below;
        head = v.head;
        tail = v.tail;
        counted = v.counted;
        bytes = v.bytes;
        listed = v.listed;
      },
    )
