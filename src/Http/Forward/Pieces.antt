-- ===== src/Http/Forward/Pieces.antt =====
-- Pieces without a gap: their bytes are those of one stretch of memory.
use leactor.Prelude.{
  ℕ, ◌+◌, ◌≡◌, refl, sym, ap, ◌∙◌, Ptr, arith, List, [], ◌∷◌, ◌++◌, length, length-append,
}
use leactor.Request.{Bytes}
use leactor.Buffers.Chain.{slice, slice-append}
use leactor.Http.Headers.Text.{
  Field, field_length, header_length, line_of, lowered, length-line_of, header_bytes, all_lowered,
}
use leactor.Http.Headers.Memory.{length-map}
use leactor.Http.Construct.Fields.{field_pieces}
use leactor.Http.Construct.Request.{request_pieces}

-- The bytes that writev is given.
abbrev pub vector_text : Bytes → List (Ptr × ℕ) → List ℕ
vector_text mem [] = []
vector_text mem ((p, n) ∷ vec) = slice mem p n ++ vector_text mem vec

abbrev size : List (Ptr × ℕ) → ℕ
size [] = 0
size ((p, n) ∷ vec) = n + size vec

abbrev Adjacent : Ptr → List (Ptr × ℕ) → Type 0
Adjacent pos [] = Unit
Adjacent pos ((p, n) ∷ vec) = (p ≡ pos) × Adjacent (pos + n) vec

vector_text-slice :
    (mem : Bytes) (pos : Ptr) (vec : List (Ptr × ℕ))
    → Adjacent pos vec
    → vector_text mem vec ≡ slice mem pos (size vec)
vector_text-slice mem pos [] h = refl
vector_text-slice mem pos ((p, n) ∷ vec) (at, rest) =
    rw (at, vector_text-slice mem (pos + n) vec rest) (sym (slice-append mem pos n (size vec)))

fields-Adjacent : (pos at : Ptr) (fs : List Field) → pos ≡ at → Adjacent at (field_pieces pos fs)
fields-Adjacent pos at [] e = tt
fields-Adjacent pos at (f ∷ []) e = (e, (omega arith, tt))
fields-Adjacent pos at (f ∷ g ∷ fs) e =
    (e, (omega arith, fields-Adjacent (pos + field_length f) _ (g ∷ fs) (omega arith)))

fields-size :
    (pos : Ptr) (f : Field) (fs : List Field)
    → size (field_pieces pos (f ∷ fs)) ≡ header_length (f ∷ fs) + 2
fields-size pos f [] = omega arith
fields-size pos f (g ∷ fs) = omega (arith, fields-size (pos + field_length f) g fs)

-- The bytes of the pieces of a request with fields.
pub request_pieces-slice :
    (mem : Bytes) (pos : Ptr) (name path : ℕ) (f : Field) (fs : List Field)
    → vector_text mem (request_pieces pos name path (f ∷ fs))
      ≡ slice mem pos (name + path + 13 + (header_length (f ∷ fs) + 2))
request_pieces-slice mem pos name path f fs =
    vector_text-slice mem pos (request_pieces pos name path (f ∷ fs)) (
      refl,
      (
        omega arith,
        (omega arith, fields-Adjacent (pos + name + path + 13) _ (f ∷ fs) (omega arith)),
      ),
    )
    ∙ ap (λ (n : ℕ). slice mem pos n) (omega (arith, fields-size (pos + name + path + 13) f fs))

-- Those of a response with fields, behind a status line of `n` bytes and CR LF.
pub response_pieces-slice :
    (mem : Bytes) (pos : Ptr) (n : ℕ) (f : Field) (fs : List Field)
    → vector_text mem ((pos, n + 2) ∷ field_pieces (pos + n + 2) (f ∷ fs))
      ≡ slice mem pos (n + 2 + (header_length (f ∷ fs) + 2))
response_pieces-slice mem pos n f fs =
    vector_text-slice mem pos ((pos, n + 2) ∷ field_pieces (pos + n + 2) (f ∷ fs))
      (refl, fields-Adjacent (pos + n + 2) _ (f ∷ fs) (omega arith))
    ∙ ap (λ (k : ℕ). slice mem pos k) (omega (arith, fields-size (pos + n + 2) f fs))

pub length-header_bytes :
    (tolower : ℕ → ℕ) (fs : List Field)
    → length (header_bytes (all_lowered tolower fs)) ≡ header_length fs + 2
length-header_bytes tolower [] = refl
length-header_bytes tolower (f ∷ fs) = omega (
  arith,
  length-append (line_of (lowered tolower f)) (header_bytes (all_lowered tolower fs)),
  length-line_of (lowered tolower f),
  length-map tolower f.name,
  length-header_bytes tolower fs,
)
