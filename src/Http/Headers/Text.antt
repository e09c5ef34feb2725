-- ===== src/Http/Headers/Text.antt =====
-- The bytes of a header: lines "name: value" and a blank line.
use leactor.Prelude.{
  ℕ, suc, ◌+◌, ◌≢◌, List, [], ◌∷◌, ◌++◌, map, length, length-append, arith, ◌≡◌, Ptr, last_or,
}
use leactor.Parse.Text.{All}
use leactor.Parse.HeaderLine.Rounds.{NameByte, ValueByte, name_hash}
use leactor.Http.{Element}
use leactor.Http.Hash.{host_hash}

-- A field: the first byte of its name, the others, and the same of its value.
pub record Field : Type 0 where
  pub first : ℕ
  pub name : List ℕ
  pub value_first : ℕ
  pub value : List ℕ

abbrev pub key_of : Field → List ℕ
key_of f = f.first ∷ f.name

abbrev pub value_of : Field → List ℕ
value_of f = f.value_first ∷ f.value

-- What stands behind a name.
abbrev pub value_part : Field → List ℕ
value_part f = b':' ∷ b' ' ∷ (value_of f ++ (13 ∷ 10 ∷ []))

abbrev pub field_length : Field → ℕ
field_length f = suc (length f.name) + 2 + suc (length f.value) + 2

-- The line of a field.
abbrev pub line_of : Field → List ℕ
line_of f = key_of f ++ value_part f

abbrev pub header_bytes : List Field → List ℕ
header_bytes [] = 13 ∷ 10 ∷ []
header_bytes (x ∷ xs) = line_of x ++ header_bytes xs

-- A field with its name in lower case, as `tolower` makes it.
abbrev pub lowered : (ℕ → ℕ) → Field → Field
lowered tolower f = record f { first = tolower f.first; name = map tolower f.name }

abbrev pub all_lowered : (ℕ → ℕ) → List Field → List Field
all_lowered tolower [] = []
all_lowered tolower (x ∷ xs) = lowered tolower x ∷ all_lowered tolower xs

abbrev pub header_length : List Field → ℕ
header_length [] = 0
header_length (x ∷ xs) = field_length x + header_length xs

-- A field that the parser takes as it is sent, and whose hash is not that of a host.
pub record IsPlain (f : Field) : Type 0 where
  pub name_bytes : All NameByte (key_of f)
  pub value_bytes : All ValueByte (value_of f)
  pub no_space : f.value_first ≢ b' '
  pub no_trailing : last_or f.value_first f.value ≢ b' '
  pub no_host : name_hash 0 (key_of f) ≢ host_hash

pub length-line_of : (f : Field) → length (line_of f) ≡ field_length f
length-line_of f =
    omega
      (arith, length-append (key_of f) (value_part f), length-append (value_of f) (13 ∷ 10 ∷ []))

-- An element for the field at `pos`.
pub record Describes (f : Field) (pos : Ptr) (e : Element) : Type 0 where
  pub hashed : e.hash ≡ name_hash 0 (key_of f)
  pub key : e.key ≡ record { start = pos; length = length (key_of f) }
  pub value : e.value ≡ record { start = pos + length (key_of f) + 2; length = length (value_of f) }
  pub lowcase_key : e.lowcase_key ≡ e.key
