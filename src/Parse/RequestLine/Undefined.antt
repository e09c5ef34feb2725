-- ===== src/Parse/RequestLine/Undefined.antt =====
-- The bytes of a URI: the table `usual`, and the bytes for which it is read outside of its bounds.
use leactor.Prelude.{
  ℕ, zero, suc, ◌≤◌, ◌<◌, ◌≡◌, ◌↔◌, refl, Bool, true, false, ◌==◌, ◌||◌, not, if◌then◌else◌, Ptr,
  Option, none, some, arith,
}
use leactor.Request.{Bytes}
use leactor.Parse.{undefined}
use leactor.Parse.RequestLine.States.{
  Sw, start, after_slash_in_uri, check_uri, check_uri_http_09, uri, http_09, Local, usual,
}
use leactor.Parse.RequestLine.Switch.{switch}

-- Whether a table test passes for the bytes 0 to `size` - 1.
passes : (ℕ → Bool) → ℕ → Bool
passes test zero = true
passes test (suc byte) = if test byte then passes test byte else false

passes_at :
    (test : ℕ → Bool) (size byte : ℕ) → byte < size → passes test size ≡ true → test byte ≡ true
unfolding passes
passes_at test zero byte inside all = absurd (omega arith)
passes_at test (suc size) byte inside all = ground (arith, passes_at test size byte)

-- The bytes that a URI state looks at: NUL, LF, CR, space and "#%+./?".
abbrev pub is_delimiter : ℕ → Bool
is_delimiter c =
    c == 0
    || c == 10
    || c == 13
    || c == b' '
    || c == b'#'
    || c == b'%'
    || c == b'+'
    || c == b'.'
    || c == b'/'
    || c == b'?'

same_option : Option Bool → Bool → Bool
same_option none b = false
same_option (some true) b = b
same_option (some false) b = not b

same_option-eq : (o : Option Bool) (b : Bool) → same_option o b ≡ true → o ≡ some b
unfolding same_option
same_option-eq none b h = cc
same_option-eq (some true) b h = ground arith
same_option-eq (some false) b h = ground arith

-- The table agrees with the description for one byte.
abbrev agrees : ℕ → Bool
agrees c = same_option (usual c) (not (is_delimiter c))

usual_table : passes agrees 128 ≡ true
unfolding passes same_option usual
usual_table = refl

usual_outside : (c : ℕ) → 128 ≤ c → usual c ≡ none
unfolding usual
usual_outside c h = ground arith

-- The bitmap `usual` passes exactly the ASCII bytes that the URI states have no case for; from 128 on
-- the index of the signed `char` is negative and the read is outside of the table.
usual_delimiters :
    (c : ℕ) → (c < 128 → usual c ≡ some (not (is_delimiter c))) × (128 ≤ c → usual c ≡ none)
usual_delimiters c =
    (λ h. same_option-eq (usual c) _ (passes_at agrees 128 c h usual_table), usual_outside c)

usual-none : (c : ℕ) → (usual c ≡ none) ↔ (128 ≤ c)
unfolding usual
usual-none c = ground arith

-- The states in which a byte of the URI is looked up.
abbrev pub IsUriState : Sw → Type 0
IsUriState after_slash_in_uri = Unit
IsUriState check_uri = Unit
IsUriState check_uri_http_09 = Unit
IsUriState uri = Unit
IsUriState http_09 = Unit
IsUriState s = ⊥

-- The switch of ngx_http_parse_request_line reads outside of its table exactly for the bytes from 128 on
-- in the states of the URI and those behind it, where such a byte counts as a part of the URI.
pub switch-undefined :
    (s : Sw) (mem : Bytes) (p : Ptr) (ch : ℕ) (l : Local)
    → (switch s mem p ch l ≡ undefined) ↔ (IsUriState s × (128 ≤ ch))
unfolding switch
switch-undefined start mem p ch l = ground arith
switch-undefined after_slash_in_uri mem p ch l = ground (arith, usual-none ch)
switch-undefined check_uri mem p ch l = ground (arith, usual-none ch)
switch-undefined check_uri_http_09 mem p ch l = ground (arith, usual-none ch)
switch-undefined uri mem p ch l = ground (arith, usual-none ch)
switch-undefined http_09 mem p ch l = ground (arith, usual-none ch)
switch-undefined s mem p ch l = ground arith
