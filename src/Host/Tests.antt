-- ===== src/Host/Tests.antt =====
-- Runs of http_process_host.
use leactor.Prelude.{
  ℕ, ◌+◌, ◌≡◌, refl, none, some, List, [], ◌∷◌, false, not, map, ◌==◌, leb, ◌&&◌, if◌then◌else◌,
}
use leactor.Host.{process_host}
use leactor.Host.Spec.{is_clean, kept_length}
use leactor.Host.Laws.{process_host-kept}

abbrev lower : ℕ → ℕ
lower c = if leb b'A' c && leb c b'Z' then c + 32 else c

-- "Ab.c.:80": the port and the final dot go.
with_port :
    process_host lower (b'A' ∷ b'b' ∷ b'.' ∷ b'c' ∷ b'.' ∷ b':' ∷ b'8' ∷ b'0' ∷ [])
    ≡ some (4, b'a' ∷ b'b' ∷ b'.' ∷ b'c' ∷ b'.' ∷ b':' ∷ b'8' ∷ b'0' ∷ [])
unfolding process_host
with_port = refl

-- "[::1]:8"
literal_host :
    process_host lower (b'[' ∷ b':' ∷ b':' ∷ b'1' ∷ b']' ∷ b':' ∷ b'8' ∷ [])
    ≡ some (5, b'[' ∷ b':' ∷ b':' ∷ b'1' ∷ b']' ∷ b':' ∷ b'8' ∷ [])
unfolding process_host
literal_host = refl

two_dots : process_host lower (b'a' ∷ b'.' ∷ b'.' ∷ b'b' ∷ []) ≡ none
unfolding process_host
two_dots = refl

abbrev sample : List ℕ
sample = b'A' ∷ b'b' ∷ b'.' ∷ b':' ∷ b'8' ∷ b'0' ∷ []

process_host-kept_example : process_host lower sample ≡ (
    if is_clean false sample && not (kept_length sample == 0)
    then some (kept_length sample, map lower sample)
    else none)
process_host-kept_example = process_host-kept lower sample
