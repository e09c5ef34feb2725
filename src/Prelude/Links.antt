-- ===== src/Prelude/Links.antt =====
-- Lists of addresses: their last one, what is not among them, and chains of links that end in NULL.
use Prim.Native.Nat.{ℕ}
use mathlib.Core.Path.{◌≡◌, ◌∙◌}
use mathlib.Core.Logic.{◌≢◌}
use mathlib.Core.List.{List, [], ◌∷◌}
use leactor.Prelude.Memory.{Ptr, null}

abbrev pub last_or : ℕ → List ℕ → ℕ
last_or d [] = d
last_or d (c ∷ cs) = last_or c cs

abbrev pub first_or : Ptr → List Ptr → Ptr
first_or d [] = d
first_or d (p ∷ ps) = p

abbrev pub NotIn : Ptr → List Ptr → Type 0
NotIn x [] = Unit
NotIn x (p ∷ ps) = (x ≢ p) × NotIn x ps

abbrev pub Distinct : List Ptr → Type 0
Distinct [] = Unit
Distinct (p ∷ ps) = NotIn p ps × Distinct ps

pub last_or-ne : (p d : Ptr) (ps : List Ptr) → p ≢ d → NotIn p ps → p ≢ last_or d ps
last_or-ne p d [] h k = h
last_or-ne p d (q ∷ qs) h k = last_or-ne p q qs k.0 k.1

-- What stands behind `x` by the links `next`, none of it NULL, up to NULL.
abbrev pub Behind : (next : Ptr → Ptr) → Ptr → List Ptr → Type 0
Behind next x [] = next x ≡ null
Behind next x (y ∷ ys) = (next x ≡ y) × (y ≢ null) × Behind next y ys

-- Links that agree on the chain.
pub Behind-same :
    (next other : Ptr → Ptr) (x : Ptr) (xs : List Ptr)
    → ((p : Ptr) → other p ≡ next p)
    → Behind next x xs
    → Behind other x xs
Behind-same next other x [] same h = same x ∙ h
Behind-same next other x (y ∷ ys) same h = (same x ∙ h.0, h.1, Behind-same next other y ys same h.2)
