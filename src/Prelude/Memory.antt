-- ===== src/Prelude/Memory.antt =====
-- Memory as a function from addresses or indices to contents, and a C result that may be undefined.
use Prim.Native.Nat.{ℕ}
use mathlib.Core.Path.{◌≡◌}
use mathlib.Core.Logic.{◌≢◌}
use mathlib.Core.Option.{Option, none, some}
use native.Mathlib.Omega.{arith}
use leactor.Prelude.Tests.{◌==◌, if◌then◌else◌}

-- An address; `null` is `NULL`.
abbrev pub Ptr : Type 0
Ptr = ℕ

abbrev pub null : Ptr
null = 0

module _ {ℓ} {A : Type ℓ} where
  -- The contents `f` after a write of `v` at `i`.
  unfoldable pub update : (ℕ → A) → ℕ → A → ℕ → A
  update f i v j = if i == j then v else f j

  pub update_self : (f : ℕ → A) (i : ℕ) (v : A) → update f i v i ≡ v
  unfolding update
  update_self f i v = ground arith

  pub update_ne : (f : ℕ → A) (i j : ℕ) (v : A) → i ≢ j → update f i v j ≡ f j
  unfolding update
  update_ne f i j v h = ground arith

-- The contents of a C `int` that may be negative: `negsuc n` is -(n + 1).
pub data ℤ : Type 0 where
  pos : ℕ → ℤ
  negsuc : ℕ → ℤ

-- How a call ends: with a value, in undefined behaviour of C (such as an access through NULL or to a
-- freed object), or without an end within the rounds given.
pub data Run {ℓ} (A : Type ℓ) : Type ℓ where
  ok : A → Run A
  undefined out_of_fuel : Run A

infixl 5 ◌>>=◌ ◌>>◌
abbrev pub ◌>>=◌ {ℓ κ} : {A : Type ℓ} {B : Type κ} → Run A → (A → Run B) → Run B
ok a >>= f = f a
undefined >>= f = undefined
out_of_fuel >>= f = out_of_fuel

abbrev pub ◌>>◌ {ℓ} : {A B : Type ℓ} → Run A → Run B → Run B
m >> k = m >>= λ _. k

-- A value that has to be there.
abbrev pub present {ℓ} : {A : Type ℓ} → Option A → Run A
present (some a) = ok a
present none = undefined
