-- ===== src/Base/Table.antt =====
-- Statements over a small range of numbers, proved by evaluation; reads of a list as an array.
use Prim.Native.Nat.{ℕ, zero, suc, ◌<◌}
use mathlib.Core.Path.{◌≡◌}
use mathlib.Core.Bool.{Bool, true, ◌&&◌}
use mathlib.Core.List.{List, [], ◌∷◌}
use native.Mathlib.Omega.{arith}
use emu_gb.Base.Tests.{◌==◌, if◌then◌else◌}

-- A test passes for every number below a bound.
unfoldable pub passes : (ℕ → Bool) → ℕ → Bool
passes test zero = true
passes test (suc bound) = passes test bound && test bound

pub passes_lem :
    (test : ℕ → Bool) (bound : ℕ) → passes test bound ≡ true → {k : ℕ} → k < bound → test k ≡ true
unfolding passes
passes_lem test zero passed {k} below = absurd (omega arith)
passes_lem test (suc bound) passed {k} below =
    let smaller : passes test bound ≡ true → k < bound → test k ≡ true =
      λ h lt. passes_lem test bound h lt in
    ground (arith, smaller)

-- One cell of an array given as a function.
abbrev pub update {ℓ} : {A : Type ℓ} → (ℕ → A) → ℕ → A → ℕ → A
update f k v j = if k == j then v else f j

module _ {ℓ} {A : Type ℓ} where
  abbrev pub length : List A → ℕ
  length [] = 0
  length (x ∷ xs) = suc (length xs)

  abbrev pub get_or : List A → ℕ → A → A
  get_or [] i d = d
  get_or (x ∷ xs) zero d = x
  get_or (x ∷ xs) (suc i) d = get_or xs i d
