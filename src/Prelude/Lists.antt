-- ===== src/Prelude/Lists.antt =====
-- Lists as the program uses arrays and sets. A JavaScript `Set` is a list in insertion order.
use Prim.Native.Nat.{ℕ, suc}
use mathlib.Core.Bool.{Bool, true, false, ◌&&◌, ◌||◌}
use mathlib.Core.Option.{Option, none, some}
use mathlib.Core.List.{List, [], ◌∷◌, ◌++◌}
use native.Mathlib.Omega.{arith}
use mathlib.Core.Path.{◌≡◌, refl}
use mathlib.Core.Logic.{◌⊎◌, inl, inr}
use gooseherd.Prelude.Tests.{if◌then◌else◌}
use gooseherd.Prelude.Equality.{Eq, ◌==◌}

module _ {ℓ} {A : Type ℓ} where
  abbrev pub length : List A → ℕ
  length [] = 0
  length (x ∷ xs) = suc (length xs)

  abbrev pub any : (A → Bool) → List A → Bool
  any p [] = false
  any p (x ∷ xs) = p x || any p xs

  abbrev pub every : (A → Bool) → List A → Bool
  every p [] = true
  every p (x ∷ xs) = p x && every p xs

  abbrev pub keep : (A → Bool) → List A → List A
  keep p [] = []
  keep p (x ∷ xs) = let rest = keep p xs in if p x then x ∷ rest else rest

  abbrev pub is_empty : List A → Bool
  is_empty [] = true
  is_empty (x ∷ xs) = false

  abbrev pub head? : List A → Option A
  head? [] = none
  head? (x ∷ xs) = some x

  pub List-cases : (xs : List A) → (xs ≡ []) ⊎ ((a : A) × ((rest : List A) × (xs ≡ a ∷ rest)))
  List-cases [] = inl refl
  List-cases (x ∷ xs) = inr (x, (xs, refl))

  abbrev pub last_or : A → List A → A
  last_or d [] = d
  last_or d (x ∷ xs) = last_or x xs

  pub every-append :
      (p : A → Bool) (xs ys : List A) → every p (xs ++ ys) ≡ (every p xs && every p ys)
  every-append p [] ys = refl
  every-append p (x ∷ xs) ys = ground (arith, every-append p xs ys)

-- `Array.prototype.includes` and `Set.prototype.has`, `add` and `delete`.
module _ {ℓ} {A : Type ℓ} ⦃e : Eq A⦄ where
  unfoldable pub includes : A → List A → Bool
  includes a [] = false
  includes a (x ∷ xs) = x == a || includes a xs

  unfoldable pub add : A → List A → List A
  add a xs = if includes a xs then xs else xs ++ a ∷ []

  unfoldable pub delete : A → List A → List A
  delete a [] = []
  delete a (x ∷ xs) = let rest = delete a xs in if x == a then rest else x ∷ rest

  unfoldable pub add_all : List A → List A → List A
  add_all s [] = s
  add_all s (a ∷ more) = add_all (add a s) more

  unfoldable pub delete_all : List A → List A → List A
  delete_all s [] = s
  delete_all s (a ∷ more) = delete_all (delete a s) more

  -- `Array.from(new Set(xs))`
  unfoldable pub distinct : List A → List A
  distinct xs = add_all [] xs
