-- ===== src/Prelude/Sets.antt =====
-- Membership in the sets that the program builds: one law for each operation.
use mathlib.Core.Path.{◌≡◌, refl}
use mathlib.Core.Bool.{true, false, ◌&&◌, ◌||◌, not}
use mathlib.Core.List.{List, [], ◌∷◌, ◌++◌}
use native.Mathlib.Omega.{arith}
use gooseherd.Prelude.Equality.{Eq, ◌==◌}
use gooseherd.Prelude.Lists.{includes, add, delete, add_all, delete_all, distinct}

module _ {ℓ} {A : Type ℓ} ⦃e : Eq A⦄ where
  pub includes-append :
      (x : A) (xs ys : List A) → includes x (xs ++ ys) ≡ (includes x xs || includes x ys)
  unfolding includes
  includes-append x [] ys = refl
  includes-append x (y ∷ xs) ys = ground (arith, includes-append x xs ys)

  includes_eq : (a x : A) (s : List A) → (a == x) ≡ true → includes a s ≡ includes x s
  includes_eq a x s h = rw ((e.same_iff a x).0 h)

  pub includes-add : (x a : A) (s : List A) → includes x (add a s) ≡ (includes x s || a == x)
  unfolding add includes
  includes-add x a s = ground (arith, includes-append x s (a ∷ []), includes_eq a x s)

  pub includes-delete :
      (x a : A) (s : List A) → includes x (delete a s) ≡ (includes x s && not (a == x))
  unfolding includes delete
  includes-delete x a [] = refl
  includes-delete x a (y ∷ s) =
      ground (arith, includes-delete x a s, e.same_iff y a, e.same_iff y x, e.same_iff a x)

  pub includes-add_all :
      (x : A) (more s : List A) → includes x (add_all s more) ≡ (includes x s || includes x more)
  unfolding add_all includes
  includes-add_all x [] s = ground arith
  includes-add_all x (a ∷ more) s =
      ground (arith, includes-add_all x more (add a s), includes-add x a s)

  pub includes-delete_all :
      (x : A) (more s : List A)
      → includes x (delete_all s more) ≡ (includes x s && not (includes x more))
  unfolding delete_all includes
  includes-delete_all x [] s = ground arith
  includes-delete_all x (a ∷ more) s =
      ground (arith, includes-delete_all x more (delete a s), includes-delete x a s)

  pub includes-distinct : (x : A) (s : List A) → includes x (distinct s) ≡ includes x s
  unfolding distinct includes
  includes-distinct x s = includes-add_all x s []

  pub delete_absent : (a : A) (s : List A) → includes a s ≡ false → delete a s ≡ s
  unfolding includes delete
  delete_absent a [] h = refl
  delete_absent a (y ∷ s) h = ground (arith, delete_absent a s)
