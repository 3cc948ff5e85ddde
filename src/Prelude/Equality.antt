-- ===== src/Prelude/Equality.antt =====
-- JavaScript's `===` on the values that the program compares, as an interface with instances.
use Prim.Native.Nat.{ℕ}
use Prim.Native.String.{String}
use mathlib.Core.Path.{◌≡◌, refl}
use mathlib.Core.Logic.{◌↔◌}
use mathlib.Core.Bool.{Bool, true}
use native.Mathlib.Omega.{arith}
use text.Mathlib.Text.{◌==◌ as str_eq}
use text.Mathlib.TextEquality.{eq_iff}
use gooseherd.Prelude.Tests.{nat_eq, nat_eq_iff}

-- `same a b` is what `a === b` evaluates to.
pub record Eq {ℓ} (A : Type ℓ) : Type ℓ where
  pub same : A → A → Bool
  pub same_iff : (left right : A) → (same left right ≡ true) ↔ (left ≡ right)

instance abbrev pub String-Eq : Eq String
String-Eq = record { same_iff = eq_iff; same = str_eq }

instance abbrev pub Nat-Eq : Eq ℕ
Nat-Eq = record { same_iff = nat_eq_iff; same = nat_eq }

infix 50 ◌==◌
abbrev pub ◌==◌ {ℓ} : {A : Type ℓ} ⦃interface : Eq A⦄ → A → A → Bool
◌==◌ ⦃interface⦄ = interface.same

module _ {ℓ} {A : Type ℓ} ⦃e : Eq A⦄ where
  pub ==_refl : (a : A) → (a == a) ≡ true
  ==_refl a = (e.same_iff a a).1 refl

  pub ==_sym : (a b : A) → (a == b) ≡ (b == a)
  ==_sym a b = ground (arith, e.same_iff a b, e.same_iff b a)
