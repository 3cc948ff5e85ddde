-- ===== src/Prelude/Results.antt =====
-- A function that may throw: its value, or the error that it throws. A method that changes a state
-- and may throw is a call: it returns its result and the state that it leaves, after a throw too.
use mathlib.Core.Path.{◌≡◌, refl, ap}
use mathlib.Core.Logic.{◌⊎◌, inl, inr}
use mathlib.Core.Option.{Option, none, some}

pub data Result {ℓ κ} (E : Type ℓ) (A : Type κ) : Type (ℓ ⊔ κ) where
  ok : A → Result E A
  err : E → Result E A

pub Result-cases {ℓ κ} :
    {E : Type ℓ} {A : Type κ} (r : Result E A) → ((a : A) × (r ≡ ok a)) ⊎ ((e : E) × (r ≡ err e))
Result-cases (ok a) = inl (a, refl)
Result-cases (err e) = inr (e, refl)

abbrev pub Call : Type 0 → Type 0 → Type 0 → Type 0
Call E S A = S → Result E A × S

module _ {E S : Type 0} where
  infixl 5 ◌>>=◌ ◌>>◌
  abbrev pub ◌>>=◌ : {A B : Type 0} → Call E S A → (A → Call E S B) → Call E S B
  ◌>>=◌ m f s = let ran = m s in elim ran.0 [ ok a ↦ f a ran.1 | err e ↦ (err e, ran.1) ]

  -- A sequence whose first call returns, or throws.
  pub bind-ok :
      {A B : Type 0} (m : Call E S A) (f : A → Call E S B) (s : S) (a : A)
      → (m s).0 ≡ ok a
      → (m >>= f) s ≡ f a (m s).1
  bind-ok m f s a returned =
      ap (λ r. elim r [ ok b ↦ f b (m s).1 | err e ↦ (err e, (m s).1) ]) returned

  pub bind-err :
      {A B : Type 0} (m : Call E S A) (f : A → Call E S B) (s : S) (e : E)
      → (m s).0 ≡ err e
      → (m >>= f) s ≡ (err e, (m s).1)
  bind-err m f s e threw =
      ap (λ r. elim r [ ok b ↦ f b (m s).1 | err e' ↦ (err e', (m s).1) ]) threw

  abbrev pub ◌>>◌ : {A B : Type 0} → Call E S A → Call E S B → Call E S B
  m >> k = m >>= λ _. k

  abbrev pub return : {A : Type 0} → A → Call E S A
  return a s = (ok a, s)

  abbrev pub throw : {A : Type 0} → E → Call E S A
  throw e s = (err e, s)

  abbrev pub reads : {A : Type 0} → (S → A) → Call E S A
  reads f s = (ok (f s), s)

  abbrev pub writes : (S → S) → Call E S (Unit {0})
  writes f s = (ok tt, f s)

  -- The value, or a throw where there is none.
  abbrev pub given : {A : Type 0} → Option A → E → Call E S A
  given none e s = (err e, s)
  given (some a) e s = (ok a, s)

  -- A test that throws where it finds an error.
  abbrev pub check : {F : Type 0} → (F → E) → Option F → Call E S (Unit {0})
  check of_error none s = (ok tt, s)
  check of_error (some e) s = (err (of_error e), s)
