-- ===== src/Runtime/Slots/Laws.antt =====
-- The pool of test databases: a slot that is taken was free, and comes back.
use gooseherd.Prelude.{
  ℕ, String, ◌≡◌, refl, subst, ◌≢◌, inl, inr, Bool, true, false, ◌&&◌, ◌||◌, not, none, some, List,
  [], ◌∷◌, arith, nat_eq_iff, Bool-cases, Option-cases, ◌==◌, String-Eq, Nat-Eq, ==_refl, any,
}
use gooseherd.Runtime.Slots.{
  RunnerDbSlot, lowest_free, set_slot, claimed_by, freed, acquire, release, is_of_run,
}

-- The identifiers are distinct, and a free slot names no run and no time.
unfoldable pub is_tidy : List RunnerDbSlot → Bool
is_tidy [] = true
is_tidy (r ∷ rows) =
    not (any (λ s. s.id == r.id) rows)
    && ((r.is_claimed || elim r.run_id [
      | none ↦ (elim r.claimed_at [ none ↦ true | some at ↦ false ])
      | some run ↦ false
    ])
        && is_tidy rows)

abbrev pub has_free : ℕ → List RunnerDbSlot → Bool
has_free id rows = any (λ r. r.id == id && not r.is_claimed) rows

lowest_free-free :
    (id : ℕ) (rows : List RunnerDbSlot) → lowest_free rows ≡ some id → has_free id rows ≡ true
unfolding lowest_free
lowest_free-free id [] found = ground arith
lowest_free-free id (r ∷ rows) found = elim (Option-cases (lowest_free rows)) [
  | inl nothing ↦ ground (arith, nothing, nat_eq_iff r.id id)
  | inr (m, lower) ↦
      ground
        (arith, lower, nat_eq_iff r.id id, lowest_free-free m rows lower, lowest_free-free id rows)
]

-- A slot that is not there is not changed.
set_slot-absent :
    (id : ℕ) (f : RunnerDbSlot → RunnerDbSlot) (rows : List RunnerDbSlot)
    → any (λ s. s.id == id) rows ≡ false
    → set_slot id f rows ≡ rows
unfolding set_slot
set_slot-absent id f [] absent = refl
set_slot-absent id f (r ∷ rows) absent = ground (arith, set_slot-absent id f rows)

has_free-absent :
    (id : ℕ) (rows : List RunnerDbSlot)
    → any (λ s. s.id == id) rows ≡ false
    → has_free id rows ≡ false
has_free-absent id [] absent = refl
has_free-absent id (r ∷ rows) absent = ground (arith, has_free-absent id rows)

freed-claimed_by :
    (run_id : String) (now : ℕ) (r : RunnerDbSlot)
    → r.is_claimed ≡ false
    → r.run_id ≡ none
    → r.claimed_at ≡ none
    → freed (claimed_by run_id now r) ≡ r
freed-claimed_by run_id now r free no_run no_time = ground arith

set_slot-back :
    (run_id : String) (now id : ℕ) (rows : List RunnerDbSlot)
    → is_tidy rows ≡ true
    → has_free id rows ≡ true
    → set_slot id freed (set_slot id (claimed_by run_id now) rows) ≡ rows
unfolding set_slot is_tidy
set_slot-back run_id now id [] tidy free = refl
set_slot-back run_id now id (r ∷ rows) tidy free = elim (Bool-cases (r.id == id)) [
  | inr other ↦ ground (arith, other, set_slot-back run_id now id rows)
  | inl same ↦
      let alone : any (λ s. s.id == r.id) rows ≡ false = ground (arith, tidy) in
      let absent : any (λ s. s.id == id) rows ≡ false =
        subst (λ i. any (λ s. s.id == i) rows ≡ false) ((nat_eq_iff r.id id).0 same) alone in
      ground (
        arith,
        same,
        absent,
        set_slot-absent id (claimed_by run_id now) rows absent,
        set_slot-absent id freed rows absent,
        has_free-absent id rows absent,
      )
]

-- Whether a slot is claimed for a run.
abbrev pub is_held : ℕ → String → List RunnerDbSlot → Bool
is_held id run_id rows = any (λ r. r.id == id && (r.is_claimed && is_of_run run_id r)) rows

set_slot-claims :
    (run_id : String) (now id : ℕ) (rows : List RunnerDbSlot)
    → has_free id (set_slot id (claimed_by run_id now) rows) ≡ false
unfolding set_slot
set_slot-claims run_id now id [] = refl
set_slot-claims run_id now id (r ∷ rows) = ground (arith, set_slot-claims run_id now id rows)

set_slot-holds :
    (run_id : String) (now id : ℕ) (rows : List RunnerDbSlot)
    → has_free id rows ≡ true
    → is_held id run_id (set_slot id (claimed_by run_id now) rows) ≡ true
unfolding set_slot
set_slot-holds run_id now id [] free = absurd (ground arith)
set_slot-holds run_id now id (r ∷ rows) free =
    ground (arith, ==_refl run_id, set_slot-holds run_id now id rows)

acquire-other :
    (run_id : String) (now id : ℕ) (rows : List RunnerDbSlot)
    → has_free id rows ≡ false
    → (acquire run_id now rows).0 ≢ some id
unfolding acquire
acquire-other run_id now id rows taken same = elim (Option-cases (lowest_free rows)) [
  | inl full ↦ absurd (ground (arith, full))
  | inr (i, found) ↦ absurd (ground (arith, found, lowest_free-free i rows found))
]

acquire-claims :
    (run_id : String) (now id : ℕ) (rows after : List RunnerDbSlot)
    → acquire run_id now rows ≡ (some id, after)
    → (has_free id rows ≡ true) × (set_slot id (claimed_by run_id now) rows ≡ after)
unfolding acquire
acquire-claims run_id now id rows after taken = elim (Option-cases (lowest_free rows)) [
  | inl full ↦ absurd (ground (arith, full))
  | inr (i, found) ↦ ground (arith, found, lowest_free-free i rows found)
]

-- In a pool with distinct slots, whose free slots name no run, acquire returns a slot that was
-- free. It is claimed for the run afterwards, a next acquire, of any run, never returns it too,
-- and a release of it gives the pool from before the acquire.
pub acquire-release :
    (run_id other : String) (now later id : ℕ) (rows after : List RunnerDbSlot)
    → is_tidy rows ≡ true
    → acquire run_id now rows ≡ (some id, after)
    → (has_free id rows ≡ true)
      × (is_held id run_id after ≡ true)
      × ((acquire other later after).0 ≢ some id)
      × (release id after ≡ rows)
unfolding release
acquire-release run_id other now later id rows after tidy taken = (
  acquired.0,
  subst (λ p. is_held id run_id p ≡ true) acquired.1 (set_slot-holds run_id now id rows acquired.0),
  acquire-other other later id after
      (subst (λ p. has_free id p ≡ false) acquired.1 (set_slot-claims run_id now id rows)),
  subst (λ p. set_slot id freed p ≡ rows) acquired.1
      (set_slot-back run_id now id rows tidy acquired.0),
)
  where
    acquired : (has_free id rows ≡ true) × (set_slot id (claimed_by run_id now) rows ≡ after)
    acquired = acquire-claims run_id now id rows after taken
