-- ===== src/Runtime/Slots.antt =====
-- src/runtime/runner-db-slots.ts and runner-db-slot-manager.ts: the pool of test databases. A row is a
-- slot. The set-up of a database, the profiles and the updates that release a slot may fail: whether
-- they do is an argument. A teardown that fails is only logged.
pub mod Laws
pub mod Sweep
use gooseherd.Prelude.{
  ℕ, zero, suc, ◌+◌, ◌-◌, ◌*◌, ◌/◌, ◌%◌, ◌≤◌, ◌<◌, String, ◌≡◌, refl, sym, ap, subst, ◌∙◌, ◌≢◌, ◌↔◌,
  ◌⊎◌, inl, inr, Bool, true, false, ◌&&◌, ◌||◌, not, Option, none, some, List, [], ◌∷◌, ◌++◌, map,
  max, arith, eq_iff, ltb, leb, nat_eq, nat_eq_iff, if◌then◌else◌, or_default, ◌<|>◌, Bool-cases,
  Option-cases, List-cases, Eq, ◌==◌, String-Eq, Nat-Eq, ==_refl, ==_sym, length, any, every,
  every-append, keep, is_empty, head?, last_or, includes, add, delete, add_all, delete_all,
  distinct, includes-append, includes-add, includes-delete, includes-add_all, includes-delete_all,
  includes-distinct, delete_absent, trim, map_get, map_set, map_delete, map_get-map_set, Result, ok,
  err, Result-cases, Call, ◌>>=◌, ◌>>◌, return, throw, reads, writes, given, check, map_option,
  bind-ok, bind-err,
}

pub record RunnerDbSlot : Type 0 where
  pub id : ℕ
  pub is_claimed : Bool
  pub run_id : Option String
  pub claimed_at : Option ℕ

-- The smaller of two identifiers, where there are two.
abbrev or_lower : ℕ → Option ℕ → ℕ
or_lower n none = n
or_lower n (some m) = if leb n m then n else m

-- `select id … where status = 'free' order by id limit 1`
unfoldable pub lowest_free : List RunnerDbSlot → Option ℕ
lowest_free [] = none
lowest_free (r ∷ rows) =
    let rest = lowest_free rows in if r.is_claimed then rest else some (or_lower r.id rest)

unfoldable pub set_slot : ℕ → (RunnerDbSlot → RunnerDbSlot) → List RunnerDbSlot → List RunnerDbSlot
set_slot id f [] = []
set_slot id f (r ∷ rows) = (if r.id == id then f r else r) ∷ set_slot id f rows

abbrev pub claimed_by : String → ℕ → RunnerDbSlot → RunnerDbSlot
claimed_by run_id now r = record r {
  is_claimed = true;
  run_id = some run_id;
  claimed_at = some now;
}

abbrev pub freed : RunnerDbSlot → RunnerDbSlot
freed r = record r { is_claimed = false; run_id = none; claimed_at = none }

unfoldable pub acquire : String → ℕ → List RunnerDbSlot → Option ℕ × List RunnerDbSlot
unfolding lowest_free set_slot
acquire run_id now rows = elim (lowest_free rows) [
  | none ↦ (none, rows)
  | some id ↦ (some id, set_slot id (claimed_by run_id now) rows)
]

unfoldable pub release : ℕ → List RunnerDbSlot → List RunnerDbSlot
unfolding set_slot
release id rows = set_slot id freed rows

abbrev pub is_of_run : String → RunnerDbSlot → Bool
is_of_run run_id r = elim r.run_id [ none ↦ false | some other ↦ other == run_id ]

unfoldable pub get_slot_for_run : String → List RunnerDbSlot → Option ℕ
get_slot_for_run run_id [] = none
get_slot_for_run run_id (r ∷ rows) =
    let rest = get_slot_for_run run_id rows in if is_of_run run_id r then some r.id else rest

abbrev pub is_orphan : ℕ → RunnerDbSlot → Bool
is_orphan cutoff r = r.is_claimed && elim r.claimed_at [ none ↦ false | some at ↦ ltb at cutoff ]

unfoldable pub find_orphans : ℕ → List RunnerDbSlot → List RunnerDbSlot
find_orphans cutoff rows = keep (is_orphan cutoff) rows

-- `release` behind a `catch` that goes on: an update that fails leaves the rows.
unfoldable pub release_caught : (ℕ → Bool) → ℕ → List RunnerDbSlot → List RunnerDbSlot
unfolding release
release_caught releases id rows = if releases id then release id rows else rows

-- What is thrown: the error of a failed set-up, or of a failed resolver.
pub data SlotError : Type 0 where
  provision_failed resolve_failed : SlotError

unfoldable pub acquire_for_run :
    String
    → ℕ
    → Bool
    → (ℕ → Bool)
    → (ℕ → Bool)
    → List RunnerDbSlot
    → Result SlotError (Option ℕ) × List RunnerDbSlot
unfolding acquire release_caught
acquire_for_run run_id now needs_db_slot provisions releases rows =
    let taken = acquire run_id now rows in
    if not needs_db_slot then (ok none, rows) else elim taken.0 [
      | none ↦ (ok none, taken.1)
      | some id ↦
          if provisions id
          then (ok (some id), taken.1)
          else (err provision_failed, release_caught releases id taken.1)
    ]

unfoldable pub release_for_run : String → Bool → (ℕ → Bool) → List RunnerDbSlot → List RunnerDbSlot
unfolding get_slot_for_run release_caught
release_for_run run_id needs_db_slot releases rows =
    if not needs_db_slot then rows else elim (get_slot_for_run run_id rows) [
      | none ↦ rows
      | some id ↦ release_caught releases id rows
    ]

-- The loop of `sweepOrphans`. Whether the resolver returns is read of the run; with the profile that
-- it returns or with none, the slot is released. A resolver that throws ends the loop.
unfoldable pub release_all :
    (Option String → Bool)
    → (ℕ → Bool)
    → List RunnerDbSlot
    → List RunnerDbSlot
    → Result SlotError (Unit {0}) × List RunnerDbSlot
unfolding release_caught
release_all resolves releases [] rows = (ok tt, rows)
release_all resolves releases (orphan ∷ orphans) rows =
    let rest = release_all resolves releases orphans (release_caught releases orphan.id rows) in
    if resolves orphan.run_id then rest else (err resolve_failed, rows)

unfoldable pub sweep_orphans :
    ℕ
    → (Option String → Bool)
    → (ℕ → Bool)
    → List RunnerDbSlot
    → Result SlotError (Unit {0}) × List RunnerDbSlot
unfolding find_orphans release_all
sweep_orphans cutoff resolves releases rows =
    release_all resolves releases (find_orphans cutoff rows) rows
