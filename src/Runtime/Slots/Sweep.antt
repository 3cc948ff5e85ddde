-- ===== src/Runtime/Slots/Sweep.antt =====
-- What a sweep of the orphans leaves in the pool of test databases.
use gooseherd.Prelude.{ℕ, Bool, false, ◌&&◌, ◌||◌, not, List, [], ◌∷◌, String-Eq, Nat-Eq, includes}
use gooseherd.Runtime.Slots.{RunnerDbSlot, is_orphan}

-- Whether a slot is an orphan whose release does not fail, but for those with some identifiers.
unfoldable orphan_but : (ℕ → Bool) → ℕ → List ℕ → List RunnerDbSlot → Bool
orphan_but releases cutoff ids [] = false
orphan_but releases cutoff ids (r ∷ rows) =
    (is_orphan cutoff r && (releases r.id && not (includes r.id ids)))
    || orphan_but releases cutoff ids rows
