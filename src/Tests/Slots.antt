-- ===== src/Tests/Slots.antt =====
-- A pool with two test databases.
use gooseherd.Prelude.{◌≡◌, refl, ◌≢◌, true, false, none, some, List, [], ◌∷◌, String-Eq, Nat-Eq}
use gooseherd.Runtime.Slots.{RunnerDbSlot, acquire, release, lowest_free, set_slot}
use gooseherd.Runtime.Slots.Laws.{is_tidy, has_free, is_held, acquire-release}

abbrev pool : List RunnerDbSlot
pool =
    record { id = 1; is_claimed = true; run_id = some "r1"; claimed_at = some 5 }
    ∷ record { id = 2; is_claimed = false; run_id = none; claimed_at = none }
    ∷ []

abbrev full_pool : List RunnerDbSlot
full_pool =
    record { id = 1; is_claimed = true; run_id = some "r1"; claimed_at = some 5 }
    ∷ record { id = 2; is_claimed = true; run_id = some "r2"; claimed_at = some 9 }
    ∷ []

pool-is_tidy : is_tidy pool ≡ true
unfolding is_tidy
pool-is_tidy = refl

taken : acquire "r2" 9 pool ≡ (some 2, full_pool)
unfolding acquire lowest_free set_slot
taken = refl

acquire-release_example :
    (has_free 2 pool ≡ true)
    × (is_held 2 "r2" full_pool ≡ true)
    × ((acquire "r3" 10 full_pool).0 ≢ some 2)
    × (release 2 full_pool ≡ pool)
acquire-release_example = acquire-release "r2" "r3" 9 10 2 pool full_pool pool-is_tidy taken
