-- ===== src/Supervisor/Chain.antt =====
-- The retry chain of src/supervisor/run-supervisor.ts as a retry is added, and a list without one of its
-- members.
use gooseherd.Prelude.{
  suc, String, ◌≡◌, refl, inl, inr, Bool, true, false, ◌&&◌, not, some, List, [], ◌∷◌, ◌++◌, arith,
  if◌then◌else◌, Option-cases, ◌==◌, String-Eq, Nat-Eq, ==_sym, length, every, map_get, map_set,
  map_get-map_set,
}
use gooseherd.Supervisor.{PendingRetry, find_original_run_id}
use gooseherd.Supervisor.Steps.{is_root, is_flat}

pub is_root-map_set :
    (n j o : String) (chain : List (String × String))
    → is_root j (map_set n o chain) ≡ (if n == j then false else is_root j chain)
is_root-map_set n j o chain = ground (arith, map_get-map_set n j o chain)

pub is_flat-grow :
    (n o : String) (chain entries : List (String × String))
    → every (λ e. not (e.0 == n) && not (e.1 == n)) entries ≡ true
    → is_flat chain entries ≡ true
    → is_flat (map_set n o chain) entries ≡ true
unfolding is_flat
is_flat-grow n o chain [] other flat = refl
is_flat-grow n o chain (e ∷ entries) other flat =
    ground (arith, is_root-map_set n e.1 o chain, ==_sym n e.1, is_flat-grow n o chain entries)

pub is_flat-map_set :
    (n o : String) (chain entries : List (String × String))
    → is_root o chain ≡ true
    → is_flat chain entries ≡ true
    → is_flat chain (map_set n o entries) ≡ true
unfolding is_flat map_set
is_flat-map_set n o chain [] root flat = rw root refl
is_flat-map_set n o chain (e ∷ entries) root flat =
    ground (arith, is_flat-map_set n o chain entries)

is_flat-get :
    (i o : String) (chain entries : List (String × String))
    → is_flat chain entries ≡ true
    → map_get i entries ≡ some o
    → is_root o chain ≡ true
unfolding is_flat map_get
is_flat-get i o chain [] flat got = ground (arith, got)
is_flat-get i o chain (e ∷ entries) flat got = ground (arith, is_flat-get i o chain entries)

pub are_roots-map_set :
    (n o : String) (chain : List (String × String)) (retrying : List PendingRetry)
    → every (λ p. not (p.original_run_id == n)) retrying ≡ true
    → every (λ p. is_root p.original_run_id chain) retrying ≡ true
    → every (λ p. is_root p.original_run_id (map_set n o chain)) retrying ≡ true
are_roots-map_set n o chain [] other roots = refl
are_roots-map_set n o chain (p ∷ retrying) other roots = ground (
  arith,
  is_root-map_set n p.original_run_id o chain,
  ==_sym n p.original_run_id,
  are_roots-map_set n o chain retrying,
)

pub every-without :
    {A : Type 0} (f : A → Bool) (before : List A) (x : A) (after : List A)
    → every f (before ++ x ∷ after) ≡ f x && every f (before ++ after)
every-without f [] x after = refl
every-without f (y ∷ before) x after = ground (arith, every-without f before x after)

pub length-without :
    {A : Type 0} (before : List A) (x : A) (after : List A)
    → length (before ++ x ∷ after) ≡ suc (length (before ++ after))
length-without [] x after = refl
length-without (y ∷ before) x after = ground (arith, length-without before x after)

pub find_original_run_id-root :
    (run_id : String) (chain : List (String × String))
    → is_flat chain chain ≡ true
    → is_root (find_original_run_id run_id chain) chain ≡ true
unfolding find_original_run_id
find_original_run_id-root run_id chain flat = elim (Option-cases (map_get run_id chain)) [
  | inl root ↦ ground (arith, root)
  | inr (o, got) ↦ ground (arith, got, is_flat-get run_id o chain chain flat got)
]
