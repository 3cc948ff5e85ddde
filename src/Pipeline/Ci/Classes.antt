-- ===== src/Pipeline/Ci/Classes.antt =====
-- The aggregate of src/pipeline/ci/ci-monitor.ts by the class of each check run alone.
use gooseherd.Prelude.{
  String, ◌≡◌, refl, ap, ◌∙◌, inl, inr, Bool, true, false, ◌&&◌, ◌||◌, not, Option, none, some,
  List, [], ◌∷◌, map, arith, if◌then◌else◌, Bool-cases, Option-cases, ◌==◌, String-Eq, Nat-Eq, any,
  every, is_empty, includes, given,
}
use gooseherd.Pipeline.Ci.{
  CiCheckRun, CiPollConclusion, ci_success, ci_failure, ci_pending, ci_cancelled, no_ci,
  passing_conclusions, failing_conclusions, has_conclusion, aggregate_conclusions,
}

-- What a check run is by itself. A run that is completed without a conclusion counts as failed.
pub data CheckClass : Type 0 where
  still_running failed_check passed_check cancelled_check unknown_check : CheckClass

abbrev pub class_of_conclusion : Option String → CheckClass
class_of_conclusion none = failed_check
class_of_conclusion (some c) =
    if includes c failing_conclusions
    then failed_check
    else if c == "cancelled"
    then cancelled_check
    else if includes c passing_conclusions
    then passed_check
    else unknown_check

abbrev pub class_of : CiCheckRun → CheckClass
class_of run =
    if run.status == "completed" then class_of_conclusion run.conclusion else still_running

abbrev pub is_running : CheckClass → Bool
is_running still_running = true
is_running c = false

abbrev pub is_failed : CheckClass → Bool
is_failed failed_check = true
is_failed c = false

abbrev pub is_cancelled : CheckClass → Bool
is_cancelled cancelled_check = true
is_cancelled c = false

abbrev pub is_unknown : CheckClass → Bool
is_unknown unknown_check = true
is_unknown c = false

-- The conclusion of some classes: the first of these that applies.
abbrev pub conclusion_of : List CheckClass → CiPollConclusion
conclusion_of classes =
    if is_empty classes
    then no_ci
    else if any is_running classes
    then ci_pending
    else if any is_failed classes
    then ci_failure
    else if every is_cancelled classes
    then ci_cancelled
    else if any is_unknown classes
    then ci_pending
    else ci_success

abbrev is_incomplete : CiCheckRun → Bool
is_incomplete r = not (r.status == "completed")

abbrev is_failing : CiCheckRun → Bool
is_failing r = has_conclusion (λ c. includes c failing_conclusions) r

abbrev is_null : CiCheckRun → Bool
is_null r = r.status == "completed" && elim r.conclusion [ none ↦ true | some c ↦ false ]

abbrev is_called_off : CiCheckRun → Bool
is_called_off r = has_conclusion (λ c. c == "cancelled") r

abbrev is_accepted : CiCheckRun → Bool
is_accepted r = has_conclusion (λ c. includes c passing_conclusions || c == "cancelled") r

running-classes :
    (runs : List CiCheckRun) → any is_incomplete runs ≡ any is_running (map class_of runs)
unfolding includes
running-classes [] = refl
running-classes (r ∷ runs) = ground (arith, running-classes runs)

or_swap : (a b c d : Bool) → (a || b) || (c || d) ≡ (a || c) || (b || d)
or_swap a b c d = ground arith

or_false : (a b : Bool) → (a || b) ≡ false → (a ≡ false) × (b ≡ false)
or_false a b h = ground arith

failed-class :
    (r : CiCheckRun) → is_incomplete r ≡ false → is_failing r || is_null r ≡ is_failed (class_of r)
unfolding includes
failed-class r done = elim (Option-cases r.conclusion) [
  | inl nothing ↦ ground (arith, nothing)
  | inr (c, given) ↦ ground (arith, given)
]

failed-classes :
    (runs : List CiCheckRun)
    → any is_incomplete runs ≡ false
    → any is_failing runs || any is_null runs ≡ any is_failed (map class_of runs)
failed-classes [] done = refl
failed-classes (r ∷ runs) done =
    let (h, t) = or_false (is_incomplete r) (any is_incomplete runs) done in
    or_swap (is_failing r) (any is_failing runs) (is_null r) (any is_null runs)
    ∙ ap (λ x. x || (any is_failing runs || any is_null runs)) (failed-class r h)
    ∙ ap (λ x. is_failed (class_of r) || x) (failed-classes runs t)

-- Among completed runs of which none has a failing conclusion, the other tests of the code.
quiet-classes :
    (runs : List CiCheckRun)
    → any is_incomplete runs ≡ false
    → any is_failing runs ≡ false
    → (every is_called_off runs ≡ every is_cancelled (map class_of runs))
      × (every is_accepted runs
          ≡ not (any is_failed (map class_of runs)) && not (any is_unknown (map class_of runs)))
unfolding includes
quiet-classes [] done fine = (refl, refl)
quiet-classes (r ∷ runs) done fine = elim (Bool-cases (any is_incomplete runs)) [
  | inl h ↦ absurd (ground (arith, h))
  | inr h ↦ elim (Bool-cases (any is_failing runs)) [
    | inl g ↦ absurd (ground (arith, g))
    | inr g ↦ let (a, b) = quiet-classes runs h g in ground (arith, a, b)
  ]
]

-- Where all runs are cancelled, none has failed.
cancelled-not_failed :
    (classes : List CheckClass) → every is_cancelled classes ≡ true → any is_failed classes ≡ false
cancelled-not_failed [] all = refl
cancelled-not_failed (c ∷ classes) all = ground (arith, cancelled-not_failed classes)

map-is_empty : (runs : List CiCheckRun) → is_empty (map class_of runs) ≡ is_empty runs
map-is_empty [] = refl
map-is_empty (r ∷ runs) = refl

-- The conclusion of the check runs of a commit is that of their classes, each of one run alone:
-- none without runs, pending while a run is not completed, else a failure if a run failed or is
-- completed without a conclusion, cancelled if all are, pending if a conclusion is unknown, and
-- else a success.
pub aggregate_conclusions-classes :
    (runs : List CiCheckRun) → aggregate_conclusions runs ≡ conclusion_of (map class_of runs)
unfolding aggregate_conclusions
aggregate_conclusions-classes runs = elim (Bool-cases (any is_incomplete runs)) [
  | inl running ↦ ground (arith, running, running-classes runs, map-is_empty runs)
  | inr done ↦ elim (Bool-cases (any is_failing runs)) [
    | inl fails ↦
        ground
          (arith, done, fails, failed-classes runs done, running-classes runs, map-is_empty runs)
    | inr fine ↦
        let (cancelled, accepted) = quiet-classes runs done fine in
        ground (
          arith,
          done,
          fine,
          failed-classes runs done,
          running-classes runs,
          map-is_empty runs,
          cancelled,
          accepted,
          cancelled-not_failed (map class_of runs),
        )
  ]
]
