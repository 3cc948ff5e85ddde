-- ===== src/Observer/Safety/Window/Overlap.antt =====
-- How many events the steps of src/observer/daemon.ts record in a window, where events overlap.
use gooseherd.Prelude.{
  ℕ, zero, suc, ◌+◌, ◌≤◌, ◌<◌, String, ◌≡◌, refl, ◌⊎◌, inl, inr, Bool, true, List, [], ◌∷◌, arith,
  ltb, if◌then◌else◌, String-Eq, Nat-Eq, length,
}
use gooseherd.Observer.Safety.{recent}
use gooseherd.Observer.Safety.Window.{
  add_rate_limit_event, WaitingEvent, decide_at, end_at, is_admitted_at,
}

pub recent_antitone :
    (window now later : ℕ) (timestamps : List ℕ)
    → now ≤ later
    → recent window later timestamps ≤ recent window now timestamps
unfolding recent
recent_antitone window now later [] before = ground arith
recent_antitone window now later (t ∷ timestamps) before =
    ground (arith, recent_antitone window now later timestamps before)

pub recent-add :
    (window later stamp : ℕ) (timestamps : List ℕ)
    → recent window later (add_rate_limit_event stamp timestamps) ≡ (
        if ltb later (stamp + window)
        then suc (recent window later timestamps)
        else recent window later timestamps)
unfolding recent add_rate_limit_event
recent-add window later stamp timestamps = ground arith

recent-add_most :
    (window later stamp : ℕ) (timestamps : List ℕ)
    → recent window later (add_rate_limit_event stamp timestamps)
      ≤ suc (recent window later timestamps)
recent-add_most window later stamp timestamps =
    ground (arith, recent-add window later stamp timestamps)

length-end_at : (i : ℕ) (ws : List WaitingEvent) → length (end_at i ws) ≤ length ws
unfolding end_at
length-end_at i [] = ground arith
length-end_at zero (w ∷ ws) = ground arith
length-end_at (suc i) (w ∷ ws) = ground (arith, length-end_at i ws)

length-end_at_admitted :
    (i : ℕ) (ws : List WaitingEvent)
    → is_admitted_at i ws ≡ true
    → suc (length (end_at i ws)) ≡ length ws
unfolding end_at is_admitted_at
length-end_at_admitted i [] admitted = absurd (ground arith)
length-end_at_admitted zero (w ∷ ws) admitted = refl
length-end_at_admitted (suc i) (w ∷ ws) admitted = ground (arith, length-end_at_admitted i ws)

pub length-decide_at :
    (source : String) (now : ℕ) (others_allow : Bool) (i : ℕ) (ws : List WaitingEvent)
    → length (decide_at source now others_allow i ws) ≤ length ws
unfolding decide_at
length-decide_at source now others_allow i [] = ground arith
length-decide_at source now others_allow zero (w ∷ ws) = ground arith
length-decide_at source now others_allow (suc i) (w ∷ ws) =
    ground (arith, length-decide_at source now others_allow i ws)

module _ (window limit others : ℕ) where
  abbrev pub Within : ℕ → List ℕ → ℕ → Type 0
  Within last recorded n = (t : ℕ) → last ≤ t → recent window t recorded + n ≤ limit + others

  -- What the windows have got since an event read the timestamps, and may yet get from those that wait
  -- longer, is of the others.
  abbrev pub Since : ℕ → List ℕ → WaitingEvent → ℕ → Type 0
  Since last recorded w n =
      (t : ℕ) → last ≤ t → recent window t recorded + n ≤ recent window t w.timestamps + others

  abbrev pub Passed : ℕ → WaitingEvent → Type 0
  Passed last w = w.is_admitted ≡ true → (t : ℕ) → last ≤ t → recent window t w.timestamps < limit

  -- For each event that waits, either there is room for it and for all that wait longer, or the windows
  -- have got nothing but from the others since it read the timestamps.
  abbrev pub Covers : ℕ → List ℕ → List WaitingEvent → Type 0
  Covers last recorded [] = Within last recorded 0
  Covers last recorded (w ∷ ws) =
      Within last recorded (suc (length ws))
      ⊎ (Since last recorded w (length ws) × Passed last w × Covers last recorded ws)

  pub Within-Covers :
      (last : ℕ) (recorded : List ℕ) (ws : List WaitingEvent)
      → Within last recorded (length ws)
      → Covers last recorded ws
  Within-Covers last recorded [] room = room
  Within-Covers last recorded (w ∷ ws) room = inl room

  pub Covers-Within :
      (last : ℕ) (recorded : List ℕ) (ws : List WaitingEvent)
      → Covers last recorded ws
      → Within last recorded 0
  Covers-Within last recorded [] c = c
  Covers-Within last recorded (w ∷ ws) (inl room) = λ t after. ground (arith, room t after)
  Covers-Within last recorded (w ∷ ws) (inr (since, passed, c)) = Covers-Within last recorded ws c

  pub later-Covers :
      (last now : ℕ) (recorded : List ℕ) (ws : List WaitingEvent)
      → last ≤ now
      → Covers last recorded ws
      → Covers now recorded ws
  later-Covers last now recorded [] before c = λ t after. c t (ground arith)
  later-Covers last now recorded (w ∷ ws) before (inl room) = inl (λ t after. room t (ground arith))
  later-Covers last now recorded (w ∷ ws) before (inr (since, passed, c)) = inr (
    (λ t after. since t (ground arith)),
    (λ admitted t after. passed admitted t (ground arith)),
    later-Covers last now recorded ws before c,
  )

  pub end_at-Covers :
      (last : ℕ) (recorded : List ℕ) (i : ℕ) (ws : List WaitingEvent)
      → Covers last recorded ws
      → Covers last recorded (end_at i ws)
  unfolding end_at
  end_at-Covers last recorded i [] c = c
  end_at-Covers last recorded zero (w ∷ ws) (inl room) =
      Within-Covers last recorded ws (λ t after. ground (arith, room t after))
  end_at-Covers last recorded zero (w ∷ ws) (inr (since, passed, c)) = c
  end_at-Covers last recorded (suc i) (w ∷ ws) (inl room) =
      inl (λ t after. ground (arith, room t after, length-end_at i ws))
  end_at-Covers last recorded (suc i) (w ∷ ws) (inr (since, passed, c)) = inr (
    (λ t after. ground (arith, since t after, length-end_at i ws)),
    passed,
    end_at-Covers last recorded i ws c,
  )

  pub record-Covers :
      (last stamp : ℕ) (recorded : List ℕ) (i : ℕ) (ws : List WaitingEvent)
      → is_admitted_at i ws ≡ true
      → Covers last recorded ws
      → Covers last (add_rate_limit_event stamp recorded) (end_at i ws)
  unfolding end_at is_admitted_at
  record-Covers last stamp recorded i [] admitted c = absurd (ground arith)
  record-Covers last stamp recorded zero (w ∷ ws) admitted (inl room) =
      Within-Covers last (add_rate_limit_event stamp recorded) ws
        (λ t after. ground (arith, room t after, recent-add_most window t stamp recorded))
  record-Covers last stamp recorded zero (w ∷ ws) admitted (inr (since, passed, c)) =
      Within-Covers last (add_rate_limit_event stamp recorded) ws (λ t after.
        ground
          (arith, since t after, passed admitted t after, recent-add_most window t stamp recorded))
  record-Covers last stamp recorded (suc i) (w ∷ ws) admitted (inl room) = inl (λ t after. ground (
    arith,
    room t after,
    recent-add_most window t stamp recorded,
    length-end_at_admitted i ws admitted,
  ))
  record-Covers last stamp recorded (suc i) (w ∷ ws) admitted (inr (since, passed, c)) = inr (
    (λ t after. ground (
      arith,
      since t after,
      recent-add_most window t stamp recorded,
      length-end_at_admitted i ws admitted,
    )),
    passed,
    record-Covers last stamp recorded i ws admitted c,
  )
