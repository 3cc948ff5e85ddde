-- ===== src/Supervisor/Caps.antt =====
-- The caps on retries, and the shape of the retry chain, whatever the interleaving of the handlers.
use gooseherd.Prelude.{
  ℕ, suc, ◌+◌, ◌-◌, ◌≤◌, ◌<◌, String, ◌≡◌, refl, ap, ◌∙◌, true, false, ◌&&◌, not, Option, List, ◌∷◌,
  ◌++◌, arith, leb, ◌==◌, String-Eq, Nat-Eq, ==_sym, length, every, map_set,
}
use gooseherd.Supervisor.{
  SupervisorConfig, RunSupervisor, WatchedRun, PendingRetry, auto_retry, handle_node_start,
  watch_run, handle_node_end, handle_run_terminal, decide_retry, commit_retry, NodeStart, RunThread,
  reset_daily, find_original_run_id,
}
use gooseherd.Supervisor.Steps.{
  World, Step, Reach, start, next, is_root, is_flat, is_new_run, node_started, run_watched,
  node_ended, run_over, retry_decided, retry_made, retry_failed, day_over,
}
use gooseherd.Supervisor.Chain.{
  is_root-map_set, is_flat-grow, is_flat-map_set, are_roots-map_set, every-without, length-without,
  find_original_run_id-root,
}

module _ (config : SupervisorConfig) (limit : ℕ) where
  -- The state that every interleaving keeps.
  record IsSound (w : World) : Type 0 where
    within :
        w.supervisor.daily_retry_count + length w.retrying
        ≤ config.supervisor_max_retries_per_day + (limit - 1)
    flat : is_flat w.supervisor.retry_chain w.supervisor.retry_chain ≡ true
    roots : every (λ p. is_root p.original_run_id w.supervisor.retry_chain) w.retrying ≡ true
    attempts : every (λ p. leb p.attempt config.supervisor_max_auto_retries) w.retrying ≡ true

  decide_retry-fits :
      (now : ℕ) (run_id : String) (watched : Option WatchedRun) (s : RunSupervisor)
      (retry : PendingRetry)
      → decide_retry config now run_id watched true s ≡ auto_retry retry
      → (s.daily_retry_count < config.supervisor_max_retries_per_day)
        × (retry.original_run_id ≡ find_original_run_id run_id s.retry_chain)
        × (leb retry.attempt config.supervisor_max_auto_retries ≡ true)
  unfolding decide_retry
  decide_retry-fits now run_id watched s retry decided = ground arith

  quiet-IsSound :
      (w : World) (s : RunSupervisor)
      → s.retry_chain ≡ w.supervisor.retry_chain
      → s.daily_retry_count ≤ w.supervisor.daily_retry_count
      → IsSound w
      → IsSound (record w { supervisor = s })
  quiet-IsSound w s chain daily sound = record {
    within = omega (arith, sound.within);
    flat = ground (arith, sound.flat);
    roots = ground (arith, sound.roots);
    attempts = sound.attempts;
  }

  handle_node_start-quiet :
      (event : NodeStart) (now : ℕ) (s : RunSupervisor)
      → ((handle_node_start event now s).retry_chain ≡ s.retry_chain)
        × ((handle_node_start event now s).daily_retry_count ≤ s.daily_retry_count)
  unfolding handle_node_start
  handle_node_start-quiet event now s = ground arith

  handle_node_end-quiet :
      (run_id : String) (now : ℕ) (s : RunSupervisor)
      → ((handle_node_end run_id now s).retry_chain ≡ s.retry_chain)
        × ((handle_node_end run_id now s).daily_retry_count ≤ s.daily_retry_count)
  unfolding handle_node_end
  handle_node_end-quiet run_id now s = ground arith

  -- A retry leaves the list of those that wait.
  without-IsSound :
      (w : World) (before : List PendingRetry) (retry : PendingRetry) (after : List PendingRetry)
      → w.retrying ≡ before ++ retry ∷ after
      → IsSound w
      → (suc (w.supervisor.daily_retry_count + length (before ++ after))
          ≤ config.supervisor_max_retries_per_day + (limit - 1))
        × (is_root retry.original_run_id w.supervisor.retry_chain ≡ true)
        × (every (λ p. is_root p.original_run_id w.supervisor.retry_chain) (before ++ after) ≡ true)
        × (every (λ p. leb p.attempt config.supervisor_max_auto_retries) (before ++ after) ≡ true)
  without-IsSound w before retry after waits sound =
      let n = ap length waits ∙ length-without before retry after in
      let r =
        ap (every (λ p. is_root p.original_run_id w.supervisor.retry_chain)) waits
        ∙ every-without (λ p. is_root p.original_run_id w.supervisor.retry_chain) before retry
            after in
      let a =
        ap (every (λ p. leb p.attempt config.supervisor_max_auto_retries)) waits
        ∙ every-without (λ p. leb p.attempt config.supervisor_max_auto_retries) before retry
            after in
      (
        omega (arith, n, sound.within),
        ground (arith, r, sound.roots),
        ground (arith, r, sound.roots),
        ground (arith, a, sound.attempts),
      )

  commit_retry-IsSound :
      (w : World) (now : ℕ) (before : List PendingRetry) (retry : PendingRetry)
      (after : List PendingRetry) (new_run_id : String) (thread : RunThread)
      → w.retrying ≡ before ++ retry ∷ after
      → is_new_run new_run_id w.supervisor.retry_chain w.retrying ≡ true
      → IsSound w
      → IsSound (record {
        supervisor = commit_retry now retry new_run_id thread w.supervisor;
        retrying = before ++ after;
      })
  unfolding commit_retry is_new_run
  commit_retry-IsSound w now before retry after new_run_id thread waits new sound =
      let (fits, root, roots, attempts) = without-IsSound w before retry after waits sound in
      let chain = w.supervisor.retry_chain in
      let o = retry.original_run_id in
      let unseen : (every (λ e. not (e.0 == new_run_id) && not (e.1 == new_run_id)) chain ≡ true)
          × (every (λ p. not (p.original_run_id == new_run_id)) w.retrying ≡ true) =
        ground arith in
      let others =
        ap (every (λ p. not (p.original_run_id == new_run_id))) waits
        ∙ every-without (λ p. not (p.original_run_id == new_run_id)) before retry after in
      let not_new : ((o == new_run_id) ≡ false)
          × (every (λ p. not (p.original_run_id == new_run_id)) (before ++ after) ≡ true) =
        ground (arith, others, unseen) in
      record {
        within = omega (arith, fits);
        flat =
            is_flat-map_set new_run_id o (map_set new_run_id o chain) chain
              (ground
                (arith, is_root-map_set new_run_id o o chain, ==_sym new_run_id o, root, not_new))
              (is_flat-grow new_run_id o chain chain unseen.0 sound.flat);
        roots = are_roots-map_set new_run_id o chain (before ++ after) not_new.1 roots;
        attempts = attempts;
      }

  Step-IsSound : {w w' : World} → Step config limit w w' → IsSound w → IsSound w'
  unfolding watch_run handle_run_terminal reset_daily
  Step-IsSound {w = w} (node_started event now) sound =
      let (chain, daily) = handle_node_start-quiet event now w.supervisor in
      quiet-IsSound w (handle_node_start event now w.supervisor) chain daily sound
  Step-IsSound {w = w} (run_watched event now thread) sound = record {
    within = sound.within;
    flat = sound.flat;
    roots = sound.roots;
    attempts = sound.attempts;
  }
  Step-IsSound {w = w} (node_ended run_id now) sound =
      let (chain, daily) = handle_node_end-quiet run_id now w.supervisor in
      quiet-IsSound w (handle_node_end run_id now w.supervisor) chain daily sound
  Step-IsSound {w = w} (run_over run_id) sound = record {
    within = sound.within;
    flat = sound.flat;
    roots = sound.roots;
    attempts = sound.attempts;
  }
  Step-IsSound {w = w} (retry_decided now run_id watched retry decided room) sound =
      let (below, original, capped) =
        decide_retry-fits now run_id watched w.supervisor retry decided in
      record {
        within = omega (arith, sound.within);
        flat = sound.flat;
        roots = ground (
          arith,
          original,
          sound.roots,
          find_original_run_id-root run_id w.supervisor.retry_chain sound.flat,
        );
        attempts = ground (arith, capped, sound.attempts);
      }
  Step-IsSound {w = w} (retry_made now before retry after new_run_id thread waits new) sound =
      commit_retry-IsSound w now before retry after new_run_id thread waits new sound
  Step-IsSound {w = w} (retry_failed before retry after waits) sound =
      let (fits, root, roots, attempts) = without-IsSound w before retry after waits sound in
      record { within = omega (arith, fits); flat = sound.flat; roots = roots; attempts = attempts }
  Step-IsSound {w = w} day_over sound = record {
    within = omega (arith, sound.within);
    flat = sound.flat;
    roots = sound.roots;
    attempts = sound.attempts;
  }

  Reach-IsSound : {w : World} → Reach config limit w → IsSound w
  unfolding is_flat
  Reach-IsSound start = record { within = omega arith; flat = refl; roots = refl; attempts = refl }
  Reach-IsSound (next reached step) = Step-IsSound step (Reach-IsSound reached)

  -- From its start, under any interleaving of the handlers of the supervisor in which at most
  -- `limit` retries wait for their run at a time, the daily count of retries is at most the cap
  -- per day plus limit - 1, so at most the cap where retries never overlap, and no waiting retry
  -- is an attempt beyond the cap per run.
  pub daily_retry_count-bound :
      (w : World)
      → Reach config limit w
      → (w.supervisor.daily_retry_count ≤ config.supervisor_max_retries_per_day + (limit - 1))
        × (every (λ p. leb p.attempt config.supervisor_max_auto_retries) w.retrying ≡ true)
  daily_retry_count-bound w reached =
      (omega (arith, (Reach-IsSound reached).within), (Reach-IsSound reached).attempts)
