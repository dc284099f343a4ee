-- ===== src/Examples/Lifecycle.antt =====
-- The theorems on logs at a run that succeeds (internal/domain/reducer.go).
use agent_dock_coedx5_6sol.Prelude.{
  ◌≡◌, ◌≢◌, ◌↔◌, ◌==◌, string_eq, true, false, refl, arith, [], ◌∷◌, ◌++◌, ok, length,
}
use agent_dock_coedx5_6sol.Domain.Types.{DesiredState, State}
use agent_dock_coedx5_6sol.Domain.Apply.{apply_event}
use agent_dock_coedx5_6sol.Domain.Desired.{apply_desired_state}
use agent_dock_coedx5_6sol.Domain.Desired.Resume.{resume-pause}
use agent_dock_coedx5_6sol.Domain.Reduce.{
  stamp, reduce_guard, reduce_step, reduce_from, reduce, reduce_from_checkpoint,
}
use agent_dock_coedx5_6sol.Domain.Reduce.Append.{reduce-version}
use agent_dock_coedx5_6sol.Domain.Reduce.Checkpoint.{checkpoint_agrees}
use agent_dock_coedx5_6sol.Domain.Lifecycle.{Step, core}
use agent_dock_coedx5_6sol.Domain.Lifecycle.Coherence.{IsCoherent}
use agent_dock_coedx5_6sol.Domain.Lifecycle.Refinement.{apply_event-Step}
use agent_dock_coedx5_6sol.Domain.Lifecycle.Logs.{reduce-IsCoherent, reduce-id}
use agent_dock_coedx5_6sol.Domain.Lifecycle.Outcomes.{reduce-succeeded, reduce-ended}
use agent_dock_coedx5_6sol.Examples.Fixtures.{
  zero_sha, created, started, working, projection, queued, succeeded,
}

abbrev first_attempt : State
first_attempt = projection (apply_event zero_sha queued started)

queued-log : reduce zero_sha (created ∷ []) ≡ ok queued
unfolding reduce reduce_from reduce_step reduce_guard apply_event stamp
queued-log = refl

whole-log : reduce zero_sha (created ∷ working) ≡ ok succeeded
unfolding reduce reduce_from reduce_step reduce_guard apply_event stamp
whole-log = refl

apply_event-Step_example : Step (core queued) (core first_attempt)
unfolding reduce reduce_from reduce_step reduce_guard apply_event stamp
apply_event-Step_example = apply_event-Step zero_sha queued started refl refl

reduce-IsCoherent_example : IsCoherent (core succeeded)
reduce-IsCoherent_example = reduce-IsCoherent zero_sha created working whole-log

checkpoint_agrees_example :
    (reduce zero_sha ((created ∷ []) ++ working) ≡ ok succeeded)
    ↔ (reduce_from_checkpoint zero_sha queued working ≡ ok succeeded)
checkpoint_agrees_example =
    checkpoint_agrees zero_sha created [] working queued-log (omega arith)
      (refl, (refl, (refl, (refl, (refl, (refl, (refl, (refl, tt))))))))

reduce-version_example : succeeded.run.version ≡ length (created ∷ working)
reduce-version_example = reduce-version zero_sha (created ∷ working) whole-log

reduce-id_example : (succeeded.run.id ≡ "run-1") × ((succeeded.run.id == "") ≡ false)
reduce-id_example = reduce-id zero_sha created working whole-log

reduce-succeeded_example :
    (succeeded.run.current_attempt ≡ 1)
    × ((succeeded.attempt_id == "") ≡ false)
    × (succeeded.patch_produced ≡ true)
    × (succeeded.verification_passed ≡ true)
unfolding reduce reduce_from reduce_step reduce_guard apply_event stamp
reduce-succeeded_example = reduce-succeeded zero_sha created working whole-log refl

reduce-ended_example : reduce zero_sha (created ∷ working ++ started ∷ []) ≢ ok succeeded
unfolding reduce reduce_from reduce_step reduce_guard apply_event stamp
reduce-ended_example = reduce-ended zero_sha created working whole-log refl started [] succeeded

abbrev paused : State
paused = projection (apply_desired_state queued DesiredState.paused)

resume-pause_example : apply_desired_state paused DesiredState.running ≡ ok queued
unfolding apply_desired_state reduce reduce_from reduce_step reduce_guard apply_event stamp
resume-pause_example = resume-pause queued refl refl refl
