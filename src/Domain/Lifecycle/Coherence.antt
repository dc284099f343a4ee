-- ===== src/Domain/Lifecycle/Coherence.antt =====
-- What every reachable lifecycle has in common.
use agent_dock_coedx5_6sol.Prelude.{
  if◌then◌else◌, String, ◌⊎◌, inl, inr, refl, ℕ, ◌≤◌, ◌≡◌, Bool, true, false, ◌==◌, string_eq,
  arith,
}
use agent_dock_coedx5_6sol.Domain.Types.{DesiredState, Status, status_eq, desired_eq}
use agent_dock_coedx5_6sol.Domain.Transition.{validate_transition}
use agent_dock_coedx5_6sol.Domain.Lifecycle.{Core, Step, fresh, logical, move, Edge}

-- What the log has established when a run is in a state. Repairing is entered by no event.
abbrev pub Phase : Status → ℕ → Bool → Bool → Bool → Bool → Type 0
Phase Status.queued n named patched passed explained = n ≡ 0
Phase Status.provisioning n named patched passed explained = (n ≡ 1) × (named ≡ true)
Phase Status.reasoning n named patched passed explained = (n ≡ 1) × (named ≡ true)
Phase Status.acting n named patched passed explained = (n ≡ 1) × (named ≡ true)
Phase Status.verifying n named patched passed explained =
    (n ≡ 1) × (named ≡ true) × (patched ≡ true)
Phase Status.succeeded n named patched passed explained =
    (n ≡ 1) × (named ≡ true) × (patched ≡ true) × (passed ≡ true)
Phase Status.failed n named patched passed explained = (n ≤ 1) × (explained ≡ true)
Phase Status.waiting_approval n named patched passed explained = (n ≤ 1) × (explained ≡ true)
Phase Status.cancelled n named patched passed explained = n ≤ 1
Phase _ n named patched passed explained = ⊥

-- Intent against observed state: only a paused or cancelled run can stand in Paused.
abbrev pub Intent : DesiredState → Status → Status → Type 0
Intent DesiredState.running observed resume =
    ((observed == Status.paused) ≡ false) × (resume ≡ Status.unset)
Intent DesiredState.paused observed resume = observed ≡ Status.paused
Intent DesiredState.cancelled observed resume = Unit
Intent _ observed resume = ⊥

pub record IsCoherent (c : Core) : Type 0 where
  pub existing : c.exists ≡ true
  pub intent : Intent c.desired c.observed c.resume
  pub phase : Phase (logical c) c.attempts c.named c.patched c.passed c.explained

pub fresh-IsCoherent : (id : String) → IsCoherent (fresh id)
fresh-IsCoherent id = ground arith

pub Step-IsCoherent : {c d : Core} → Step c d → IsCoherent c → IsCoherent d
unfolding validate_transition
Step-IsCoherent Step.note h = h
Step-IsCoherent (Step.pause a b x) h = ground arith
Step-IsCoherent (Step.resume a b x) h = ground arith
Step-IsCoherent (Step.request_cancel a) h = ground arith
Step-IsCoherent (Step.start_attempt x) h = ground arith
Step-IsCoherent (Step.provision x) h = ground arith
Step-IsCoherent (Step.reason x) h = ground arith
Step-IsCoherent (Step.patch x) h = ground arith
Step-IsCoherent (Step.verify x) h = ground arith
Step-IsCoherent (Step.succeed x y) h = ground arith
Step-IsCoherent Step.explain h = ground arith
Step-IsCoherent (Step.hold x) h = ground arith
Step-IsCoherent (Step.fail x) h = ground arith
Step-IsCoherent (Step.fail_now x y) h = ground arith
Step-IsCoherent (Step.cancel x y) h = ground arith
Step-IsCoherent (Step.cancel_now x y) h = ground arith

-- An event leaves the identity of a run alone, and the run in existence.
pub Step-id : {c d : Core} → Step c d → (d.id ≡ c.id) × (d.exists ≡ c.exists)
Step-id Step.note = ground arith
Step-id (Step.pause a b x) = ground arith
Step-id (Step.resume a b x) = ground arith
Step-id (Step.request_cancel a) = ground arith
Step-id (Step.start_attempt x) = ground arith
Step-id (Step.provision x) = ground arith
Step-id (Step.reason x) = ground arith
Step-id (Step.patch x) = ground arith
Step-id (Step.verify x) = ground arith
Step-id (Step.succeed x y) = ground arith
Step-id Step.explain = ground arith
Step-id (Step.hold x) = ground arith
Step-id (Step.fail x) = ground arith
Step-id (Step.fail_now x y) = ground arith
Step-id (Step.cancel x y) = ground arith
Step-id (Step.cancel_now x y) = ground arith

move_branch :
    (b : Bool) (c : Core) (next : Status)
    → Edge (if b then c.resume else c.observed) next
    → ((if b then record c { resume = next } else record c { observed = next }).observed
        ≡ c.observed)
      ⊎ Edge c.observed
          (if b then record c { resume = next } else record c { observed = next }).observed
move_branch true c next h = inl refl
move_branch false c next h = inr h

move-Edge :
    (c : Core) (next : Status)
    → Edge (logical c) next
    → ((move c next).observed ≡ c.observed) ⊎ Edge c.observed (move c next).observed
move-Edge c next h = move_branch (c.observed == Status.paused) c next h

-- The observed state moves along the transition guard only.
pub Step-Edge : {c d : Core} → Step c d → (d.observed ≡ c.observed) ⊎ Edge c.observed d.observed
unfolding validate_transition
Step-Edge Step.note = inl refl
Step-Edge (Step.pause a b x) = inr x
Step-Edge (Step.resume a b x) = inr (rw b x)
Step-Edge (Step.request_cancel a) = inl refl
Step-Edge {c} (Step.start_attempt x) = move-Edge c Status.provisioning (rw x refl)
Step-Edge {c} (Step.provision x) = move-Edge c Status.reasoning (rw x refl)
Step-Edge {c} (Step.reason x) = move-Edge c Status.acting (rw x refl)
Step-Edge {c} (Step.patch x) = move-Edge c Status.verifying (rw x refl)
Step-Edge (Step.verify x) = inl refl
Step-Edge {c} (Step.succeed x y) = move-Edge c Status.succeeded (rw x refl)
Step-Edge Step.explain = inl refl
Step-Edge {c} (Step.hold x) = move-Edge (record c { explained = true }) Status.waiting_approval x
Step-Edge {c} (Step.fail x) = move-Edge (record c { explained = true }) Status.failed x
Step-Edge (Step.fail_now x y) = inr y
Step-Edge {c} (Step.cancel x y) = move-Edge c Status.cancelled y
Step-Edge (Step.cancel_now x y) = inr y
