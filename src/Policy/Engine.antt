-- ===== src/Policy/Engine.antt =====
-- internal/policy/policy.go: Engine.Decide, and the recorders of internal/policy/audit.go. `sort` is
-- sort.Strings and `milliseconds` is Duration.Milliseconds.
use agent_dock_coedx5_6sol.Prelude.{
  ℤ, String, Bool, true, false, not, ◌&&◌, ◌||◌, ◌==◌, ◌!=◌, string_eq, bool_eq, List, [], ◌∷◌,
  ◌++◌, map, Option, none, some, Result, ok, err, if◌then◌else◌, is_positive, int_ltb,
}
use agent_dock_coedx5_6sol.Policy.Types.{
  Rule, Config, Request, PolicyError, Decision, AuditKind, AuditEvent, AuditRecorder,
}
use agent_dock_coedx5_6sol.Policy.Paths.{PathLibrary, paths_allowed, environment_allowed}

-- What a rule says of a request: it is for another tool, it refuses for a reason, or it allows.
pub data Verdict : Type 0 where
  other_tool : Verdict
  refuses : String → Verdict
  allows : Verdict

module _ (lib : PathLibrary) (config : Config) (request : Request) where
  unfoldable pub verdict : Rule → Verdict
  verdict rule =
      if rule.tool != request.tool_name
      then Verdict.other_tool
      else if rule.capability != request.capability
      then Verdict.refuses "capability is not allowed"
      else if rule.read_only != request.read_only
      then Verdict.refuses "read-only property does not match policy"
      else if request.network && not rule.network
      then Verdict.refuses "network is denied"
      else if not (is_positive request.timeout) || int_ltb rule.max_timeout request.timeout
      then Verdict.refuses "timeout exceeds policy"
      else if not (is_positive request.output_limit)
          || int_ltb rule.max_output_bytes request.output_limit
      then Verdict.refuses "output limit exceeds policy"
      else if not (paths_allowed lib request.paths rule.paths)
      then Verdict.refuses "path is outside policy allowlist"
      else if not (environment_allowed request.environment config.environment.allow)
      then Verdict.refuses "environment key is not allowlisted"
      else Verdict.allows

  -- What follows a rule: the rest of the loop, from the last reason and whether a rule was for the
  -- tool, or the allowance.
  abbrev pub follow :
      (String → Bool → Result String (Unit {0}))
      → String
      → Bool
      → Verdict
      → Result String (Unit {0})
  follow rest reason matched Verdict.other_tool = rest reason matched
  follow rest reason matched (Verdict.refuses why) = rest why true
  follow rest reason matched Verdict.allows = ok tt

  -- The loop over the rules; an error is the reason of a denial.
  unfoldable pub scan : String → Bool → List Rule → Result String (Unit {0})
  scan reason matched [] = err (if not matched then "no matching allow rule" else reason)
  scan reason matched (rule ∷ rules) = follow (λ r m. scan r m rules) reason matched (verdict rule)

module _ (sort : List String → List String) (milliseconds : ℤ → ℤ) where
  -- auditEventForRequest
  unfoldable pub audit_event_for_request : AuditKind → String → Request → String → AuditEvent
  audit_event_for_request kind policy_version request reason = record {
    kind = kind;
    run_id = request.run_id;
    attempt_id = request.attempt_id;
    requested_run_id = "";
    requested_attempt_id = "";
    tool_name = request.tool_name;
    contract_version = request.contract_version;
    policy_version = policy_version;
    capability = request.capability;
    read_only = request.read_only;
    allowed_paths = request.paths;
    network = request.network;
    environment = sort (map (λ (entry : String × String). entry.0) request.environment);
    timeout_millis = milliseconds request.timeout;
    output_limit = request.output_limit;
    image_id = "";
    cpu = "";
    memory = "";
    pids = ℤ.pos 0;
    reason = reason;
    exit_code = ℤ.pos 0;
    output_bytes = ℤ.pos 0;
    timestamp = "";
  }

  module _ {S : Type 0} (recorder : AuditRecorder S) where
    -- The decision once the record of an allowed request, or of a denied one, succeeded or failed.
    abbrev pub after_allow : S × Bool → S × Decision
    after_allow (s, true) = (s, record { allowed = true; error = none })
    after_allow (s, false) =
        (s, record { allowed = false; error = some PolicyError.allowed_unrecorded })

    abbrev pub after_denial : String → S × Bool → S × Decision
    after_denial reason (s, true) =
        (s, record { allowed = false; error = some (PolicyError.denied reason) })
    after_denial reason (s, false) =
        (s, record { allowed = false; error = some (PolicyError.denied_unrecorded reason) })

    abbrev pub conclude : Config → Request → S → Result String (Unit {0}) → S × Decision
    conclude config request s (ok u) = after_allow (
        recorder.record_event s
          (audit_event_for_request AuditKind.policy_allowed config.version request ""))
    conclude config request s (err reason) = after_denial reason (
        recorder.record_event s
          (audit_event_for_request AuditKind.policy_denied config.version request reason))

    -- Engine.Decide
    unfoldable pub engine_decide : PathLibrary → Config → Request → S → S × Decision
    engine_decide lib config request s =
        conclude config request s
          (scan lib config request "no matching allow rule" false config.rules)

-- MemoryAuditRecorder.Record under a live context, at a time that formats to `now`.
unfoldable pub memory_recorder : String → AuditRecorder (List AuditEvent)
memory_recorder now = record {
  record_event = λ events event. (
    events ++ (if event.timestamp == "" then record event { timestamp = now } else event) ∷ [],
    true,
  );
}

-- unavailableAuditRecorder, and recorderOrUnavailable of New
abbrev pub unavailable_recorder : {S : Type 0} → AuditRecorder S
unavailable_recorder = record { record_event = λ s event. (s, false) }

abbrev pub recorder_or_unavailable : {S : Type 0} → Option (AuditRecorder S) → AuditRecorder S
recorder_or_unavailable none = unavailable_recorder
recorder_or_unavailable (some recorder) = recorder
