-- ===== src/Policy/Decided.antt =====
-- What Decide returns and records (internal/policy/policy.go).
use agent_dock_coedx5_6sol.Prelude.{
  ℤ, String, Bool, true, false, ◌≡◌, ◌≢◌, ◌↔◌, ◌⊎◌, inl, inr, refl, sym, ◌∙◌, ap, subst, List, [],
  ◌∷◌, Memᴰ, head, tail, none, Result, ok, err,
}
use agent_dock_coedx5_6sol.Policy.Types.{
  Rule, Config, Request, Decision, AuditKind, AuditEvent, AuditRecorder,
}
use agent_dock_coedx5_6sol.Policy.Paths.{PathLibrary}
use agent_dock_coedx5_6sol.Policy.Engine.{
  Verdict, verdict, scan, audit_event_for_request, engine_decide, conclude, after_allow,
  after_denial,
}
use agent_dock_coedx5_6sol.Policy.Permits.{Permits, IsAllowed, verdict-Permits, verdict_of_Permits}

Verdict-cases :
    (v : Verdict)
    → (v ≡ Verdict.other_tool)
      ⊎ (((why : String) × (v ≡ Verdict.refuses why)) ⊎ (v ≡ Verdict.allows))
Verdict-cases Verdict.other_tool = inl refl
Verdict-cases (Verdict.refuses why) = inr (inl (why, refl))
Verdict-cases Verdict.allows = inr (inr refl)

module _ (lib : PathLibrary) (config : Config) (request : Request) where
  -- One step of the loop, for each verdict on the rule.
  scan-other :
      (reason : String) (matched : Bool) (rule : Rule) (rules : List Rule)
      → verdict lib config request rule ≡ Verdict.other_tool
      → scan lib config request reason matched (rule ∷ rules)
        ≡ scan lib config request reason matched rules
  unfolding scan
  scan-other reason matched rule rules h = rw h refl

  scan-refuses :
      (reason why : String) (matched : Bool) (rule : Rule) (rules : List Rule)
      → verdict lib config request rule ≡ Verdict.refuses why
      → scan lib config request reason matched (rule ∷ rules)
        ≡ scan lib config request why true rules
  unfolding scan
  scan-refuses reason why matched rule rules h = rw h refl

  scan-allows :
      (reason : String) (matched : Bool) (rule : Rule) (rules : List Rule)
      → verdict lib config request rule ≡ Verdict.allows
      → scan lib config request reason matched (rule ∷ rules) ≡ ok tt
  unfolding scan
  scan-allows reason matched rule rules h = rw h refl

  -- The loop allows only by a rule of the list that permits the request.
  scan-Permits :
      (reason : String) (matched : Bool) (rules : List Rule)
      → scan lib config request reason matched rules ≡ ok tt
      → (rule : Rule) × Memᴰ rule rules × Permits lib config request rule
  unfolding scan
  scan-Permits reason matched [] h = cc h
  scan-Permits reason matched (rule ∷ rules) h =
      elim (Verdict-cases (verdict lib config request rule)) [
        | inl other ↦
            let (r, m, p) =
              scan-Permits reason matched rules
                (sym (scan-other reason matched rule rules other) ∙ h) in
            (r, tail m, p)
        | inr (inl (why, refusal)) ↦
            let (r, m, p) =
              scan-Permits why true rules
                (sym (scan-refuses reason why matched rule rules refusal) ∙ h) in
            (r, tail m, p)
        | inr (inr allowance) ↦ (rule, head refl, verdict-Permits lib config request rule allowance)
      ]

  scan_of_Permits :
      (reason : String) (matched : Bool) (rules : List Rule) (rule : Rule)
      → Memᴰ rule rules
      → Permits lib config request rule
      → scan lib config request reason matched rules ≡ ok tt
  scan_of_Permits reason matched [] rule m p = elim m [ ]
  scan_of_Permits reason matched (r ∷ rules) rule (head e) p =
      scan-allows reason matched r rules
        (verdict_of_Permits lib config request r (subst (Permits lib config request) e p))
  scan_of_Permits reason matched (r ∷ rules) rule (tail m) p =
      elim (Verdict-cases (verdict lib config request r)) [
        | inl other ↦
            scan-other reason matched r rules other ∙ scan_of_Permits reason matched rules rule m p
        | inr (inl (why, refusal)) ↦
            scan-refuses reason why matched r rules refusal
            ∙ scan_of_Permits why true rules rule m p
        | inr (inr allowance) ↦ scan-allows reason matched r rules allowance
      ]

module _ (sort : List String → List String) (milliseconds : ℤ → ℤ) {S : Type 0}
    (recorder : AuditRecorder S) (lib : PathLibrary) (config : Config) (request : Request)
    (s : S) where
  -- The record of an allowed request.
  abbrev pub allow_event : AuditEvent
  allow_event =
      audit_event_for_request sort milliseconds AuditKind.policy_allowed config.version request ""

  after_allow-allowed : (r : S × Bool) → (after_allow sort milliseconds recorder r).1.allowed ≡ r.1
  after_allow-allowed (t, true) = refl
  after_allow-allowed (t, false) = refl

  after_denial-allowed :
      (reason : String) (r : S × Bool)
      → (after_denial sort milliseconds recorder reason r).1.allowed ≡ false
  after_denial-allowed reason (t, true) = refl
  after_denial-allowed reason (t, false) = refl

  allowed_parts :
      (r : Result String (Unit {0}))
      → (conclude sort milliseconds recorder config request s r).1.allowed ≡ true
      → (r ≡ ok tt) × ((recorder.record_event s allow_event).1 ≡ true)
  allowed_parts (ok u) h =
      (refl, sym (after_allow-allowed (recorder.record_event s allow_event)) ∙ h)
  allowed_parts (err reason) h = cc (
    h,
    sym (
        after_denial-allowed reason (
          recorder.record_event s (
            audit_event_for_request sort milliseconds AuditKind.policy_denied config.version request
              reason))),
  )

  -- Decide allows a request just when some rule of the policy permits it and the record of the allowance
  -- is kept; the order of the rules does not matter.
  pub engine_decide_iff_IsAllowed :
      ((engine_decide sort milliseconds recorder lib config request s).1.allowed ≡ true)
      ↔ (IsAllowed lib config request × ((recorder.record_event s allow_event).1 ≡ true))
  unfolding engine_decide
  engine_decide_iff_IsAllowed = (
    λ h.
        let (found, kept) =
          allowed_parts (scan lib config request "no matching allow rule" false config.rules) h in
        (scan-Permits lib config request "no matching allow rule" false config.rules found, kept),
    λ ((rule, m, p), kept).
        ap (λ r. (conclude sort milliseconds recorder config request s r).1.allowed)
          (scan_of_Permits lib config request "no matching allow rule" false config.rules rule m p)
        ∙ (after_allow-allowed (recorder.record_event s allow_event) ∙ kept),
  )

  pub Recorded : S × Decision → Type 0
  Recorded result =
      ((result.1.allowed ≡ true)
        × (result.1.error ≡ none)
        × (result.0 ≡ (recorder.record_event s allow_event).0))
      ⊎ ((result.1.allowed ≡ false)
          × (result.1.error ≢ none)
          × ((kind : AuditKind) × (reason : String) × (result.0
                ≡ (recorder.record_event s (
                    audit_event_for_request sort milliseconds kind config.version request
                      reason)).0)))

  allow-Recorded :
      (r : S × Bool)
      → r ≡ recorder.record_event s allow_event
      → Recorded (after_allow sort milliseconds recorder r)
  unfolding Recorded
  allow-Recorded (t, true) h = inl (refl, refl, ap (λ z. z.0) h)
  allow-Recorded (t, false) h =
      inr (refl, λ e. cc e, (AuditKind.policy_allowed, "", ap (λ z. z.0) h))

  denial-Recorded :
      (reason : String) (r : S × Bool)
      → r
        ≡ recorder.record_event s (
            audit_event_for_request sort milliseconds AuditKind.policy_denied config.version request
              reason)
      → Recorded (after_denial sort milliseconds recorder reason r)
  unfolding Recorded
  denial-Recorded reason (t, true) h =
      inr (refl, λ e. cc e, (AuditKind.policy_denied, reason, ap (λ z. z.0) h))
  denial-Recorded reason (t, false) h =
      inr (refl, λ e. cc e, (AuditKind.policy_denied, reason, ap (λ z. z.0) h))

  conclude-Recorded :
      (r : Result String (Unit {0}))
      → Recorded (conclude sort milliseconds recorder config request s r)
  conclude-Recorded (ok u) = allow-Recorded _ refl
  conclude-Recorded (err reason) = denial-Recorded reason _ refl

  -- Every decision records one event, that of the allowance when it allows; and it has an error just when
  -- it does not allow.
  pub engine_decide-Recorded :
      Recorded (engine_decide sort milliseconds recorder lib config request s)
  unfolding engine_decide
  engine_decide-Recorded =
      conclude-Recorded (scan lib config request "no matching allow rule" false config.rules)
