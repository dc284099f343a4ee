-- ===== src/Store/Equality.antt =====
-- Go's `==` on the structs of an event (internal/store/memory.go, sameIdempotentEvent).
use agent_dock_coedx5_6sol.Prelude.{
  ◌≡◌, ◌==◌, nat_eq, int_eq, string_eq, Bool, ◌&&◌, ◌↔◌, refl, true, arith, Eq, ==_self,
}
use agent_dock_coedx5_6sol.Domain.Types.{
  EventData, Event, desired_eq, command_type_eq, scope_eq, outcome_eq, event_type_eq,
}

module _ {ℓ} {A : Type ℓ} ⦃e : Eq A⦄ where
  -- One more field that agrees.
  abbrev pub field_eq : A → A → Bool → Bool
  field_eq a b rest = a == b && rest

  pub field_eq_parts : (a b : A) (rest : Bool) → field_eq a b rest ≡ true → (a ≡ b) × (rest ≡ true)
  field_eq_parts a b rest h =
      let both : (p q : Bool) → (p && q) ≡ true → (p ≡ true) × (q ≡ true) = λ p q k. ground arith in
      let (same, others) = both (a == b) rest h in ((e.equal_iff a b).0 same, others)

  pub field_eq_self : (a : A) {rest : Bool} → rest ≡ true → field_eq a a rest ≡ true
  field_eq_self a h = rw (==_self a, h) refl

-- `==` of two values of EventData
unfoldable pub data_beq : EventData → EventData → Bool
data_beq x y = field_eq x.scenario_id y.scenario_id (
    field_eq x.spec_hash y.spec_hash (
      field_eq x.desired_state y.desired_state (
        field_eq x.attempt_id y.attempt_id (
          field_eq x.action_id y.action_id (
            field_eq x.action_type y.action_type (
              field_eq x.idempotency_scope y.idempotency_scope (
                field_eq x.receipt_id y.receipt_id (
                  field_eq x.outcome y.outcome (
                    field_eq x.output y.output (
                      field_eq x.output_digest y.output_digest (
                        field_eq x.artifact_id y.artifact_id (
                          field_eq x.artifact_digest y.artifact_digest (
                            field_eq x.tool_name y.tool_name (
                              field_eq x.tool_arguments y.tool_arguments
                                (field_eq x.reason y.reason true)))))))))))))))

pub data_beq_iff : (x y : EventData) → (data_beq x y ≡ true) ↔ (x ≡ y)
unfolding data_beq
data_beq_iff x y = (
  λ h.
      let (p₁, h₁) = field_eq_parts x.scenario_id _ _ h in
      let (p₂, h₂) = field_eq_parts x.spec_hash _ _ h₁ in
      let (p₃, h₃) = field_eq_parts x.desired_state _ _ h₂ in
      let (p₄, h₄) = field_eq_parts x.attempt_id _ _ h₃ in
      let (p₅, h₅) = field_eq_parts x.action_id _ _ h₄ in
      let (p₆, h₆) = field_eq_parts x.action_type _ _ h₅ in
      let (p₇, h₇) = field_eq_parts x.idempotency_scope _ _ h₆ in
      let (p₈, h₈) = field_eq_parts x.receipt_id _ _ h₇ in
      let (p₉, h₉) = field_eq_parts x.outcome _ _ h₈ in
      let (q₁, k₁) = field_eq_parts x.output _ _ h₉ in
      let (q₂, k₂) = field_eq_parts x.output_digest _ _ k₁ in
      let (q₃, k₃) = field_eq_parts x.artifact_id _ _ k₂ in
      let (q₄, k₄) = field_eq_parts x.artifact_digest _ _ k₃ in
      let (q₅, k₅) = field_eq_parts x.tool_name _ _ k₄ in
      let (q₆, k₆) = field_eq_parts x.tool_arguments _ _ k₅ in
      let (q₇, k₇) = field_eq_parts x.reason _ _ k₆ in
      λ i. record {
        scenario_id = p₁ i;
        spec_hash = p₂ i;
        desired_state = p₃ i;
        attempt_id = p₄ i;
        action_id = p₅ i;
        action_type = p₆ i;
        idempotency_scope = p₇ i;
        receipt_id = p₈ i;
        outcome = p₉ i;
        output = q₁ i;
        output_digest = q₂ i;
        artifact_id = q₃ i;
        artifact_digest = q₄ i;
        tool_name = q₅ i;
        tool_arguments = q₆ i;
        reason = q₇ i;
      },
  λ e. rw e (
      field_eq_self y.scenario_id (
        field_eq_self y.spec_hash (
          field_eq_self y.desired_state (
            field_eq_self y.attempt_id (
              field_eq_self y.action_id (
                field_eq_self y.action_type (
                  field_eq_self y.idempotency_scope (
                    field_eq_self y.receipt_id (
                      field_eq_self y.outcome (
                        field_eq_self y.output (
                          field_eq_self y.output_digest (
                            field_eq_self y.artifact_id (
                              field_eq_self y.artifact_digest (
                                field_eq_self y.tool_name (
                                  field_eq_self y.tool_arguments
                                    (field_eq_self y.reason refl)))))))))))))))),
)

instance abbrev pub data_eq : Eq EventData
data_eq = record { equal = data_beq; equal_iff = data_beq_iff }

-- `==` of two values of Event
unfoldable pub event_beq : Event → Event → Bool
event_beq x y = field_eq x.run_id y.run_id (
    field_eq x.seq y.seq (
      field_eq x.kind y.kind (
        field_eq x.payload_version y.payload_version (
          field_eq x.payload y.payload (
            field_eq x.idempotency_key y.idempotency_key (
              field_eq x.causation_id y.causation_id (
                field_eq x.correlation_id y.correlation_id (
                  field_eq x.worker_id y.worker_id (
                    field_eq x.fencing_token y.fencing_token
                      (field_eq x.created_at y.created_at true))))))))))

pub event_beq_iff : (x y : Event) → (event_beq x y ≡ true) ↔ (x ≡ y)
unfolding event_beq
event_beq_iff x y = (
  λ h.
      let (p₁, h₁) = field_eq_parts x.run_id _ _ h in
      let (p₂, h₂) = field_eq_parts x.seq _ _ h₁ in
      let (p₃, h₃) = field_eq_parts x.kind _ _ h₂ in
      let (p₄, h₄) = field_eq_parts x.payload_version _ _ h₃ in
      let (p₅, h₅) = field_eq_parts x.payload _ _ h₄ in
      let (p₆, h₆) = field_eq_parts x.idempotency_key _ _ h₅ in
      let (p₇, h₇) = field_eq_parts x.causation_id _ _ h₆ in
      let (p₈, h₈) = field_eq_parts x.correlation_id _ _ h₇ in
      let (p₉, h₉) = field_eq_parts x.worker_id _ _ h₈ in
      let (q₁, k₁) = field_eq_parts x.fencing_token _ _ h₉ in
      let (q₂, k₂) = field_eq_parts x.created_at _ _ k₁ in
      λ i. record {
        run_id = p₁ i;
        seq = p₂ i;
        kind = p₃ i;
        payload_version = p₄ i;
        payload = p₅ i;
        idempotency_key = p₆ i;
        causation_id = p₇ i;
        correlation_id = p₈ i;
        worker_id = p₉ i;
        fencing_token = q₁ i;
        created_at = q₂ i;
      },
  λ e. rw e (
      field_eq_self y.run_id (
        field_eq_self y.seq (
          field_eq_self y.kind (
            field_eq_self y.payload_version (
              field_eq_self y.payload (
                field_eq_self y.idempotency_key (
                  field_eq_self y.causation_id (
                    field_eq_self y.correlation_id (
                      field_eq_self y.worker_id
                        (field_eq_self y.fencing_token (field_eq_self y.created_at refl))))))))))),
)

instance abbrev pub event_eq : Eq Event
event_eq = record { equal = event_beq; equal_iff = event_beq_iff }
