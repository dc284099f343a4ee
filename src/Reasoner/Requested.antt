-- ===== src/Reasoner/Requested.antt =====
-- What the model gets of a validated request (internal/reasoner/reasoner.go).
use agent_dock_coedx5_6sol.Prelude.{
  ℕ, suc, ℤ, String, string_eq, nat_eq, Bool, true, false, not, ◌≡◌, ◌≢◌, refl, sym, ◌∙◌, ap, subst,
  arith, ◌||◌, ◌==◌, ◌!=◌, List, [], ◌∷◌, any, Memᴰ, head, tail, ◌⊎◌, inl, inr, ok, >>=-eq-ok,
  through, eq_of_!=, ==_self, is_positive, if_true, if_false, Bool-cases, any_of_Memᴰ,
}
use agent_dock_coedx5_6sol.Reasoner.Types.{Role, Message, Contract, Request}
use agent_dock_coedx5_6sol.Reasoner.Requests.{
  system_contract, RequestError, is_empty, validate_tools, bad_for_role, validate_messages,
  validate_phase5_request, plain_message, is_contract, without_contract, messages_for_model,
}
use agent_dock_coedx5_6sol.Reasoner.Turns.{Memᴰ-snoc}

-- No element of a list comes twice under its name.
pub data AllDistinct : List Contract → Type 0 where
  none : AllDistinct []
  more :
      {c : Contract} {rest : List Contract}
      → ((d : Contract) → Memᴰ d rest → d.name ≢ c.name)
      → AllDistinct rest
      → AllDistinct (c ∷ rest)

validate_tools-unseen :
    (seen : List String) (tools : List Contract)
    → validate_tools seen tools ≡ ok tt
    → (d : Contract) → Memᴰ d tools
    → (name : String) → Memᴰ name seen
    → d.name ≢ name
unfolding validate_tools
validate_tools-unseen seen [] p d m name k = elim m [ ]
validate_tools-unseen seen (c ∷ rest) p d (head e) name k =
    let (valid, p₁) = through (not c.is_valid) RequestError.bad_contract _ p in
    let (fresh, p₂) =
      through (any (λ x. x == c.name) seen) (RequestError.duplicate_contract c.name) _ p₁ in
    λ same.
      let at : c.name ≡ name = sym (ap (λ (x : Contract). x.name) e) ∙ same in
      let hit : (name == c.name) ≡ true = ap (λ x. name == x) at ∙ ==_self name in
      cc (fresh, any_of_Memᴰ (λ x. x == c.name) seen k hit)
validate_tools-unseen seen (c ∷ rest) p d (tail m) name k =
    let (valid, p₁) = through (not c.is_valid) RequestError.bad_contract _ p in
    let (fresh, p₂) =
      through (any (λ x. x == c.name) seen) (RequestError.duplicate_contract c.name) _ p₁ in
    validate_tools-unseen (c.name ∷ seen) rest p₂ d m name (tail k)

validate_tools-AllDistinct :
    (seen : List String) (tools : List Contract)
    → validate_tools seen tools ≡ ok tt
    → AllDistinct tools
unfolding validate_tools
validate_tools-AllDistinct seen [] p = AllDistinct.none
validate_tools-AllDistinct seen (c ∷ rest) p =
    let (valid, p₁) = through (not c.is_valid) RequestError.bad_contract _ p in
    let (fresh, p₂) =
      through (any (λ x. x == c.name) seen) (RequestError.duplicate_contract c.name) _ p₁ in
    AllDistinct.more (λ d m. validate_tools-unseen (c.name ∷ seen) rest p₂ d m c.name (head refl))
      (validate_tools-AllDistinct (c.name ∷ seen) rest p₂)

-- A message that is not of the system.
pub NotSystem : Message → Type 0
NotSystem m = m.role ≢ Role.system

first_of_five : (a b c d e : Bool) → (a || b || c || d || e) ≡ false → a ≡ false
first_of_five a b c d e h = ground arith

module _ (json_valid : String → Bool) where
  later_role :
      (index : ℕ) (m : Message) (role : Role)
      → bad_for_role json_valid (suc index) m role ≡ false
      → role ≢ Role.system
  later_role index m Role.system h =
      let late : (suc index != 0) ≡ false = first_of_five _ _ _ _ _ h in
      λ e. absurd (omega (arith, eq_of_!= (suc index) 0 late))
  later_role index m _ h = λ e. cc e

  first_role :
      (m : Message) (role : Role)
      → bad_for_role json_valid 0 m role ≡ false
      → (is_contract m role ≡ true) ⊎ (role ≢ Role.system)
  first_role m Role.system h = inl (ground arith)
  first_role m Role.user h = inr (λ e. cc e)
  first_role m Role.assistant h = inr (λ e. cc e)
  first_role m Role.tool h = inr (λ e. cc e)
  first_role m (Role.other name) h = inr (λ e. cc e)

  later-NotSystem :
      (index : ℕ) (messages : List Message)
      → validate_messages json_valid (suc index) messages ≡ ok tt
      → (m : Message) → Memᴰ m (without_contract messages)
      → NotSystem m
  unfolding validate_messages without_contract NotSystem
  later-NotSystem index [] p m k = elim k [ ]
  later-NotSystem index (x ∷ rest) p m k =
      let (fits, p₁) =
        through (bad_for_role json_valid (suc index) x x.role)
          (RequestError.bad_message (suc index)) _ p in
      elim (Bool-cases (is_contract x x.role)) [
        | inl same ↦ later-NotSystem (suc index) rest p₁ m (subst (Memᴰ m) (if_true _ _ _ same) k)
        | inr differs ↦ elim (subst (Memᴰ m) (if_false _ _ _ differs) k) [
          | head e ↦ λ s. later_role index x x.role fits (sym (ap (λ (y : Message). y.role) e) ∙ s)
          | tail n ↦ later-NotSystem (suc index) rest p₁ m n
        ]
      ]

  all-NotSystem :
      (messages : List Message)
      → validate_messages json_valid 0 messages ≡ ok tt
      → (m : Message) → Memᴰ m (without_contract messages)
      → NotSystem m
  unfolding validate_messages without_contract NotSystem
  all-NotSystem [] p m k = elim k [ ]
  all-NotSystem (x ∷ rest) p m k =
      let (fits, p₁) =
        through (bad_for_role json_valid 0 x x.role) (RequestError.bad_message 0) _ p in
      elim (first_role x x.role fits) [
        | inl same ↦ later-NotSystem 0 rest p₁ m (subst (Memᴰ m) (if_true _ _ _ same) k)
        | inr other ↦ elim (Bool-cases (is_contract x x.role)) [
          | inl same ↦ later-NotSystem 0 rest p₁ m (subst (Memᴰ m) (if_true _ _ _ same) k)
          | inr differs ↦ elim (subst (Memᴰ m) (if_false _ _ _ differs) k) [
            | head e ↦ λ s. other (sym (ap (λ (y : Message). y.role) e) ∙ s)
            | tail n ↦ later-NotSystem 0 rest p₁ m n
          ]
        ]
      ]

  -- Of a request that ValidatePhase5Request accepts, the tools have different names, and the messages for
  -- the model start with the system contract, which is the only message of the system among them.
  pub validate_phase5_request-authority :
      (runtime_data : String → String → ℤ → String) (request : Request)
      → validate_phase5_request json_valid request ≡ ok tt
      → AllDistinct request.tools
        × (rest : List Message) × (messages_for_model runtime_data request
            ≡ plain_message Role.system system_contract ∷ rest)
        × ((m : Message) → Memᴰ m rest → NotSystem m)
  unfolding validate_phase5_request messages_for_model NotSystem
  validate_phase5_request-authority runtime_data request p =
      let (summary, p₁) = through (request.task_summary == "") RequestError.no_summary _ p in
      let (budget, p₂) =
        through (not (is_positive request.token_limit)) RequestError.no_budget _ p₁ in
      let (some_tool, p₃) = through (is_empty request.tools) RequestError.no_tools _ p₂ in
      let (u, tools, p₄) = >>=-eq-ok (validate_tools [] request.tools) _ p₃ in
      (
        validate_tools-AllDistinct [] request.tools tools,
        _,
        refl,
        λ m k. elim (Memᴰ-snoc (without_contract request.messages) k) [
          | inl n ↦ all-NotSystem request.messages p₄ m n
          | inr e ↦ λ s. cc (sym (ap (λ (y : Message). y.role) e) ∙ s)
        ],
      )
