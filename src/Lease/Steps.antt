-- ===== src/Lease/Steps.antt =====
-- Every order of the operations of every worker on the tables (internal/lease/postgres.go): the lock on
-- the row of a run makes each operation one step.
use agent_dock_coedx5_6sol.Prelude.{
  ℕ, ◌≤◌, ℤ, String, Bool, ◌≡◌, ◌≢◌, refl, sym, ap, subst, ◌∙◌, ◌>>=◌, >>=-eq-ok, Option, ok, inl,
  inr, List, arith,
}
use agent_dock_coedx5_6sol.Domain.Types.{EventData, Event}
use agent_dock_coedx5_6sol.Domain.Decide.{Sha256}
use agent_dock_coedx5_6sol.Lease.Types.{
  Worker, Lease, AcquireResult, ActionReceipt, ReceiptRow, LeaseError, ReceiptResult, Database,
  LeaseLibrary,
}
use agent_dock_coedx5_6sol.Lease.Manager.{
  require_row, register, heartbeat, acquire, renew, validate,
}
use agent_dock_coedx5_6sol.Lease.Receipts.{
  record_receipt, lookup_receipt, lookup_with_querier, scan_found,
}
use agent_dock_coedx5_6sol.Lease.Authority.{validate-Holds, require_row-ok}
use agent_dock_coedx5_6sol.Lease.Later.{
  Later, Later-same, Later-trans, register-Later, heartbeat-Later, acquire-Later, renew-Later,
}
use agent_dock_coedx5_6sol.Lease.Evidence.{record_receipt-Later, scan_found-row}

module _ (sha : Sha256) (lib : LeaseLibrary) (is_digest : String → Bool)
    (sensitive : EventData → Bool) where
  -- One operation that succeeds, at any time and for any worker; `outside` is what the rest of the
  -- program does to the other tables.
  pub data Step : Database → Database → Type 0 where
    registered :
        {a b : Database} (now : ℕ) (worker_id : String) (w : Worker)
        → register a now worker_id ≡ ok (b, w)
        → Step a b
    beaten :
        {a b : Database} (now : ℕ) (worker_id : String) (w : Worker)
        → heartbeat a now worker_id ≡ ok (b, w)
        → Step a b
    acquired :
        {a b : Database} (now later : ℕ) (run_id worker_id : String) (ttl : ℤ)
        (result : AcquireResult)
        → acquire lib a now later run_id worker_id ttl ≡ ok (b, result)
        → Step a b
    renewed :
        {a b : Database} (now : ℕ) (presented : Lease) (ttl : ℤ) (lease : Lease)
        → renew lib a now presented ttl ≡ ok (b, lease)
        → Step a b
    recorded :
        {a b : Database} (now later : ℕ) (presented : Lease) (receipt : ActionReceipt)
        (result : ReceiptResult)
        → record_receipt sha lib is_digest sensitive a now later presented receipt ≡ ok (b, result)
        → Step a b
    outside :
        {a : Database} (runs artifacts : String → Bool) (log : String → List Event)
        → Step a (record a { runs = runs; artifacts = artifacts; log = log })

  -- What the tables can become.
  pub data Reach (a : Database) : Database → Type 0 where
    start : Reach a a
    next : {b c : Database} → Reach a b → Step b c → Reach a c

  Step-Later : {a b : Database} → Step a b → Later a b
  Step-Later {a} {b} (registered now worker_id w p) = register-Later a now worker_id p
  Step-Later {a} {b} (beaten now worker_id w p) = heartbeat-Later a now worker_id p
  Step-Later {a} {b} (acquired now later run_id worker_id ttl result p) =
      acquire-Later lib a now later run_id worker_id ttl p
  Step-Later {a} {b} (renewed now presented ttl lease p) = renew-Later lib a now presented ttl p
  Step-Later {a} {b} (recorded now later presented receipt result p) =
      record_receipt-Later sha lib is_digest sensitive a now later presented receipt b result p
  Step-Later {a} (outside runs artifacts log) = Later-same a _ refl refl

  pub Reach-Later : {a b : Database} → Reach a b → Later a b
  Reach-Later {a} start = Later-same a a refl refl
  Reach-Later {a} (next {b} {c} r s) = Later-trans a b c (Reach-Later r) (Step-Later s)

  -- The tokens of the leases that are valid for a run never go down, whatever the workers do between the
  -- two validations, and one token is one worker's.
  pub validate_ordered :
      (a b : Database) (now now' : ℕ) (x y : Lease)
      → Reach a b
      → x.run_id ≡ y.run_id
      → validate a now x ≡ ok tt
      → validate b now' y ≡ ok tt
      → (x.fencing_token ≤ y.fencing_token)
        × (x.fencing_token ≡ y.fencing_token → x.worker_id ≡ y.worker_id)
  validate_ordered a b now now' x y r run p q =
      let (c, h) = validate-Holds a now x p in
      let (d, k) = validate-Holds b now' y q in
      let (e, row, s) = (Reach-Later r).leases x.run_id c h.row in
      let same : e ≡ d = cc (row, ap (λ z. b.leases z) run, k.row) in
      elim s [
        | inl up ↦ (
          omega (arith, up, h.token, k.token, ap (λ (l : Lease). l.fencing_token) same),
          λ t.
              absurd
                (omega (arith, up, t, h.token, k.token, ap (λ (l : Lease). l.fencing_token) same)),
        )
        | inr (token, worker) ↦ (
          omega (arith, token, h.token, k.token, ap (λ (l : Lease). l.fencing_token) same),
          λ t. cc (worker, h.worker, k.worker, ap (λ (l : Lease). l.worker_id) same),
        )
      ]

  -- Once a lease with another token is valid for the run, a lease that was valid before is refused for
  -- good: no later operation of any worker gives it back.
  pub validate_fenced :
      (a b c : Database) (now now' t : ℕ) (old new : Lease)
      → Reach a b
      → Reach b c
      → old.run_id ≡ new.run_id
      → validate a now old ≡ ok tt
      → validate b now' new ≡ ok tt
      → old.fencing_token ≢ new.fencing_token
      → validate c t old ≢ ok tt
  validate_fenced a b c now now' t old new r s run p q other back =
      let up = (validate_ordered a b now now' old new r run p q).0 in
      let down = (validate_ordered b c now' t new old s (sym run) q back).0 in
      other (omega (arith, up, down))

  -- A receipt that a lookup finds is found unchanged ever after.
  pub lookup_receipt-kept :
      (a b : Database) (run_id action_id : String) (x : ActionReceipt)
      → Reach a b
      → lookup_receipt lib a run_id action_id ≡ ok x
      → lookup_receipt lib b run_id action_id ≡ ok x
  unfolding lookup_receipt
  lookup_receipt-kept a b run_id action_id x r p =
      let (found, scanned, p₁) = >>=-eq-ok (lookup_with_querier lib a run_id action_id) _ p in
      let (row, at, reads) = scan_found-row lib _ (scanned ∙ ap ok (require_row-ok _ found p₁)) in
      rw ((Reach-Later r).receipts run_id action_id row at) (
        subst
          (λ (z : Option ReceiptRow).
            (scan_found lib z >>= require_row LeaseError.receipt_not_found) ≡ ok x)
          at p)
