-- ===== src/Lease/Later.antt =====
-- What every operation on the tables keeps (internal/lease/postgres.go).
use agent_dock_coedx5_6sol.Prelude.{
  ℕ, ◌+◌, ◌<◌, ℤ, String, string_eq, not, ◌≡◌, refl, sym, ◌∙◌, ap, subst, ◌==◌, ◌||◌, Option, none,
  some, ok, ◌⊎◌, inl, inr, List, [], ◌∷◌, ◌++◌, ◌&&◌, >>=-eq-ok, through, ok-injective, arith,
  Bool-cases, eq_of_==, put, put_self, put_other, leb, if_true, if_false,
}
use agent_dock_coedx5_6sol.Lease.Types.{
  Worker, Lease, AcquireResult, ReceiptRow, LeaseError, Database, LeaseLibrary, max_fencing_token,
  is_positive, after,
}
use agent_dock_coedx5_6sol.Lease.Manager.{
  require_row, is_some, live, register, heartbeat, validate_presented_lease, validate_lease_in_tx,
  renew, acquire, acquire_locked, first_lease, next_lease, granted, unresolved_legacy_action,
}
use agent_dock_coedx5_6sol.Lease.Receipts.{find_receipt}
use agent_dock_coedx5_6sol.Lease.Authority.{validate_lease_in_tx-Holds}

-- A later lease of a run has a greater token, or is the same worker's with the same token.
abbrev pub Succeeds : Lease → Lease → Type 0
Succeeds c d =
    (c.fencing_token < d.fencing_token)
    ⊎ ((c.fencing_token ≡ d.fencing_token) × (c.worker_id ≡ d.worker_id))

-- What later tables keep: every lease has a successor, and every receipt is there.
pub record Later (a b : Database) : Type 0 where
  pub leases :
      (r : String) (c : Lease)
      → a.leases r ≡ some c
      → (d : Lease) × (b.leases r ≡ some d) × Succeeds c d
  pub receipts :
      (r action : String) (x : ReceiptRow)
      → find_receipt a.receipts r action ≡ some x
      → find_receipt b.receipts r action ≡ some x

pub Succeeds-refl : (c : Lease) → Succeeds c c
Succeeds-refl c = inr (refl, refl)

Succeeds-trans : (c d e : Lease) → Succeeds c d → Succeeds d e → Succeeds c e
Succeeds-trans c d e p q = ground arith

pub Later-same : (a b : Database) → b.leases ≡ a.leases → b.receipts ≡ a.receipts → Later a b
Later-same a b p q = record {
  leases = λ r c h. (c, ap (λ t. t r) p ∙ h, Succeeds-refl c);
  receipts = λ r action x h. ap (λ t. find_receipt t r action) q ∙ h;
}

pub Later-trans : (a b c : Database) → Later a b → Later b c → Later a c
Later-trans a b c p q = record {
  leases = λ r l h.
      let (d, row, s) = p.leases r l h in
      let (e, row', s') = q.leases r d row in (e, row', Succeeds-trans l d e s s');
  receipts = λ r action x h. q.receipts r action x (p.receipts r action x h);
}

-- A write of one lease.
pub Later-put :
    (a : Database) (run_id : String) (lease : Lease)
    → ((c : Lease) → a.leases run_id ≡ some c → Succeeds c lease)
    → Later a (record a { leases = put a.leases run_id lease })
Later-put a run_id lease next = record {
  leases = λ r c h. elim (Bool-cases (r == run_id)) [
    | inl same ↦
        let at = eq_of_== r run_id same in
        (
          lease,
          ap (put a.leases run_id lease) at ∙ put_self a.leases run_id lease,
          next c (sym (ap a.leases at) ∙ h),
        )
    | inr other ↦ (c, put_other a.leases run_id lease r other ∙ h, Succeeds-refl c)
  ];
  receipts = λ r action x h. h;
}

pub find-append :
    (xs ys : List ReceiptRow) (r action : String) {x : ReceiptRow}
    → find_receipt xs r action ≡ some x
    → find_receipt (xs ++ ys) r action ≡ some x
unfolding find_receipt
find-append [] ys r action h = cc h
find-append (z ∷ xs) ys r action {x} h =
    elim (Bool-cases (z.run_id == r && z.action_id == action)) [
      | inl here ↦ if_true _ _ _ here ∙ (sym (if_true _ _ _ here) ∙ h)
      | inr there ↦
          if_false _ _ _ there ∙ find-append xs ys r action (sym (if_false _ _ _ there) ∙ h)
    ]

module _ (lib : LeaseLibrary) (db : Database) (now later : ℕ) (run_id worker_id : String) (ttl : ℤ)
    {b : Database} {result : AcquireResult} where
  first-Later :
      (legacy : Option String)
      → db.leases run_id ≡ none
      → first_lease lib db later run_id worker_id ttl legacy ≡ ok (b, result)
      → Later db b
  first-Later (some action) absent p = cc
  first-Later none absent p =
      subst (Later db) (ap (λ z. z.0) (ok-injective p))
        (Later-put db run_id (granted lib run_id worker_id 1 later ttl) (λ c h. cc (absent, h)))

  next-Later :
      (current : Lease)
      → db.leases run_id ≡ some current
      → next_lease lib db now later run_id worker_id ttl current ≡ ok (b, result)
      → Later db b
  unfolding next_lease
  next-Later current row p = elim (Bool-cases (live current now)) [
    | inl alive ↦ elim (Bool-cases (current.worker_id == worker_id)) [
      | inl own ↦
          let q = sym (if_true _ _ _ own) ∙ (sym (if_true _ _ _ alive) ∙ p) in
          subst (Later db) (ap (λ z. z.0) (ok-injective q)) (Later-same db db refl refl)
      | inr other ↦ let q = sym (if_false _ _ _ other) ∙ (sym (if_true _ _ _ alive) ∙ p) in cc q
    ]
    | inr dead ↦
        let (room, q) =
          through (leb max_fencing_token current.fencing_token) LeaseError.invalid_lease _
            (sym (if_false _ _ _ dead) ∙ p) in
        subst (Later db) (ap (λ z. z.0) (ok-injective q)) (
          Later-put db run_id (granted lib run_id worker_id (current.fencing_token + 1) later ttl)
            (λ c h. successor current c (cc (row, h))))
  ]
    where
      successor :
          (x c : Lease)
          → x ≡ c
          → Succeeds c (granted lib run_id worker_id (x.fencing_token + 1) later ttl)
      successor x c e = inl (rw e (omega arith))

  locked-Later :
      (row : Option Lease)
      → db.leases run_id ≡ row
      → acquire_locked lib db now later run_id worker_id ttl row ≡ ok (b, result)
      → Later db b
  locked-Later none absent p = first-Later (unresolved_legacy_action (db.log run_id)) absent p
  locked-Later (some current) row p = next-Later current row p

  pub acquire-Later : acquire lib db now later run_id worker_id ttl ≡ ok (b, result) → Later db b
  unfolding acquire
  acquire-Later p =
      let (shape, p₁) =
        through (run_id == "" || worker_id == "" || not (is_positive ttl)) LeaseError.invalid_lease
          _ p in
      let (w, worker, p₂) =
        >>=-eq-ok (require_row LeaseError.worker_not_found (db.workers worker_id)) _ p₁ in
      let (run, p₃) = through (not (db.runs run_id)) LeaseError.run_not_found _ p₂ in
      locked-Later (db.leases run_id) refl p₃

pub renew-Later :
    (lib : LeaseLibrary) (db : Database) (now : ℕ) (presented : Lease) (ttl : ℤ) {b : Database}
    {lease : Lease}
    → renew lib db now presented ttl ≡ ok (b, lease)
    → Later db b
unfolding renew
renew-Later lib db now presented ttl p =
    let (u, shape, p₁) = >>=-eq-ok (validate_presented_lease presented) _ p in
    let (positive, p₂) = through (not (is_positive ttl)) LeaseError.invalid_lease _ p₁ in
    let (current, held, p₃) = >>=-eq-ok (validate_lease_in_tx db now presented) _ p₂ in
    let h = validate_lease_in_tx-Holds db now presented held in
    subst (Later db) (ap (λ z. z.0) (ok-injective p₃)) (
      Later-put db presented.run_id
        (record current { expires_at = after lib now ttl; heartbeat_at = now })
        (λ c row. same c current (cc (row, h.row))))
  where
    same :
        (c x : Lease)
        → c ≡ x
        → Succeeds c (record x { expires_at = after lib now ttl; heartbeat_at = now })
    same c x e = inr (ap (λ (l : Lease). l.fencing_token) e, ap (λ (l : Lease). l.worker_id) e)

pub register-Later :
    (db : Database) (now : ℕ) (worker_id : String) {b : Database} {w : Worker}
    → register db now worker_id ≡ ok (b, w)
    → Later db b
unfolding register
register-Later db now worker_id p =
    let (named, p₁) = through (worker_id == "") LeaseError.invalid_lease _ p in
    let (new, p₂) = through (is_some (db.workers worker_id)) LeaseError.worker_registered _ p₁ in
    subst (Later db) (ap (λ z. z.0) (ok-injective p₂)) (Later-same db _ refl refl)

pub heartbeat-Later :
    (db : Database) (now : ℕ) (worker_id : String) {b : Database} {w : Worker}
    → heartbeat db now worker_id ≡ ok (b, w)
    → Later db b
unfolding heartbeat
heartbeat-Later db now worker_id p =
    let (named, p₁) = through (worker_id == "") LeaseError.invalid_lease _ p in
    let (found, row, p₂) =
      >>=-eq-ok (require_row LeaseError.worker_not_found (db.workers worker_id)) _ p₁ in
    subst (Later db) (ap (λ z. z.0) (ok-injective p₂)) (Later-same db _ refl refl)
