-- ===== src/Lease/Authority.antt =====
-- Who has authority over a run, and who can get it (internal/lease/postgres.go).
use agent_dock_coedx5_6sol.Prelude.{
  ℕ, ◌+◌, ◌<◌, ℤ, String, string_eq, nat_eq, Bool, true, false, not, ◌≡◌, ◌≢◌, refl, ◌∙◌, ap, subst,
  ◌==◌, ◌!=◌, ◌||◌, leb, ltb, Option, none, some, ok, >>=-eq-ok, through, skip, none_of, eq_of_!=,
  holds_of_not, arith, put_self, !=_self,
}
use agent_dock_coedx5_6sol.Lease.Types.{
  Worker, Lease, AcquireResult, LeaseError, Database, LeaseLibrary, max_fencing_token, is_positive,
}
use agent_dock_coedx5_6sol.Lease.Manager.{
  require_row, live, lease_authority_error, validate_presented_lease, validate_lease_in_tx,
  validate, acquire, next_lease, granted, write_lease,
}

pub require_row-ok :
    {A : Type 0} (e : LeaseError) (o : Option A) {a : A} → require_row e o ≡ ok a → o ≡ some a
require_row-ok e none h = cc h
require_row-ok e (some a) h = cc h

-- What a presented lease and the row of its run agree on.
pub record Holds (db : Database) (now : ℕ) (presented current : Lease) : Type 0 where
  pub row : db.leases presented.run_id ≡ some current
  pub worker : current.worker_id ≡ presented.worker_id
  pub token : current.fencing_token ≡ presented.fencing_token
  pub alive : live current now ≡ true

pub validate_lease_in_tx-Holds :
    (db : Database) (now : ℕ) (presented : Lease) {current : Lease}
    → validate_lease_in_tx db now presented ≡ ok current
    → Holds db now presented current
unfolding validate_lease_in_tx
validate_lease_in_tx-Holds db now presented p =
    let (c, row, p₁) =
      >>=-eq-ok (require_row LeaseError.lease_not_found (db.leases presented.run_id)) _ p in
    let (passed, p₂) =
      through
        (c.worker_id != presented.worker_id
          || c.fencing_token != presented.fencing_token
          || not (live c now))
        (lease_authority_error presented c (not (live c now))) _ p₁ in
    let (same, alive) =
      none_of (c.worker_id != presented.worker_id || c.fencing_token != presented.fencing_token) _
        passed in
    let (worker, token) = none_of (c.worker_id != presented.worker_id) _ same in
    let at : c ≡ _ = cc p₂ in
    subst (Holds db now presented) at (record {
      row = require_row-ok _ _ row;
      worker = eq_of_!= _ _ worker;
      token = eq_of_!= _ _ token;
      alive = holds_of_not _ alive;
    })

pub validate-Holds :
    (db : Database) (now : ℕ) (presented : Lease)
    → validate db now presented ≡ ok tt
    → (current : Lease) × Holds db now presented current
unfolding validate
validate-Holds db now presented p =
    let (u, shape, p₁) = >>=-eq-ok (validate_presented_lease presented) _ p in
    let (c, held, p₂) = >>=-eq-ok (validate_lease_in_tx db now presented) _ p₁ in
    (c, validate_lease_in_tx-Holds db now presented held)

-- Two leases of one run that are valid for the same tables, at whatever times, have one worker and one
-- token.
pub validate_unique :
    (db : Database) (now now' : ℕ) (a b : Lease)
    → a.run_id ≡ b.run_id
    → validate db now a ≡ ok tt
    → validate db now' b ≡ ok tt
    → (a.worker_id ≡ b.worker_id) × (a.fencing_token ≡ b.fencing_token)
validate_unique db now now' a b run p q =
    let (c, h) = validate-Holds db now a p in
    let (d, k) = validate-Holds db now' b q in
    let same : c ≡ d = cc (h.row, ap (λ r. db.leases r) run, k.row) in
    (cc (h.worker, k.worker, same), cc (h.token, k.token, same))

-- The tests of Acquire on its arguments and on the rows of the worker and the run.
abbrev pub MayAcquire : Database → String → String → ℤ → Type 0
MayAcquire db run_id worker_id ttl =
    ((run_id == "" || worker_id == "" || not (is_positive ttl)) ≡ false)
    × ((w : Worker) × (db.workers worker_id ≡ some w))
    × (db.runs run_id ≡ true)

grows : (now n : ℕ) → 0 < n → ltb now (now + n) ≡ true
grows now n h = ground arith

shape :
    (p q r : Bool) (n k : ℕ)
    → (p || q || r) ≡ false
    → leb k n ≡ false
    → (p || q || (n + 1) == 0 || ltb k (n + 1)) ≡ false
shape p q r n k h room = ground arith

module _ (lib : LeaseLibrary) (db : Database) (now later : ℕ) (run_id worker_id : String) (ttl : ℤ)
    (may : MayAcquire db run_id worker_id ttl) (current : Lease)
    (row : db.leases run_id ≡ some current) where
  to_locked :
      acquire lib db now later run_id worker_id ttl
      ≡ next_lease lib db now later run_id worker_id ttl current
  unfolding acquire
  to_locked =
      skip (run_id == "" || worker_id == "" || not (is_positive ttl)) _ _ may.0
      ∙ rw (may.1.1, may.2, row) refl

  taken : Database × AcquireResult
  taken =
      let lease = granted lib run_id worker_id (current.fencing_token + 1) later ttl in
      (write_lease db lease, record { lease = lease; acquired = true; took_over = true })

  acquire-taken :
      live current now ≡ false
      → leb max_fencing_token current.fencing_token ≡ false
      → acquire lib db now later run_id worker_id ttl ≡ ok taken
  unfolding next_lease taken
  acquire-taken dead room = to_locked ∙ rw (dead, room) refl

  taken_row : taken.0.leases run_id ≡ some taken.1.lease
  unfolding taken
  taken_row = put_self db.leases run_id _

  taken_live : 0 < lib.interval ttl → live taken.1.lease later ≡ true
  unfolding taken
  taken_live lasts = grows later (lib.interval ttl) lasts

  taken_valid :
      0 < lib.interval ttl
      → leb max_fencing_token current.fencing_token ≡ false
      → validate taken.0 later taken.1.lease ≡ ok tt
  unfolding validate validate_presented_lease validate_lease_in_tx taken
  taken_valid lasts room =
      skip
        (run_id == ""
          || worker_id == ""
          || (current.fencing_token + 1) == 0
          || ltb max_fencing_token (current.fencing_token + 1))
        _ _
        (shape (run_id == "") (worker_id == "") (not (is_positive ttl)) current.fencing_token
          max_fencing_token may.0 room)
      ∙ rw (put_self db.leases run_id taken.1.lease)
          (rw (!=_self worker_id, !=_self (current.fencing_token + 1), taken_live lasts) refl)

  -- A registered worker takes over the expired lease of a run, unless the tokens are exhausted, for a
  -- duration that the database does not round to nothing: it gets the next token, its lease is valid at
  -- the time of the write, and the expired one never is.
  pub acquire-take_over :
      0 < lib.interval ttl
      → live current now ≡ false
      → leb max_fencing_token current.fencing_token ≡ false
      → current.run_id ≡ run_id
      → (after_db : Database) × (result : AcquireResult) × (acquire lib db now later run_id
            worker_id ttl
          ≡ ok (after_db, result))
        × (result.lease.fencing_token ≡ current.fencing_token + 1)
        × (validate after_db later result.lease ≡ ok tt)
        × ((t : ℕ) → validate after_db t current ≢ ok tt)
  unfolding taken
  acquire-take_over lasts dead room run = (
    taken.0,
    taken.1,
    acquire-taken dead room,
    refl,
    taken_valid lasts room,
    λ t p.
        let (c, h) = validate-Holds taken.0 t current p in
        let same : c ≡ taken.1.lease = cc (h.row, ap (λ r. taken.0.leases r) run, taken_row) in
        absurd (omega (arith, h.token, ap (λ (l : Lease). l.fencing_token) same)),
  )
