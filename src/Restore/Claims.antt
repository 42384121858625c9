-- ===== src/Restore/Claims.antt =====
-- The processes that `executeRestore` of src/restore/restore.service.ts starts, by its claim.
use backups_microservice.Prelude.{
  ℕ, ◌≡◌, refl, ap, ◌∙◌, inl, inr, Bool, true, false, Option, some, List, [], arith, filter,
  Option-cases,
}
use backups_microservice.Js.{Text}
use backups_microservice.Errors.{message, Result, ok, err}
use backups_microservice.Entities.{BackupRun, BackupTarget, RestoreRequest}
use backups_microservice.Storage.{LogicalRestoreLocation}
use backups_microservice.World.{
  World, Command, External, Outcome, returned, threw, unsettled, pure, Grant, granted, refused,
  under_lock, LockRuns, catch, gets, proceed, finalize, ◌>>=◌,
}
use backups_microservice.World.Keeps.{
  Keeps, Keeps-pure, Keeps-gets, Keeps-bind, Keeps-catch, Keeps-lock,
}
use backups_microservice.Repositories.{
  find_request, find_run, find_target, load_run, load_target, load_request, record_audit,
}
use backups_microservice.Restore.Pin.{validate_restore, set_delete}
use backups_microservice.Restore.Terminal.{
  Ending, failed, record_failure, persist_terminal_state, persist_work,
}
use backups_microservice.Restore.Key.{restore_error}
use backups_microservice.Restore.Taken.{claim_work_none}
use backups_microservice.Restore.Execution.{
  claim_outcome, is_claimable, after_claim, claim_work, claim_for_execution, ClaimOutcome, claimed,
  not_pending, deferred, run_execution, execute_validated, execute_restore,
}

-- The processes started stay as they are.
abbrev Quiet : List Command → World → Type 0
Quiet cs w = w.commands ≡ cs

module _ (ext : External) (lock : LockRuns ext) (cs : List Command) where
  persist_work-Quiet :
      (q : RestoreRequest) (r : BackupRun) (t : BackupTarget) (e : Ending) (error : Option Text)
      (now : ℕ)
      → Keeps (Quiet cs) (persist_work ext q r t e error now)
  unfolding persist_work record_audit
  persist_work-Quiet q r t e error now = record { at = λ w h. ground arith }

  persist-Quiet :
      (q : RestoreRequest) (r : BackupRun) (t : BackupTarget) (e : Ending) (error : Option Text)
      → Keeps (Quiet cs) (persist_terminal_state ext q r t e error)
  unfolding persist_terminal_state
  persist-Quiet q r t e error = Keeps-bind (gets ext.now) _ (Keeps-gets ext.now) (λ now.
      Keeps-lock (λ db w h. h) ext lock q.backup_run_id (persist_work ext q r t e error now)
        (persist_work-Quiet q r t e error now))

  record_failure-Quiet :
      (q : RestoreRequest) (r : BackupRun) (t : BackupTarget) (output : Text)
      → Keeps (Quiet cs) (record_failure ext q r t output)
  unfolding record_failure
  record_failure-Quiet q r t output =
      Keeps-bind (persist_terminal_state ext q r t failed (some (restore_error output))) _
        (persist-Quiet q r t failed (some (restore_error output)))
        (λ applied. record { at = λ w h. ground arith })

  claim_work-Quiet :
      (q : RestoreRequest) (r : BackupRun) (t : ℕ) → Keeps (Quiet cs) (claim_work q r t)
  unfolding claim_work
  claim_work-Quiet q r t = record { at = λ w h. ground arith }

  claim-Quiet :
      (q : RestoreRequest) (r : BackupRun) (t : ℕ)
      → Keeps (Quiet cs) (claim_for_execution ext q r t)
  unfolding claim_for_execution
  claim-Quiet q r t =
      Keeps-catch _ _
        (Keeps-bind (ext.with_backup_run_lock Bool q.backup_run_id (claim_work q r t)) _
          (Keeps-lock (λ db w h. h) ext lock q.backup_run_id (claim_work q r t)
            (claim_work-Quiet q r t))
          (λ b. Keeps-pure (claim_outcome b)))
        (λ e. Keeps-pure deferred)

-- No row can be claimed where the lock of the run is answered: it is refused, or the request is not
-- pending in the tables as they stand when it is granted.
abbrev pub Unclaimable : Text → Grant → Type 0
Unclaimable id (refused e) = Unit
Unclaimable id (granted db) = filter (is_claimable id) db.requests ≡ []

-- What is left of a claim, by the answer of the lock.
claim_answer : RestoreRequest → BackupRun → ℕ → Grant → World → Outcome ClaimOutcome
claim_answer q r t g w =
    (catch (under_lock g (claim_work q r t) >>= λ b. pure (claim_outcome b)) (λ e. pure deferred)
      w).0

abbrev is_claimed : Outcome ClaimOutcome → Bool
is_claimed (returned claimed) = true
is_claimed _ = false

claim_answer-unclaimed :
    (q : RestoreRequest) (r : BackupRun) (t : ℕ) (g : Grant) (w : World)
    → Unclaimable q.id g
    → is_claimed (claim_answer q r t g w) ≡ false
unfolding claim_answer
claim_answer-unclaimed q r t (refused e) w h = refl
claim_answer-unclaimed q r t (granted db) w h =
    ground (arith, claim_work_none q r t (record w { db = db }) h)

unclaimed_goes_no_further :
    (ext : External) (q : RestoreRequest) (r : BackupRun) (t : BackupTarget)
    (loc : LogicalRestoreLocation) (now : ℕ) (o : Outcome ClaimOutcome) (w : World)
    → is_claimed o ≡ false
    → (proceed o (after_claim ext q r t loc now) w).1 ≡ w
unfolding after_claim
unclaimed_goes_no_further ext q r t loc now (returned claimed) w h = cc
unclaimed_goes_no_further ext q r t loc now (returned not_pending) w h = refl
unclaimed_goes_no_further ext q r t loc now (returned deferred) w h = refl
unclaimed_goes_no_further ext q r t loc now (threw e) w h = refl
unclaimed_goes_no_further ext q r t loc now unsettled w h = refl

commands_finalize :
    {A : Type 0} (id : Text) (o : Outcome A) (w : World)
    → (finalize o (λ v. record v { in_flight = set_delete id v.in_flight }) w).1.commands
      ≡ w.commands
commands_finalize id (returned a) w = refl
commands_finalize id (threw e) w = refl
commands_finalize id unsettled w = refl

module _ (ext : External) (lock : LockRuns ext) where
  claim-unclaimed :
      (q : RestoreRequest) (r : BackupRun) (now : ℕ) (w : World)
      → Unclaimable q.id (lock.grant q.backup_run_id w.db)
      → is_claimed (claim_for_execution ext q r now w).0 ≡ false
  unfolding claim_for_execution
  claim-unclaimed q r now w h =
      rw (lock.runs Bool q.backup_run_id (claim_work q r now) w) (
        unfold claim_answer in claim_answer-unclaimed q r now (lock.grant q.backup_run_id w.db) w h)

  execute_validated-Quiet :
      (q : RestoreRequest) (r : BackupRun) (t : BackupTarget) (v : Result LogicalRestoreLocation)
      (w : World)
      → Unclaimable q.id (lock.grant q.backup_run_id w.db)
      → (execute_validated ext q r t v w).1.commands ≡ w.commands
  unfolding execute_validated
  execute_validated-Quiet q r t (err e) w h =
      (Keeps-bind (record_failure ext q r t (message e)) _
          (record_failure-Quiet ext lock w.commands q r t (message e)) (λ b. Keeps-pure tt)).at
        w refl
  execute_validated-Quiet q r t (ok loc) w h =
      let (o, w') = claim_for_execution ext q r (ext.now w) w in
      ap (λ (v : World). v.commands)
        (unclaimed_goes_no_further ext q r t loc (ext.now w) o w'
          (claim-unclaimed q r (ext.now w) w h))
      ∙ (claim-Quiet ext lock w.commands q r (ext.now w)).at w refl

  -- An execution starts no process at all unless its claim finds the request pending: where the lock
  -- is refused, or another execution has claimed or ended the request by the time it is granted, no
  -- restore is piped into any database.
  pub no_restore_without_claim :
      (id : Text) (w : World)
      → ((q : RestoreRequest)
          → find_request id w.db.requests ≡ some q
          → Unclaimable q.id (lock.grant q.backup_run_id w.db))
      → (execute_restore ext id w).1.commands ≡ w.commands
  unfolding execute_restore run_execution load_request load_run load_target
  no_restore_without_claim id w h = elim (Option-cases (find_request id w.db.requests)) [
    | inl missing ↦ rw missing
    | inr (q, found) ↦ rw found (elim (Option-cases (find_run q.backup_run_id w.db.runs)) [
      | inl missing ↦ rw missing
      | inr (r, found_run) ↦
          rw found_run (elim (Option-cases (find_target q.target_id w.db.targets)) [
            | inl missing ↦ rw missing
            | inr (t, found_target) ↦ rw found_target (
                let (o, w') = execute_validated ext q r t (validate_restore r t) w in
                commands_finalize id o w'
                ∙ execute_validated-Quiet q r t (validate_restore r t) w (h q found))
          ])
    ])
  ]
