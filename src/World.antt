-- ===== src/World.antt =====
-- The state that the services share, what they call and do not implement, and their calls as
-- actions: an action takes the state, and gives its outcome and the state after it.
pub mod Keeps
use backups_microservice.Prelude.{
  ℕ, ◌≡◌, refl, Bool, true, false, Option, none, some, List, [], ◌∷◌, ◌++◌, length,
}
use backups_microservice.Js.{Text}
use backups_microservice.Errors.{Error, Result, ok, err}
use backups_microservice.Entities.{BackupTarget, BackupJob, BackupRun, RestoreRequest, AuditEvent}
use backups_microservice.Walg.Pipeline.{WalgResult, PipeEvent, PipedCommand}

-- The tables, and whether the two unique indexes of restore requests are installed.
pub record Db : Type 0 where
  pub targets : List BackupTarget
  pub jobs : List BackupJob
  pub runs : List BackupRun
  pub requests : List RestoreRequest
  pub audits : List AuditEvent
  pub active_target_index : Bool
  pub idempotency_index : Bool

-- A notification that was sent, by its event, with the name of the target or job and the
-- identifiers in its details.
pub data Notice : Type 0 where
  backup_succeeded backup_failed verification_pending : Text → Text → Notice
  restore_completed verification_verified restore_failed verification_failed : Text → Text → Notice
  retention_cleanup_succeeded retention_cleanup_failed : Text → Notice

-- WalgEnv: the variables that the child processes get over those of the service.
pub record WalgEnv : Type 0 where
  pub walg_s3_prefix : Text
  pub walg_s3_endpoint_suffix : Text
  pub walg_compression_method : Text
  pub aws_access_key_id : Text
  pub aws_secret_access_key : Text
  pub aws_endpoint : Text
  pub aws_s3_force_path_style : Text
  pub pg_host : Text
  pub pg_port : Text
  pub pg_database : Text
  pub pg_password : Text
  pub pg_user : Text

-- A process that was started: wal-g alone, or the two ends of a pipe.
pub data Command : Type 0 where
  wal_g : WalgEnv → List Text → Command
  piped : WalgEnv → PipedCommand → PipedCommand → Command

-- RestoreSerializationState
pub record RestoreSerializationState : Type 0 where
  pub ready : Bool
  pub reason : Text
  pub checked_at : Option ℕ
  pub duplicate_targets : Option ℕ

-- `in_flight` is the set of RestoreService, newest first. `commands` and `notices` are the processes
-- started and the notifications sent, newest first. `tasks` are the executions of restore requests
-- that were started and not awaited, newest first.
pub record World : Type 0 where
  pub db : Db
  pub serialization : RestoreSerializationState
  pub in_flight : List Text
  pub tasks : List Text
  pub notices : List Notice
  pub commands : List Command

-- `unsettled` is a promise that nothing resolves or rejects.
pub data Outcome {ℓ} (A : Type ℓ) : Type ℓ where
  returned : A → Outcome A
  threw : Error → Outcome A
  unsettled : Outcome A

abbrev pub Action {ℓ} : Type ℓ → Type ℓ
Action A = World → Outcome A × World

-- What the services call and do not implement. `with_backup_run_lock` runs work under the
-- advisory lock of a backup run, and `is_lock_timeout` tells its timeout. `insert_refused` is
-- the database's refusal of a new restore request beyond the rows that the transaction sees,
-- `audit_refused` its refusal of an audit event. `wal_g_result` and `pipe_events` are what the
-- processes do, by how many were started before. `new_id` is a generated primary key,
-- `sha256_hex` the digest, `now` the clock, `env` the process's variables, and `other_number` is
-- `Number` of a text that is no plain decimal numeral, where it is positive, rounded up to a
-- whole number.
pub record External : Type 1 where
  pub with_backup_run_lock : (A : Type 0) → Text → Action A → Action A
  pub is_lock_timeout : Error → Bool
  pub insert_refused : Db → RestoreRequest → Option Error
  pub audit_refused : AuditEvent → Option Error
  pub wal_g_result : ℕ → WalgEnv → List Text → WalgResult
  pub pipe_events : ℕ → List PipeEvent
  pub new_id : Db → Text
  pub sha256_hex : Text → Text
  pub now : World → ℕ
  pub env : Text → Option Text
  pub other_number : Text → Option ℕ

module _ {ℓ} {A : Type ℓ} where
  abbrev pub pure : A → Action A
  pure a w = (returned a, w)

  abbrev pub throw : Error → Action A
  throw e w = (threw e, w)

  abbrev pub gets : (World → A) → Action A
  gets f w = (returned (f w), w)

  abbrev pub lift : Result A → Action A
  lift (ok a) w = (returned a, w)
  lift (err e) w = (threw e, w)

  abbrev pub or_throw : Error → Option A → Action A
  or_throw e none w = (threw e, w)
  or_throw e (some a) w = (returned a, w)

module _ {ℓ κ} {A : Type ℓ} {B : Type κ} where
  abbrev pub proceed : Outcome A → (A → Action B) → Action B
  proceed (returned a) f w = f a w
  proceed (threw e) f w = (threw e, w)
  proceed unsettled f w = (unsettled, w)

  infixl 5 ◌>>=◌ ◌>>◌
  abbrev pub ◌>>=◌ : Action A → (A → Action B) → Action B
  ◌>>=◌ m f w = let (r, w') = m w in proceed r f w'

  abbrev pub ◌>>◌ : Action A → Action B → Action B
  m >> k = m >>= λ _. k

abbrev pub modify : (World → World) → Action (Unit {0})
modify f w = (returned tt, f w)

abbrev pub modify_db : (Db → Db) → Action (Unit {0})
modify_db f w = (returned tt, record w { db = f w.db })

abbrev pub notify : Notice → Action (Unit {0})
notify n w = (returned tt, record w { notices = n ∷ w.notices })

abbrev pub throw_when : Bool → Error → Action (Unit {0})
throw_when true e w = (threw e, w)
throw_when false e w = (returned tt, w)

-- `try { m } catch (e) { handler e }`
module _ {ℓ} {A : Type ℓ} where
  abbrev pub recover : Outcome A → (Error → Action A) → Action A
  recover (returned a) handler w = (returned a, w)
  recover (threw e) handler w = handler e w
  recover unsettled handler w = (unsettled, w)

  abbrev pub catch : Action A → (Error → Action A) → Action A
  catch m handler w = let (r, w') = m w in recover r handler w'

  -- A transaction that failed leaves none of its own writes: the tables are those of `base`.
  abbrev pub commit_or_roll_back : Outcome A → Db → World → Outcome A × World
  commit_or_roll_back (returned a) base w = (returned a, w)
  commit_or_roll_back (threw e) base w = (threw e, record w { db = base })
  commit_or_roll_back unsettled base w = (unsettled, record w { db = base })

-- How a lock is answered: with the tables as they stand when it is granted, after whatever other
-- transactions committed while the caller waited, or with an error.
pub data Grant : Type 0 where
  granted : Db → Grant
  refused : Error → Grant

abbrev pub under_lock : {A : Type 0} → Grant → Action A → Action A
under_lock (refused e) work w = (threw e, w)
under_lock (granted db) work w =
    let (r, w') = work (record w { db = db }) in commit_or_roll_back r db w'

-- The documented behaviour of BackupRunLockService: it opens a transaction, takes the run's advisory
-- lock, which may be refused, and runs the caller's work inside the transaction.
pub record LockRuns (ext : External) : Type 1 where
  pub grant : Text → Db → Grant
  pub runs :
      (A : Type 0) (run_id : Text) (work : Action A) (w : World)
      → ext.with_backup_run_lock A run_id work w ≡ under_lock (grant run_id w.db) work w

-- `m.finally(f)`, which a promise that never settles does not reach.
module _ {ℓ} {A : Type ℓ} where
  abbrev pub finalize : Outcome A → (World → World) → World → Outcome A × World
  finalize (returned a) f w = (returned a, f w)
  finalize (threw e) f w = (threw e, f w)
  finalize unsettled f w = (unsettled, w)

  abbrev pub finally : Action A → (World → World) → Action A
  finally m f w = let (r, w') = m w in finalize r f w'
