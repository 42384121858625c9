-- ===== src/Reconciliation.antt =====
-- The recovery of stranded restore requests: src/restore/restore-reconciliation.service.ts.
pub mod Decision
use backups_microservice.Prelude.{
  ℕ, ◌+◌, ◌*◌, Bool, true, false, ◌&&◌, ◌||◌, not, Option, none, some, List, [], ◌∷◌, ◌++◌, filter,
  length, ltb, ℤ, pos, sub_ℕ, ltb_ℤ, if◌then◌else◌,
}
use backups_microservice.Js.{Text, text}
use backups_microservice.Entities.{RestoreRequest, RestoreStatus}
use backups_microservice.World.{World, External, Outcome, Action, pure, gets, catch, ◌>>=◌, ◌>>◌}
use backups_microservice.Walg.Listing.{positive_number}
use backups_microservice.Repositories.{is_active}
use backups_microservice.Restore.Pin.{start_execution}
use backups_microservice.Restore.Terminal.{is_in_flight, terminate_stale_request}

abbrev pub default_pending_adopt_ms : ℕ
default_pending_adopt_ms = 60000

abbrev pub default_pending_abandon_ms : ℕ
default_pending_abandon_ms = 6 * 60 * 60 * 1000

abbrev pub default_running_stale_ms : ℕ
default_running_stale_ms = 2 * 60 * 60 * 1000

-- RestoreReconciliationSummary
pub record Summary : Type 0 where
  pub inspected : ℕ
  pub redispatched : ℕ
  pub abandoned : ℕ
  pub interrupted : ℕ
  pub skipped : ℕ

abbrev or_else : Option ℕ → ℕ → ℕ
or_else none d = d
or_else (some a) d = a

-- The three windows of `reconcile`, in milliseconds.
pub record Windows : Type 0 where
  pub adopt_after : ℕ
  pub abandon_after : ℕ
  pub stale_after : ℕ

env_number : External → Option Text → Option ℕ
env_number ext none = none
env_number ext (some s) = positive_number ext.other_number s

-- envMs: a variable that `Number` reads as a finite positive number, or the fallback. A window that is
-- no whole number is held rounded up: the ages are whole, and are below the one just where they are
-- below the other.
unfoldable pub env_ms : External → Text → ℕ → ℕ
unfolding env_number
env_ms ext name fallback = or_else (env_number ext (ext.env name)) fallback

unfoldable pub env_windows : External → Windows
unfolding env_ms
env_windows ext = record {
  adopt_after = env_ms ext (text "RESTORE_PENDING_ADOPT_MS") default_pending_adopt_ms;
  abandon_after = env_ms ext (text "RESTORE_PENDING_ABANDON_MS") default_pending_abandon_ms;
  stale_after = env_ms ext (text "RESTORE_RUNNING_STALE_MS") default_running_stale_ms;
}

-- The time that an age counts from. Every row has a time of creation.
unfoldable pub age_basis : RestoreRequest → ℕ
age_basis request = basis request.status
  where
    basis : RestoreStatus → ℕ
    basis RestoreStatus.running = or_else request.started_at request.created_at
    basis _ = request.created_at

-- ageMs, which is negative for a time that is still to come
unfoldable pub age_ms : RestoreRequest → ℕ → ℤ
unfolding age_basis
age_ms request now = sub_ℕ now (age_basis request)

pub data Verdict : Type 0 where
  skip interrupt abandon redispatch : Verdict

unfoldable pub decide_by_age : RestoreStatus → Windows → ℤ → Verdict
decide_by_age RestoreStatus.running w age =
    if ltb_ℤ age (pos w.stale_after) then skip else interrupt
decide_by_age _ w age =
    if ltb_ℤ age (pos w.adopt_after)
    then skip
    else if ltb_ℤ age (pos w.abandon_after)
    then redispatch
    else abandon

-- What one round of the loop decides for a request.
unfoldable pub decide : Windows → ℕ → Bool → RestoreRequest → Verdict
unfolding decide_by_age age_ms
decide windows now running request =
    if running then skip else decide_by_age request.status windows (age_ms request now)

unfoldable pub interrupted_message : Text
interrupted_message =
    text
      "Restore execution was interrupted before it reported an outcome. The single-transaction pg_restore rolled back; request a new restore to retry."

unfoldable pub expired_message : Text
expired_message =
    text
      "Restore approval expired before execution started. Request a new approved restore to retry."

unfoldable count_skipped : Summary → Summary
count_skipped s = record s { skipped = s.skipped + 1 }

unfoldable count_interrupted : Bool → Summary → Summary
unfolding count_skipped
count_interrupted true s = record s { interrupted = s.interrupted + 1 }
count_interrupted false s = count_skipped s

unfoldable count_abandoned : Bool → Summary → Summary
unfolding count_skipped
count_abandoned true s = record s { abandoned = s.abandoned + 1 }
count_abandoned false s = count_skipped s

module _ (ext : External) where
  unfoldable act : RestoreRequest → Summary → Verdict → Action Summary
  unfolding count_skipped count_interrupted count_abandoned
  act request s skip = pure (count_skipped s)
  act request s interrupt = do
    failed ← terminate_stale_request ext request.id RestoreStatus.running interrupted_message
    pure (count_interrupted failed s)
  act request s abandon = do
    failed ← terminate_stale_request ext request.id RestoreStatus.pending expired_message
    pure (count_abandoned failed s)
  act request s redispatch = do
    start_execution request.id
    pure (record s { redispatched = s.redispatched + 1 })

  -- One round of the loop.
  unfoldable pub reconcile_one : Windows → ℕ → RestoreRequest → Summary → Action Summary
  unfolding act
  reconcile_one windows now request s = do
    running ← gets (is_in_flight request.id)
    act request s (decide windows now running request)

  unfoldable pub reconcile_all : Windows → ℕ → List RestoreRequest → Summary → Action Summary
  reconcile_all windows now [] s = pure s
  reconcile_all windows now (request ∷ requests) s = do
    t ← reconcile_one windows now request s
    reconcile_all windows now requests t

  unfoldable pub reconcile : ℕ → Action Summary
  unfolding env_windows
  reconcile now = do
    stranded ← gets (λ w. filter (λ q. is_active q.status) w.db.requests)
    reconcile_all (env_windows ext) now stranded (record {
      inspected = length stranded;
      redispatched = 0;
      abandoned = 0;
      interrupted = 0;
      skipped = 0;
    })

  -- scheduledReconcile, which logs an error
  unfoldable pub scheduled_reconcile : Action (Unit {0})
  scheduled_reconcile = do now ← gets ext.now; catch (reconcile now >>= λ s. pure tt) (λ e. pure tt)
