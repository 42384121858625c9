-- ===== src/Restore/Steps.antt =====
-- The transactions of src/restore/restore.service.ts and src/retention/retention.service.ts as steps.
use backups_microservice.Prelude.{ℕ, ◌≡◌, true, Option, none, some, List, arith}
use backups_microservice.Js.{Text, text}
use backups_microservice.Errors.{bad_request}
use backups_microservice.Entities.{BackupRun, BackupTarget, RestoreRequest}
use backups_microservice.World.{
  Db, World, WalgEnv, External, Outcome, returned, threw, unsettled, Action, granted, under_lock,
  lift, or_throw, gets, commit_or_roll_back,
}
use backups_microservice.World.Keeps.{
  Keeps, Keeps-pure, Keeps-gets, Keeps-bind, Keeps-lift, Keeps-or_throw,
}
use backups_microservice.Repositories.{find_active, find_run, find_by_key}
use backups_microservice.Storage.{assert_restorable_run, logical_restore_location}
use backups_microservice.Walg.{delete_logical_object, reject_unsafe_object, run}
use backups_microservice.Restore.Key.{CreateRestoreDto}
use backups_microservice.Restore.Pin.{
  create_pin_work, replay_or_insert, insert_pin, assert_replay_matches,
}
use backups_microservice.Restore.Terminal.{Ending, persist_work}
use backups_microservice.Restore.Execution.{claim_work}
use backups_microservice.Retention.{delete_expired_object, delete_object, judge_fresh}

-- A transaction that is run against the tables of `w`.
abbrev pub transaction : {A : Type 0} → Action A → World → World
transaction work w = (under_lock (granted w.db) work w).1

delete_expired_object-db :
    (ext : External) (env : WalgEnv) (r : BackupRun) (o : Text) (w : World)
    → (runs : List BackupRun) × ((delete_expired_object ext env r o w).1.db
        ≡ record w.db { runs = runs })
unfolding delete_expired_object judge_fresh delete_object delete_logical_object reject_unsafe_object
    run
delete_expired_object-db ext env r o w =
    ((delete_expired_object ext env r o w).1.db.runs, ground arith)

module _ (ext : External) (P : Db → Type 0) where
  abbrev pub OfDb : World → Type 0
  OfDb w = P w.db

  pub Keeps-transaction :
      {A : Type 0} (work : Action A) (w : World)
      → Keeps OfDb work
      → P w.db
      → P (transaction work w).db
  Keeps-transaction {A} work w k h = let (o, w') = work w in committed o w' (k.at w h)
    where
      committed : (o : Outcome A) (w' : World) → OfDb w' → OfDb (commit_or_roll_back o w.db w').1
      committed (returned a) w' k' = k'
      committed (threw e) w' k' = h
      committed unsettled w' k' = h

  pub Keeps-delete :
      (env : WalgEnv) (r : BackupRun) (o : Text)
      → ((db : Db) (runs : List BackupRun) → P db → P (record db { runs = runs }))
      → Keeps OfDb (delete_expired_object ext env r o)
  Keeps-delete env r o kept = record {
    at = λ w h. let (runs, e) = delete_expired_object-db ext env r o w in rw e (kept w.db runs h);
  }

  module _ (dto : CreateRestoreDto) (by key : Text) (target : BackupTarget) (r : BackupRun)
      (inserted : (w : World)
        → P w.db
        → OfDb
            (insert_pin ext dto by key target r
              (find_active dto.target_id w.db.requests)
              w).1) where
    replay_or_insert-Keeps :
        (o : Option RestoreRequest) → Keeps OfDb (replay_or_insert ext dto by key target r o)
    unfolding replay_or_insert
    replay_or_insert-Keeps (some q) =
        Keeps-bind (assert_replay_matches q dto by) _
          (record { at = λ w h. unfold assert_replay_matches in ground arith })
          (λ a. Keeps-pure (record { request = a; replayed = true }))
    replay_or_insert-Keeps none = record { at = inserted }

    pub Keeps-create_pin_work : Keeps OfDb (create_pin_work ext dto by key target r)
    unfolding create_pin_work
    Keeps-create_pin_work =
        Keeps-bind (gets (λ w. find_run dto.backup_run_id w.db.runs)) _ (Keeps-gets _) (λ found.
          Keeps-bind (or_throw (bad_request (text "Backup run no longer exists.")) found) _
            (Keeps-or_throw _ found)
            (λ locked.
              Keeps-bind (lift (assert_restorable_run locked)) _
                (Keeps-lift (assert_restorable_run locked))
                (λ u.
                  Keeps-bind (lift (logical_restore_location locked)) _
                    (Keeps-lift (logical_restore_location locked))
                    (λ v.
                      Keeps-bind (gets (λ w. find_by_key key w.db.requests)) _ (Keeps-gets _)
                        replay_or_insert-Keeps))))

-- A transaction of the service that commits, or rolls back, against the tables of `w`: the pin of a
-- new request, the claim of an execution, its end, or a deletion by retention. What it was called
-- with is arbitrary: it was read at any time before, and may be out of date. The lock is that of the
-- backup run, so the pins of two runs of one target interleave: `inserts` is the insertion of a pin
-- whose reads found no active request, whatever was committed since.
pub data Step (ext : External) : World → World → Type 1 where
  pins :
      (dto : CreateRestoreDto) (requested_by key : Text) (target : BackupTarget) (run : BackupRun)
      (w : World)
      → Step ext w (transaction (create_pin_work ext dto requested_by key target run) w)
  inserts :
      (dto : CreateRestoreDto) (requested_by key : Text) (target : BackupTarget) (run : BackupRun)
      (w : World)
      → Step ext w (transaction (insert_pin ext dto requested_by key target run none) w)
  claims :
      (q : RestoreRequest) (r : BackupRun) (started_at : ℕ) (w : World)
      → Step ext w (transaction (claim_work q r started_at) w)
  ends :
      (q : RestoreRequest) (r : BackupRun) (t : BackupTarget) (e : Ending) (error : Option Text)
      (now : ℕ) (w : World)
      → Step ext w (transaction (persist_work ext q r t e error now) w)
  deletes :
      (env : WalgEnv) (r : BackupRun) (o : Text) (w : World)
      → Step ext w (transaction (delete_expired_object ext env r o) w)

pub data Steps (ext : External) : World → World → Type 1 where
  done : (w : World) → Steps ext w w
  step : {u v w : World} → Step ext u v → Steps ext v w → Steps ext u w
