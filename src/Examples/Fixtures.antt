-- ===== src/Examples/Fixtures.antt =====
-- Rows, tables and an outside world to run the definitions on.
use backups_microservice.Prelude.{
  ◌≤◌, ◌≡◌, ap, length, arith, Bool-cases, inl, inr, length-append, ℕ, ◌+◌, true, false, none, some,
  List, [], ◌∷◌, ◌++◌, refl,
}
use backups_microservice.Js.{Text, text, text_eq}
use backups_microservice.Js.Laws.{eq_of_text_eq}
use backups_microservice.Repositories.{find_request}
use backups_microservice.Entities.{
  BackupRun, BackupRunStatus, VerificationStatus, TriggerType, RestoreRequest, RestoreStatus,
  BackupTarget, RestoreClass, TargetCriticality, SourceCategory, BackupJob, SchedulePolicyType,
}
use backups_microservice.Walg.Pipeline.{producer, consumer, stream_ended, closed, PipeEvent}
use backups_microservice.World.{Db, World, WalgEnv, External, granted, under_lock, LockRuns}
use backups_microservice.Restore.Key.{CreateRestoreDto}

abbrev pub old_id : Text
old_id = text "00000000-0000-4000-8000-000000000001"

abbrev pub new_id : Text
new_id = text "00000000-0000-4000-8000-000000000002"

abbrev pub prefix : Text
prefix = text "s3://backups/orders"

-- A successful run of the job, recorded at its own object.
abbrev pub run_at : Text → Text → ℕ → VerificationStatus → BackupRun
run_at id path started_at verification = record {
  id = id;
  job_id = text "job";
  job_target_id = some (text "target");
  status = BackupRunStatus.success;
  started_at = started_at;
  completed_at = some (started_at + 60);
  size_bytes = some 1024;
  storage_path = some path;
  walg_output = none;
  error_message = none;
  verification_status = verification;
  verification_checked_at = none;
  verification_reason = none;
  verification_error = none;
  triggered_by = TriggerType.scheduler;
  created_at = started_at;
}

abbrev pub old_path : Text
old_path = text "s3://backups/orders/logical/00000000-0000-4000-8000-000000000001.dump"

abbrev pub new_path : Text
new_path = text "s3://backups/orders/logical/00000000-0000-4000-8000-000000000002.dump"

abbrev pub old_object : Text
old_object = text "logical/00000000-0000-4000-8000-000000000001.dump"

abbrev pub new_object : Text
new_object = text "logical/00000000-0000-4000-8000-000000000002.dump"

abbrev pub old_run : BackupRun
old_run = run_at old_id old_path 100 VerificationStatus.pending

abbrev pub new_run : BackupRun
new_run = run_at new_id new_path 200 VerificationStatus.verified

abbrev pub target : BackupTarget
target = record {
  id = text "target";
  name = text "orders";
  host = text "db";
  port = 5432;
  database_name = text "orders";
  vault_secret_ref = none;
  service_owner = none;
  source_category = some SourceCategory.postgres_database;
  criticality = some TargetCriticality.standard;
  rpo_minutes = none;
  rto_minutes = none;
  restore_class = RestoreClass.logical_postgres;
  kubernetes_namespace = none;
  coverage_notes = none;
  enabled = true;
  created_at = 0;
  updated_at = 0;
}

abbrev pub job : BackupJob
job = record {
  id = text "job";
  target_id = text "target";
  name = text "nightly";
  schedule_cron = text "0 2 * * *";
  schedule_policy = SchedulePolicyType.daily;
  schedule_hour_utc = some 2;
  schedule_minute_utc = some 0;
  schedule_day_of_week = none;
  retention_full_count = 1;
  retention_approval_actor = none;
  retention_approval_reason = none;
  retention_approved_at = none;
  storage_prefix = some (text "s3://backups/orders");
  enabled = true;
  last_run_at = none;
  created_at = 0;
  updated_at = 0;
}

abbrev pub request_of : RestoreStatus → RestoreRequest
request_of status = record {
  id = text "request";
  backup_run_id = new_id;
  target_id = text "target";
  status = status;
  requested_by = some (text "ops");
  approval_actor = some (text "ops");
  approval_reason = some (text "disk failure on db");
  approval_confirmed_target_id = some (text "target");
  approval_confirmed_backup_run_id = some new_id;
  production_restore_approved = true;
  approved_at = some 300;
  idempotency_key = some (text "key");
  started_at = none;
  completed_at = none;
  error_message = none;
  walg_output = none;
  created_at = 300;
}

abbrev pub dto : CreateRestoreDto
dto = record {
  backup_run_id = new_id;
  target_id = text "target";
  approval_confirmed_backup_run_id = new_id;
  approval_confirmed_target_id = text "target";
  approval_actor = text "ops";
  approval_reason = text "disk failure on db";
  production_restore_approved = true;
  idempotency_key = some (text "key");
}

abbrev pub world_with : List RestoreRequest → World
world_with requests = record {
  db = record {
    targets = target ∷ [];
    jobs = job ∷ [];
    runs = old_run ∷ new_run ∷ [];
    requests = requests;
    audits = [];
    active_target_index = true;
    idempotency_index = true;
  };
  serialization = record {
    ready = true;
    reason = text "ready";
    checked_at = some 0;
    duplicate_targets = some 0;
  };
  in_flight = [];
  tasks = [];
  notices = [];
  commands = [];
}

abbrev pub env : WalgEnv
env = record {
  walg_s3_prefix = prefix;
  walg_s3_endpoint_suffix = text "minio:9000";
  walg_compression_method = text "lz4";
  aws_access_key_id = text "key";
  aws_secret_access_key = text "secret";
  aws_endpoint = text "http://minio:9000";
  aws_s3_force_path_style = text "true";
  pg_host = text "db";
  pg_port = text "5432";
  pg_database = text "orders";
  pg_password = text "secret";
  pg_user = text "dbadmin";
}

-- One longer than all the identifiers of the requests together.
abbrev pub unused_id : List RestoreRequest → Text
unused_id [] = text "r"
unused_id (q ∷ qs) = q.id ++ unused_id qs

-- What wal-g lists of the folder: the newer object alone.
abbrev pub listing : Text
listing = text "obj 1024 00000000-0000-4000-8000-000000000002.dump"

abbrev pub clean_end : List PipeEvent
clean_end = closed producer (some 0) ∷ stream_ended none ∷ closed consumer (some 0) ∷ []

abbrev pub ext : External
ext = record {
  with_backup_run_lock = λ A id work w. under_lock (granted w.db) work w;
  is_lock_timeout = λ e. false;
  insert_refused = λ db q. none;
  audit_refused = λ event. none;
  wal_g_result = λ n env args. record { exit_code = 0; output = listing };
  pipe_events = λ n. clean_end;
  new_id = λ db. unused_id db.requests;
  sha256_hex = λ s. text "00";
  now = λ w. 1000;
  env = λ name. none;
  other_number = λ s. none;
}

abbrev pub lock : LockRuns ext
lock = record { grant = λ id db. granted db; runs = λ A id work w. refl }

unused_id_positive : (qs : List RestoreRequest) → 1 ≤ length (unused_id qs)
unfolding text
unused_id_positive [] = omega arith
unused_id_positive (q ∷ qs) =
    omega (arith, length-append q.id (unused_id qs), unused_id_positive qs)

longer_unfound :
    (id : Text) (qs : List RestoreRequest)
    → length (unused_id qs) ≤ length id
    → find_request id qs ≡ none
unfolding find_request text
longer_unfound id [] h = refl
longer_unfound id (q ∷ qs) h = elim (Bool-cases (text_eq q.id id)) [
  | inl same ↦
      let e = ap (λ (s : Text). length s) (eq_of_text_eq q.id id same) in
      absurd (omega (arith, h, e, length-append q.id (unused_id qs), unused_id_positive qs))
  | inr other ↦
      rw other (longer_unfound id qs (omega (arith, h, length-append q.id (unused_id qs))))
]

pub unused_is_fresh : (db : Db) → find_request (ext.new_id db) db.requests ≡ none
unused_is_fresh db = longer_unfound (unused_id db.requests) db.requests (omega arith)
