-- ===== src/Dashboard.antt =====
-- The summary of src/dashboard/dashboard.service.ts: which targets are protected, and the counts.
pub mod Coverage
use backups_microservice.Prelude.{
  ℕ, zero, suc, ◌+◌, ◌-◌, ◌≤◌, Bool, true, false, not, ◌&&◌, ◌||◌, Option, none, some, List, [],
  ◌∷◌, ◌++◌, leb, any, find, filter, map, length, take, if◌then◌else◌,
}
use backups_microservice.Js.{Text, text, text_eq, field_eq, truthy}
use backups_microservice.Entities.{
  BackupTarget, BackupJob, BackupRun, BackupRunStatus, VerificationStatus, SourceCategory,
  RestoreRequest,
}
use backups_microservice.Destinations.{BackupDestination}
use backups_microservice.Discovery.{ServiceRow, is_postgres_kind}

-- A service that the discovery found, in the columns that the summary reads.
pub record FoundService : Type 0 where
  pub name : Text
  pub namespace : Text
  pub host : Text
  pub postgres : Bool
  pub backup_ready : Bool

unfoldable pub found_service : ServiceRow → FoundService
found_service r = record {
  name = r.name;
  namespace = r.namespace;
  host = r.host;
  postgres = is_postgres_kind r.backup_kind;
  backup_ready = r.backup_ready;
}

-- The map of jobs by target, in the order of insertion.
abbrev pub JobMap : Type 0
JobMap = List (Text × List BackupJob)

unfoldable pub get_jobs : Text → JobMap → List BackupJob
unfolding text_eq
get_jobs id [] = []
get_jobs id ((k, js) ∷ m) = let rest = get_jobs id m in if text_eq k id then js else rest

-- `list = m.get(job.target_id) || []; list.push(job); m.set(job.target_id, list)`
unfoldable pub add_job : BackupJob → JobMap → JobMap
unfolding text_eq
add_job j [] = (j.target_id, j ∷ []) ∷ []
add_job j ((k, js) ∷ m) =
    let rest = add_job j m in
    if text_eq k j.target_id then (k, js ++ j ∷ []) ∷ m else (k, js) ∷ rest

unfoldable pub group_jobs : JobMap → List BackupJob → JobMap
unfolding add_job
group_jobs m [] = m
group_jobs m (j ∷ jobs) = group_jobs (add_job j m) jobs

unfoldable pub is_protected : JobMap → BackupTarget → Bool
unfolding get_jobs
is_protected m t = t.enabled && any (λ (j : BackupJob). j.enabled) (get_jobs t.id m)

unfoldable pub matches_target : FoundService → BackupTarget → Bool
unfolding text_eq field_eq
matches_target service t =
    text_eq t.host service.host
    || text_eq t.host service.name
    || (text_eq t.name service.name && field_eq t.kubernetes_namespace service.namespace)

-- A source that no target protects.
pub record UnprotectedSource : Type 0 where
  pub name : Text
  pub namespace : Text
  pub host : Text
  pub source_category : Text
  pub backup_ready : Bool
  pub reason : Text

unfoldable pub unprotected_source : FoundService → UnprotectedSource
unfolding text
unprotected_source service = record {
  name = service.name;
  namespace = service.namespace;
  host = service.host;
  source_category = if service.postgres then text "postgres_database" else text "service";
  backup_ready = service.backup_ready;
  reason =
      if service.backup_ready
      then text "Discovered PostgreSQL service has no backup target."
      else text "Discovered service has no implemented backup source contract yet.";
}

unfoldable pub unprotected_discovered_sources :
    List FoundService → List BackupTarget → List UnprotectedSource
unfolding matches_target unprotected_source
unprotected_discovered_sources services targets =
    map unprotected_source (filter (λ s. not (any (λ t. matches_target s t) targets)) services)

unfoldable pub category_name : Option SourceCategory → Text
unfolding text
category_name none = text "postgres_database"
category_name (some SourceCategory.postgres_database) = text "postgres_database"
category_name (some SourceCategory.minio_bucket) = text "minio_bucket"
category_name (some SourceCategory.kubernetes_resource) = text "kubernetes_resource"
category_name (some SourceCategory.secret_reference) = text "secret_reference"
category_name (some SourceCategory.pvc) = text "pvc"

pub record Counts : Type 0 where
  pub total : ℕ
  pub protected : ℕ

abbrev pub Stats : Type 0
Stats = List (Text × Counts)

-- `existing.total += 1`, and `existing.protected += 1` where the target is protected.
unfoldable pub count_one : Bool → Counts → Counts
count_one protected c = record {
  total = suc c.total;
  protected = if protected then suc c.protected else c.protected;
}

unfoldable pub bump : Text → Bool → Stats → Stats
unfolding text_eq count_one
bump k protected [] = (k, count_one protected (record { total = 0; protected = 0 })) ∷ []
bump k protected ((c, n) ∷ m) =
    let rest = bump k protected m in
    if text_eq c k then (c, count_one protected n) ∷ m else (c, n) ∷ rest

unfoldable pub is_among : List BackupTarget → BackupTarget → Bool
unfolding text_eq
is_among protected t = any (λ (p : BackupTarget). text_eq p.id t.id) protected

unfoldable pub count_targets : List BackupTarget → List BackupTarget → Stats → Stats
unfolding bump is_among category_name
count_targets protected [] m = m
count_targets protected (t ∷ targets) m =
    count_targets protected targets
      (bump (category_name t.source_category) (is_among protected t) m)

unfoldable pub count_sources : List UnprotectedSource → Stats → Stats
unfolding bump
count_sources [] m = m
count_sources (s ∷ sources) m = count_sources sources (bump s.source_category false m)

unfoldable pub coverage_stats :
    List BackupTarget → List BackupTarget → List UnprotectedSource → Stats
unfolding count_targets count_sources
coverage_stats targets protected sources =
    count_sources sources (count_targets protected targets [])

-- serializeRun, where a field that is left out is held as missing.
unfoldable pub serialize_run : BackupRun → BackupRun
serialize_run r = record r { storage_path = none; walg_output = none }

abbrev pub day_ms : ℕ
day_ms = 86400000

unfoldable pub within_day : ℕ → BackupRun → Bool
within_day now r = leb (now - r.started_at) day_ms

unfoldable pub run_failed : BackupRun → Bool
run_failed r = elim r.status [ BackupRunStatus.failed ↦ true | _ ↦ false ]

unfoldable pub run_succeeded : BackupRun → Bool
run_succeeded r = elim r.status [ BackupRunStatus.success ↦ true | _ ↦ false ]

unfoldable pub awaits_verification : BackupRun → Bool
awaits_verification r = elim r.verification_status [
  | VerificationStatus.pending ↦ true
  | VerificationStatus.verifying ↦ true
  | VerificationStatus.unknown ↦ true
  | _ ↦ false
]

unfoldable pub verification_has_failed : BackupRun → Bool
verification_has_failed r = elim r.verification_status [
  | VerificationStatus.failed ↦ true
  | _ ↦ false
]

-- The counts of the summary, which reads the newest 40 restore requests and the newest 80 runs.
pub record SummaryStats : Type 0 where
  pub targets_total : ℕ
  pub targets_enabled : ℕ
  pub protected_sources : ℕ
  pub unprotected_discovered_sources : ℕ
  pub jobs_total : ℕ
  pub jobs_enabled : ℕ
  pub runs_tracked : ℕ
  pub runs_24h : ℕ
  pub failed_24h : ℕ
  pub restore_requests : ℕ
  pub destinations_total : ℕ
  pub destinations_enabled : ℕ
  pub latest_status : Option BackupRunStatus
  pub latest_verification_status : Option VerificationStatus
  pub latest_success_at : Option ℕ
  pub verification_pending : ℕ
  pub verification_failed : ℕ

-- `last_verification`
pub record LastVerification : Type 0 where
  pub run_id : Text
  pub status : VerificationStatus
  pub checked_at : Option ℕ
  pub reason : Option Text

-- A row of the coverage, for one target.
pub record TargetCoverage : Type 0 where
  pub target : BackupTarget
  pub jobs : List BackupJob
  pub protected : Bool
  pub last_run : Option BackupRun
  pub last_success : Option BackupRun
  pub last_verification : Option LastVerification
  pub failed_runs_24h : ℕ

abbrev first_run : List BackupRun → Option BackupRun
first_run [] = none
first_run (r ∷ rs) = some r

abbrev pub serialized : Option BackupRun → Option BackupRun
unfolding serialize_run
serialized none = none
serialized (some r) = some (serialize_run r)

-- A run always has a verification status, so that the first one with a status is the first one.
abbrev pub verification_of_run : Option BackupRun → Option LastVerification
verification_of_run none = none
verification_of_run (some r) = some (record {
  run_id = r.id;
  status = r.verification_status;
  checked_at = r.verification_checked_at;
  reason = if truthy r.verification_reason then r.verification_reason else none;
})

abbrev pub status_of : Option BackupRun → Option BackupRunStatus
status_of none = none
status_of (some r) = some r.status

abbrev pub verification_status_of : Option BackupRun → Option VerificationStatus
verification_status_of none = none
verification_status_of (some r) = some r.verification_status

abbrev pub completion_of : Option BackupRun → Option ℕ
completion_of none = none
completion_of (some r) = r.completed_at

unfoldable pub runs_of : List BackupJob → List BackupRun → List BackupRun
unfolding text_eq
runs_of jobs runs =
    filter (λ (r : BackupRun). any (λ (j : BackupJob). text_eq j.id r.job_id) jobs) runs

unfoldable pub target_coverage : ℕ → JobMap → List BackupRun → BackupTarget → TargetCoverage
unfolding get_jobs is_protected runs_of serialize_run run_failed run_succeeded within_day
target_coverage now m recent t =
    let runs = runs_of (get_jobs t.id m) recent in
    record {
      target = t;
      jobs = get_jobs t.id m;
      protected = is_protected m t;
      last_run = serialized (first_run runs);
      last_success = serialized (find run_succeeded runs);
      last_verification = verification_of_run (first_run runs);
      failed_runs_24h = length (filter (λ r. run_failed r && within_day now r) runs);
    }

-- What the summary computes from the tables and the discovery. A status is missing where there is no
-- run, where the summary prints `none` and `unknown`.
pub record DashboardSummary : Type 0 where
  pub stats : SummaryStats
  pub coverage_stats : Stats
  pub unprotected_sources : List UnprotectedSource
  pub coverage : List TargetCoverage
  pub recent_runs : List BackupRun
  pub restore_requests : List RestoreRequest
  pub destinations : List BackupDestination

unfoldable pub summary :
    (now : ℕ) (targets : List BackupTarget) (jobs : List BackupJob) (recent : List BackupRun)
    (restores : List RestoreRequest) (destinations : List BackupDestination)
    (services : List FoundService)
    → DashboardSummary
unfolding group_jobs is_protected unprotected_discovered_sources coverage_stats target_coverage
    serialize_run run_failed run_succeeded within_day awaits_verification verification_has_failed
summary now targets jobs recent restores destinations services =
    let m = group_jobs [] jobs in
    let protected = filter (is_protected m) targets in
    let sources = unprotected_discovered_sources services targets in
    let recent_24h = filter (within_day now) recent in
    record {
      stats = record {
        targets_total = length targets;
        targets_enabled = length (filter (λ (t : BackupTarget). t.enabled) targets);
        protected_sources = length protected;
        unprotected_discovered_sources = length sources;
        jobs_total = length jobs;
        jobs_enabled = length (filter (λ (j : BackupJob). j.enabled) jobs);
        runs_tracked = length recent;
        runs_24h = length recent_24h;
        failed_24h = length (filter run_failed recent_24h);
        restore_requests = length restores;
        destinations_total = length destinations;
        destinations_enabled = length (filter (λ (d : BackupDestination). d.enabled) destinations);
        latest_status = status_of (first_run recent);
        latest_verification_status = verification_status_of (first_run recent);
        latest_success_at = completion_of (find run_succeeded recent);
        verification_pending = length (filter awaits_verification recent);
        verification_failed = length (filter verification_has_failed recent);
      };
      coverage_stats = coverage_stats targets protected sources;
      unprotected_sources = sources;
      coverage = map (target_coverage now m recent) targets;
      recent_runs = map serialize_run (take 20 recent);
      restore_requests = take 20 restores;
      destinations = destinations;
    }
