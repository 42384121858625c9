-- ===== src/Examples/Summarising.antt =====
-- A summary of two targets, one of them with an enabled job, and a service that none protects.
use backups_microservice.Prelude.{◌≡◌, refl, false, List, [], ◌∷◌}
use backups_microservice.Js.{text}
use backups_microservice.Entities.{BackupTarget}
use backups_microservice.Dashboard.{FoundService, DashboardSummary, summary}
use backups_microservice.Dashboard.Coverage.{AddsUp, counts_of, summary-AddsUp}
use backups_microservice.Examples.Fixtures.{target, job, new_run}

abbrev targets : List BackupTarget
targets = target ∷ record target { id = text "other"; host = text "elsewhere" } ∷ []

abbrev services : List FoundService
services =
    record {
      name = text "redis";
      namespace = text "apps";
      host = text "redis.apps.svc.cluster.local";
      postgres = false;
      backup_ready = false;
    }
    ∷ []

abbrev result : DashboardSummary
result = summary 1000 targets (job ∷ []) (new_run ∷ []) [] [] services

postgres_counts :
    counts_of (text "postgres_database") result.coverage_stats ≡ record { total = 2; protected = 1 }
unfolding counts_of summary
postgres_counts = refl

summary-AddsUp_example : AddsUp targets (job ∷ []) result
summary-AddsUp_example = summary-AddsUp 1000 targets (job ∷ []) (new_run ∷ []) [] [] services
