-- ===== src/Examples/Discovering.antt =====
-- A service of the cluster, as the discovery lists it.
use backups_microservice.Prelude.{◌≡◌, refl, none, some, [], ◌∷◌, arith}
use backups_microservice.Js.{text}
use backups_microservice.Entities.{BackupTarget}
use backups_microservice.World.{World, returned}
use backups_microservice.DatabaseName.Safety.{IsSafeName}
use backups_microservice.Targets.{TargetDto, create_target}
use backups_microservice.Discovery.{K8sItem, service_row, suggest_database_name}
use backups_microservice.Discovery.Suggestion.{suggestion_is_accepted}
use backups_microservice.Examples.Fixtures.{ext, world_with}

abbrev item : K8sItem
item = record {
  name = some (text "postgres-shop.orders-db");
  namespace = some (text "apps");
  labels = (text "app", text "orders") ∷ [];
  ports = some 5432 ∷ none ∷ [];
  service_type = none;
  cluster_ip = none;
  ready_replicas = none;
  status_replicas = none;
  spec_replicas = none;
  images = [];
}

suffix_and_prefix_are_cut :
    suggest_database_name (text "postgres-shop.orders-db") ≡ text "shop_orders"
unfolding text suggest_database_name
suffix_and_prefix_are_cut = refl

longest_suffix_is_cut : suggest_database_name (text "PostgreSQL") ≡ text "postgres"
unfolding text suggest_database_name
longest_suffix_is_cut = refl

abbrev dto : TargetDto
dto = record {
  name = some (text "orders");
  host = some (text "postgres-orders.apps");
  port = some 5432;
  database_name = none;
  vault_secret_ref = none;
  service_owner = none;
  source_category = none;
  criticality = none;
  rpo_minutes = none;
  rto_minutes = none;
  restore_class = none;
  kubernetes_namespace = none;
  coverage_notes = none;
  enabled = none;
}

suggestion_is_accepted_example :
    IsSafeName (service_row item).suggested_database
    × (t : BackupTarget) × (w' : World) × (create_target ext dto
          (service_row item).suggested_database
          (world_with [])
        ≡ (returned t, w'))
unfolding backups_microservice.Js.text_or_empty text
suggestion_is_accepted_example = suggestion_is_accepted item (omega arith) ext dto (world_with [])
