-- ===== src/Targets.antt =====
-- The targets of backups and restores: src/targets/targets.service.ts.
pub mod SafeNames
use backups_microservice.Prelude.{
  ℕ, Bool, true, Option, none, some, List, [], ◌∷◌, ◌++◌, not, if◌then◌else◌,
}
use backups_microservice.Js.{Text, text, text_eq}
use backups_microservice.DatabaseName.{assert_safe_database_name}
use backups_microservice.Errors.{Error, Result, ok}
use backups_microservice.Errors
use backups_microservice.Entities.{BackupTarget, SourceCategory, TargetCriticality, RestoreClass}
use backups_microservice.World.{
  Db, World, External, Action, returned, threw, pure, gets, lift, modify_db, ◌>>=◌, ◌>>◌,
}
use backups_microservice.Repositories.{load_target}
use backups_microservice.Jobs.{or_default, or_stored}

-- CreateTargetDto and UpdateTargetDto: a creation has a name, a host, a port and a database name.
pub record TargetDto : Type 0 where
  pub name : Option Text
  pub host : Option Text
  pub port : Option ℕ
  pub database_name : Option Text
  pub vault_secret_ref : Option Text
  pub service_owner : Option Text
  pub source_category : Option SourceCategory
  pub criticality : Option TargetCriticality
  pub rpo_minutes : Option ℕ
  pub rto_minutes : Option ℕ
  pub restore_class : Option RestoreClass
  pub kubernetes_namespace : Option Text
  pub coverage_notes : Option Text
  pub enabled : Option Bool

-- `save`: an update of the row with the target's identifier, or an insertion.
unfoldable pub save_target : BackupTarget → List BackupTarget → List BackupTarget
unfolding text_eq
save_target target [] = target ∷ []
save_target target (t ∷ targets) =
    let rest = save_target target targets in
    if text_eq t.id target.id then target ∷ targets else t ∷ rest

-- `remove`: the row with the target's identifier goes.
unfoldable pub drop_target : Text → List BackupTarget → List BackupTarget
unfolding text_eq
drop_target id [] = []
drop_target id (t ∷ targets) =
    let rest = drop_target id targets in if text_eq t.id id then rest else t ∷ rest

unfoldable pub store_target : BackupTarget → Action BackupTarget
unfolding save_target
store_target target = do
  modify_db (λ db. record db { targets = save_target target db.targets })
  pure target

-- `Object.assign(target, dto)`, where the request leaves out what it does not change.
unfoldable pub assign_target : TargetDto → BackupTarget → BackupTarget
assign_target dto t = record t {
  name = or_default dto.name t.name;
  host = or_default dto.host t.host;
  port = or_default dto.port t.port;
  database_name = or_default dto.database_name t.database_name;
  vault_secret_ref = or_stored dto.vault_secret_ref t.vault_secret_ref;
  service_owner = or_stored dto.service_owner t.service_owner;
  source_category = or_stored dto.source_category t.source_category;
  criticality = or_stored dto.criticality t.criticality;
  rpo_minutes = or_stored dto.rpo_minutes t.rpo_minutes;
  rto_minutes = or_stored dto.rto_minutes t.rto_minutes;
  restore_class = or_default dto.restore_class t.restore_class;
  kubernetes_namespace = or_stored dto.kubernetes_namespace t.kubernetes_namespace;
  coverage_notes = or_stored dto.coverage_notes t.coverage_notes;
  enabled = or_default dto.enabled t.enabled;
}

-- An update checks the database name that it changes.
abbrev pub check_name : Option Text → Result (Option Text)
check_name none = ok none
check_name (some name) =
    backups_microservice.Errors.◌>>=◌ (assert_safe_database_name name (text "Target"))
      (λ n. ok (some n))

-- The columns that a new row has by default.
unfoldable pub blank_target : Text → ℕ → BackupTarget
blank_target id now = record {
  id = id;
  name = [];
  host = [];
  port = 5432;
  database_name = [];
  vault_secret_ref = none;
  service_owner = none;
  source_category = some SourceCategory.postgres_database;
  criticality = some TargetCriticality.standard;
  rpo_minutes = none;
  rto_minutes = none;
  restore_class = RestoreClass.logical_postgres;
  kubernetes_namespace = none;
  coverage_notes = none;
  enabled = true;
  created_at = now;
  updated_at = now;
}

abbrev pub throw_some : Option Error → Action (Unit {0})
throw_some none w = (returned tt, w)
throw_some (some e) w = (threw e, w)

module _ (ext : External) where
  -- `create`, with the database name that the validators of the request ask for.
  unfoldable pub create_target : TargetDto → Text → Action BackupTarget
  unfolding assert_safe_database_name assign_target blank_target store_target text
  create_target dto database_name = do
    lift (assert_safe_database_name database_name (text "Target"))
    row ← gets (λ w. blank_target (ext.new_id w.db) (ext.now w))
    store_target (record (assign_target dto row) { database_name = database_name })

  unfoldable pub update_found : TargetDto → BackupTarget → Action BackupTarget
  unfolding assign_target store_target
  update_found dto target = do
    lift (check_name dto.database_name)
    store_target (assign_target dto target)

  unfoldable pub update_target : Text → TargetDto → Action BackupTarget
  unfolding load_target update_found
  update_target id dto = load_target id >>= update_found dto

  -- `refused` is the database's refusal to remove a row that others refer to.
  unfoldable pub remove_found :
      (refused : Db → Text → Option Error) → BackupTarget → Action (Unit {0})
  unfolding drop_target
  remove_found refused target = do
    refusal ← gets (λ w. refused w.db target.id)
    throw_some refusal
    modify_db (λ db. record db { targets = drop_target target.id db.targets })

  unfoldable pub remove_target : (refused : Db → Text → Option Error) → Text → Action (Unit {0})
  unfolding load_target remove_found
  remove_target refused id = load_target id >>= remove_found refused
