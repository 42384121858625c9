-- ===== src/Readiness.antt =====
-- `apply` and `verifyRestoreSerialization` of src/schema/schema-readiness.service.ts.
pub mod Gate
use backups_microservice.Prelude.{
  ℕ, Bool, true, false, not, ◌&&◌, ◌||◌, Option, none, some, ◌++◌, ◌==◌, ltb, if◌then◌else◌,
}
use backups_microservice.Js.{Text, text, text_eq, field_eq, decimal}
use backups_microservice.Errors.{plain}
use backups_microservice.World.{
  World, External, RestoreSerializationState, Action, pure, modify, throw_when, ◌>>=◌, ◌>>◌,
}

-- RESTORE_ACTIVE_TARGET_INDEX and RESTORE_IDEMPOTENCY_INDEX
abbrev active_target_index_name : Text
unfolding text
active_target_index_name = text "uq_restore_requests_active_target"

abbrev idempotency_index_name : Text
unfolding text
idempotency_index_name = text "uq_restore_requests_idempotency_key"

-- A column as the database's driver returns it.
pub data Cell : Type 0 where
  bool : Bool → Cell
  str : Text → Cell
  num : ℕ → Cell
  other : Cell

-- The row of the check. `duplicate_targets` is what `Number` makes of its count, `none` where that
-- is not finite.
pub record CheckRow : Type 0 where
  pub installed : Cell
  pub idempotency_installed : Cell
  pub duplicate_targets : Option ℕ

-- What the query of the check gives: its first row, if it has one, or an error, with its message if
-- it is an `Error`.
pub data Answer : Type 0 where
  rows : Option CheckRow → Answer
  failed : Option Text → Answer

unfoldable pub is_set : Cell → Bool
unfolding text_eq text
is_set (bool b) = b
is_set (str s) = text_eq s (text "t")
is_set (num n) = n == 1
is_set other = false

-- The state of the service before its first check.
abbrev pub unverified : RestoreSerializationState
unfolding text
unverified = record {
  ready = false;
  reason = text "Restore serialization has not been verified yet.";
  checked_at = none;
  duplicate_targets = none;
}

abbrev pub or_zero : Option ℕ → ℕ
or_zero none = 0
or_zero (some n) = n

unfoldable pub unready_reason : Bool → Option ℕ → Text
unfolding text decimal
unready_reason installed duplicates =
    if ltb 0 (or_zero duplicates)
    then active_target_index_name
      ++ text " could not be installed because "
      ++ decimal (or_zero duplicates)
      ++ text " target(s) already hold more than one active restore request."
    else if not installed
    then active_target_index_name
      ++ text
          " is not installed as a valid unique index, so restores cannot be serialized by the database."
    else idempotency_index_name
      ++ text
          " is not installed as a valid unique index, so restore retries are not database-idempotent."

unfoldable pub state_of : ℕ → Bool → Bool → Option ℕ → RestoreSerializationState
unfolding unready_reason text
state_of checked_at installed idempotency_installed duplicates =
    if installed && idempotency_installed
    then record {
      ready = true;
      reason =
          active_target_index_name
          ++ text " and "
          ++ idempotency_index_name
          ++ text " are installed and enforcing restore serialization and idempotency.";
      checked_at = some checked_at;
      duplicate_targets = some (or_zero duplicates);
    }
    else record {
      ready = false;
      reason = unready_reason installed duplicates;
      checked_at = some checked_at;
      duplicate_targets = duplicates;
    }

abbrev or_unknown : Option Text → Text
or_unknown none = text "unknown error"
or_unknown (some message) = message

-- A check that has no row reads `installed` as undefined and the count as 0.
unfoldable pub observe : ℕ → Answer → RestoreSerializationState
unfolding state_of is_set text
observe checked_at (rows none) = state_of checked_at false false (some 0)
observe checked_at (rows (some row)) =
    state_of checked_at (is_set row.installed) (is_set row.idempotency_installed)
      row.duplicate_targets
observe checked_at (failed message) = record {
  ready = false;
  reason = text "Restore serialization could not be verified: " ++ or_unknown message;
  checked_at = some checked_at;
  duplicate_targets = none;
}

-- `check` is what the query of the check finds, and `align` runs the schema's alignment script.
module _ (ext : External) (check : World → Answer) where
  abbrev pub fail_start : RestoreSerializationState → Action (Unit {0})
  fail_start state =
      throw_when
        (not state.ready
          && field_eq (ext.env (text "BACKUPS_FAIL_START_WITHOUT_RESTORE_SERIALIZATION"))
              (text "true"))
        (plain (
          text "Refusing to start without database-enforced restore serialization. "
          ++ state.reason))

  unfoldable pub verify_restore_serialization : Action (Unit {0})
  unfolding observe field_eq text
  verify_restore_serialization w =
      let state = observe (ext.now w) (check w) in
      fail_start state (record w { serialization = state })

  unfoldable pub alignment : Action (Unit {0}) → Action (Unit {0})
  unfolding field_eq text
  alignment align =
      if field_eq (ext.env (text "BACKUPS_APPLY_SCHEMA_READINESS")) (text "false")
      then pure tt
      else align

  unfoldable pub apply : Action (Unit {0}) → Action (Unit {0})
  unfolding alignment verify_restore_serialization
  apply align = alignment align >> verify_restore_serialization
