-- ===== src/Walg.antt =====
-- The wrapper of wal-g: src/backup/walg-wrapper.service.ts. What it logs is left out, and `onData`
-- with it, since a caller's copy of the chunks is the output that the result carries.
pub mod Pipeline
pub mod Listing
use backups_microservice.Prelude.{
  ℕ, Bool, true, false, Option, none, some, List, [], ◌∷◌, ◌++◌, ◌==◌, length, drop, if◌then◌else◌,
}
use backups_microservice.Js.{Text, text, starts_with, text_or_empty, truthy, decimal}
use backups_microservice.Errors
use backups_microservice.Errors.{Error, message, Result, ok, err}
use backups_microservice.DatabaseName.{assert_safe_database_name}
use backups_microservice.Storage.{is_logical_backup_object_name}
use backups_microservice.Entities.{BackupTarget}
use backups_microservice.Walg.Pipeline.{WalgResult, PipedCommand, Pair, run_piped_pair}
use backups_microservice.Walg.Listing.{
  LogicalObjectProbe, present, absent, unprovable, judge_listing, folder_and_leaf,
}
use backups_microservice.World.{
  World, WalgEnv, Command, wal_g, piped, External, Outcome, returned, threw, unsettled, Action,
  pure, throw, lift, modify, gets, ◌>>=◌, ◌>>◌,
}

-- `a || b`, on a variable of the environment.
unfoldable pub or_text : Option Text → Text → Text
or_text a b = if truthy a then text_or_empty a else b

-- `endpoint.replace(/^https?:\/\//, '')`
unfoldable pub strip_scheme : Text → Text
strip_scheme s =
    if starts_with (text "http://") s
    then drop 7 s
    else if starts_with (text "https://") s
    then drop 8 s
    else s

module _ (ext : External) where
  -- `A || B || C || ''`, the endpoint of the object storage.
  unfoldable pub storage_endpoint : Text
  unfolding or_text
  storage_endpoint =
      or_text (ext.env (text "WALG_S3_ENDPOINT")) (
        or_text (ext.env (text "MINIO_ENDPOINT")) (or_text (ext.env (text "MINIO_SERVICE_URL")) []))

  unfoldable pub env_for : Option Text → BackupTarget → Text → Text → WalgEnv
  unfolding or_text storage_endpoint strip_scheme
  env_for storage_prefix target password database_name = record {
    walg_s3_prefix = or_text storage_prefix (
        or_text (ext.env (text "WALG_S3_PREFIX")) (text "s3://backups")
        ++ (text "/" ++ database_name));
    walg_s3_endpoint_suffix = strip_scheme storage_endpoint;
    walg_compression_method = or_text (ext.env (text "WALG_COMPRESSION_METHOD")) (text "lz4");
    aws_access_key_id = or_text (ext.env (text "MINIO_ACCESS_KEY")) [];
    aws_secret_access_key = or_text (ext.env (text "MINIO_SECRET_KEY")) [];
    aws_endpoint = storage_endpoint;
    aws_s3_force_path_style = text "true";
    pg_host = target.host;
    pg_port = decimal target.port;
    pg_database = database_name;
    pg_password = password;
    pg_user = or_text (ext.env (text "DB_USER")) (text "dbadmin");
  }

  -- buildEnv, whose `job` is used for its storage prefix
  unfoldable pub build_env : Option Text → BackupTarget → Text → Result WalgEnv
  unfolding env_for
  build_env storage_prefix target password =
      Errors.◌>>=◌ (assert_safe_database_name target.database_name (text "Target"))
        (λ database_name. ok (env_for storage_prefix target password database_name))

  -- `run`: wal-g alone, whose promise always resolves, to code 1 where it could not be spawned.
  unfoldable pub run : WalgEnv → List Text → Action WalgResult
  run env args w = (
    returned (ext.wal_g_result (length w.commands) env args),
    record w { commands = wal_g env args ∷ w.commands },
  )

  settle : Option WalgResult → Outcome WalgResult
  settle none = unsettled
  settle (some r) = returned r

  unfoldable pub run_pair : WalgEnv → Pair → Action WalgResult
  unfolding settle
  run_pair env pair w = (
    settle (run_piped_pair pair (ext.pipe_events (length w.commands))),
    record w { commands = piped env pair.first pair.second ∷ w.commands },
  )

abbrev rejected : Text → WalgResult
rejected m = record { exit_code = 1; output = m }

-- rejectUnsafeObject
unfoldable pub reject_unsafe_object : Text → Option WalgResult
reject_unsafe_object object_name =
    if is_logical_backup_object_name object_name
    then none
    else some (rejected (text "Refusing to address a non-deterministic logical backup object."))

abbrev pub dump_pair : Text → Pair
dump_pair object_name = record {
  first = record {
    name = text "pg_dump";
    command = text "pg_dump";
    args =
        text "--format=custom"
        ∷ text "--no-owner"
        ∷ text "--no-privileges"
        ∷ text "--no-password"
        ∷ [];
  };
  second = record {
    name = text "wal-g";
    command = text "wal-g";
    args = text "st" ∷ text "put" ∷ text "--read-stdin" ∷ text "--no-compress" ∷ object_name ∷ [];
  };
  success_message = text "logical_backup_object: " ++ (object_name ++ text "\n");
}

abbrev pub restore_pair : Text → Text → Pair
restore_pair object_name database_name = record {
  first = record {
    name = text "wal-g";
    command = text "wal-g";
    args = text "st" ∷ text "cat" ∷ object_name ∷ [];
  };
  second = record {
    name = text "pg_restore";
    command = text "pg_restore";
    args =
        (text "--dbname=" ++ database_name)
        ∷ text "--clean"
        ∷ text "--if-exists"
        ∷ text "--no-owner"
        ∷ text "--no-privileges"
        ∷ text "--exit-on-error"
        ∷ text "--single-transaction"
        ∷ [];
  };
  success_message = text "logical_restore_object: " ++ (object_name ++ text "\n");
}

unless_rejected : Option WalgResult → Action WalgResult → Action WalgResult
unless_rejected none work = work
unless_rejected (some r) work = pure r

-- The `try` around `assertSafeDatabaseName` of a restore's target.
with_name : Result Text → (Text → Action WalgResult) → Action WalgResult
with_name (ok name) work = work name
with_name (err e) work = pure (rejected (message e))

module _ (ext : External) where
  unfoldable pub delete_logical_object : WalgEnv → Text → Action WalgResult
  unfolding unless_rejected
  delete_logical_object env object_name =
      unless_rejected (reject_unsafe_object object_name)
        (run ext env (text "st" ∷ text "rm" ∷ text "--glob" ∷ object_name ∷ []))

  unfoldable pub discard_partial_object : WalgEnv → Text → WalgResult → Action WalgResult
  discard_partial_object env object_name result = do
    cleanup ← delete_logical_object env object_name
    pure (record {
      exit_code = result.exit_code;
      output =
          result.output
          ++ (text "partial_object_cleanup: "
              ++ ((if cleanup.exit_code == 0 then text "removed" else text "unconfirmed")
                  ++ (text " " ++ (object_name ++ text "\n"))));
    })

  unfoldable pub backup_push : WalgEnv → Text → Action WalgResult
  unfolding unless_rejected
  backup_push env object_name = unless_rejected (reject_unsafe_object object_name) do
    result ← run_pair ext env (dump_pair object_name)
    (if result.exit_code == 0 then pure result else discard_partial_object env object_name result)

  unfoldable pub restore_from_object : WalgEnv → Text → Text → Action WalgResult
  unfolding unless_rejected with_name
  restore_from_object env object_name target_database =
      unless_rejected (reject_unsafe_object object_name) (
        with_name (assert_safe_database_name target_database (text "Restore target"))
          (λ database_name. run_pair ext env (restore_pair object_name database_name)))

  unfoldable pub probe_logical_object : WalgEnv → Text → Action LogicalObjectProbe
  probe_logical_object env object_name =
      if is_logical_backup_object_name object_name
      then (do
        let place = folder_and_leaf object_name
        result ← run ext env (text "st" ∷ text "ls" ∷ place.0 ∷ [])
        pure (
            if result.exit_code == 0
            then judge_listing ext.other_number place.1 result.output
            else unprovable))
      else pure unprovable
