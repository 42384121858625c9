-- ===== src/Targets/SafeNames.antt =====
-- The database names of the targets that src/targets/targets.service.ts stores.
use backups_microservice.Prelude.{
  ◌≡◌, refl, subst, Option, none, some, List, [], ◌∷◌, ◌++◌, arith, Bool-cases, inl, inr,
}
use backups_microservice.Js.{Text, text, text_eq}
use backups_microservice.DatabaseName.{
  Violation, database_name_violation, assert_safe_database_name, rejection,
}
use backups_microservice.DatabaseName.Safety.{IsSafeName, accepts_iff_safe}
use backups_microservice.Errors.{Error, not_found, Result, ok, err, chain_ok}
use backups_microservice.Entities.{BackupTarget}
use backups_microservice.World.{
  Db, World, External, Action, lift, or_throw, gets, modify_db, ◌>>=◌, ◌>>◌,
}
use backups_microservice.World.Keeps.{Keeps}
use backups_microservice.Repositories.{load_target, find_target}
use backups_microservice.Jobs.{or_default}
use backups_microservice.Targets.{
  TargetDto, save_target, drop_target, store_target, assign_target, check_name, blank_target,
  create_target, update_target, remove_target, throw_some, update_found, remove_found,
}

-- Every target has a safe database name.
abbrev pub AllSafe : List BackupTarget → Type 0
AllSafe [] = Unit
AllSafe (t ∷ targets) = IsSafeName t.database_name × AllSafe targets

safe_of_assert :
    (name subject : Text) {n : Text}
    → assert_safe_database_name name subject ≡ ok n
    → IsSafeName name
unfolding assert_safe_database_name
safe_of_assert name subject {n} h =
    (accepts_iff_safe name).0 (unviolated (database_name_violation (some name)) refl h)
  where
    unviolated :
        (v : Option Violation)
        → database_name_violation (some name) ≡ v
        → rejection subject v name ≡ ok n
        → database_name_violation (some name) ≡ none
    unviolated none e h = e
    unviolated (some v) e h = absurd (unfold rejection in ground arith)

save_target-AllSafe :
    (t : BackupTarget) (ts : List BackupTarget)
    → IsSafeName t.database_name
    → AllSafe ts
    → AllSafe (save_target t ts)
unfolding save_target
save_target-AllSafe t [] s all = (s, tt)
save_target-AllSafe t (u ∷ ts) s (here, there) = elim (Bool-cases (text_eq u.id t.id)) [
  | inl same ↦ rw same (s, there)
  | inr other ↦ rw other (here, save_target-AllSafe t ts s there)
]

drop_target-AllSafe :
    (id : Text) (ts : List BackupTarget) → AllSafe ts → AllSafe (drop_target id ts)
unfolding drop_target
drop_target-AllSafe id [] all = tt
drop_target-AllSafe id (u ∷ ts) (here, there) = elim (Bool-cases (text_eq u.id id)) [
  | inl same ↦ rw same (drop_target-AllSafe id ts there)
  | inr other ↦ rw other (here, drop_target-AllSafe id ts there)
]

found-IsSafeName :
    (id : Text) (ts : List BackupTarget) {t : BackupTarget}
    → AllSafe ts
    → find_target id ts ≡ some t
    → IsSafeName t.database_name
unfolding find_target
found-IsSafeName id [] all h = absurd (ground arith)
found-IsSafeName id (u ∷ ts) {t} (here, there) h = elim (Bool-cases (text_eq u.id id)) [
  | inl same ↦
      let e : u ≡ t = ground (arith, same) in
      subst (λ (v : BackupTarget). IsSafeName v.database_name) e here
  | inr other ↦ found-IsSafeName id ts {t = t} there (ground (arith, other))
]

-- The targets of the tables are safe, and stay so.
abbrev pub Safe : World → Type 0
Safe w = AllSafe w.db.targets

store_target-Safe : (t : BackupTarget) → IsSafeName t.database_name → Keeps Safe (store_target t)
unfolding store_target
store_target-Safe t s = record { at = λ w all. save_target-AllSafe t w.db.targets s all }

-- A name that passes its check, and the one that the update of a target leaves.
assigned-IsSafeName :
    (dto : TargetDto) (t : BackupTarget) {r : Option Text}
    → check_name dto.database_name ≡ ok r
    → IsSafeName t.database_name
    → IsSafeName (assign_target dto t).database_name
unfolding assign_target
assigned-IsSafeName dto t {r} h s = by_name dto.database_name h
  where
    by_name :
        (name : Option Text) → check_name name ≡ ok r → IsSafeName (or_default name t.database_name)
    by_name none e = s
    by_name (some name) e =
        let (n, passed, rest) =
          chain_ok (assert_safe_database_name name (text "Target")) (λ n. ok (some n)) e in
        safe_of_assert name (text "Target") passed

loaded-Safe :
    {A : Type 0} (f : BackupTarget → Action A) (id : Text)
    → ((t : BackupTarget) (w : World) → IsSafeName t.database_name → Safe w → Safe (f t w).1)
    → Keeps Safe (load_target id >>= f)
unfolding load_target
loaded-Safe {A} f id keeps = record { at = λ w all. found (find_target id w.db.targets) w refl all }
  where
    found :
        (o : Option BackupTarget) (w : World)
        → find_target id w.db.targets ≡ o
        → Safe w
        → Safe ((or_throw (not_found (text "Target " ++ (id ++ text " not found"))) o >>= f) w).1
    found none w e all = all
    found (some t) w e all = keeps t w (found-IsSafeName id w.db.targets {t = t} all e) all

module _ (ext : External) where
  create_target-Safe : (dto : TargetDto) (name : Text) → Keeps Safe (create_target ext dto name)
  unfolding create_target
  create_target-Safe dto name = record {
    at = λ w all. checked (assert_safe_database_name name (text "Target")) refl w all;
  }
    where
      row : World → BackupTarget
      row w = record (assign_target dto (blank_target (ext.new_id w.db) (ext.now w))) {
        database_name = name;
      }

      checked :
          (r : Result Text)
          → assert_safe_database_name name (text "Target") ≡ r
          → (w : World) → Safe w
          → Safe ((lift r >> (gets row >>= store_target)) w).1
      checked (err e) h w all = all
      checked (ok n) h w all =
          (store_target-Safe (row w) (safe_of_assert name (text "Target") h)).at w all

  update_found-Safe :
      (dto : TargetDto) (t : BackupTarget) (w : World)
      → IsSafeName t.database_name
      → Safe w
      → Safe (update_found ext dto t w).1
  unfolding update_found
  update_found-Safe dto t w s all = checked (check_name dto.database_name) refl
    where
      checked :
          (r : Result (Option Text))
          → check_name dto.database_name ≡ r
          → Safe ((lift r >> store_target (assign_target dto t)) w).1
      checked (err e) h = all
      checked (ok n) h =
          (store_target-Safe (assign_target dto t) (assigned-IsSafeName dto t h s)).at w all

  remove_found-Safe :
      (refused : Db → Text → Option Error) (t : BackupTarget) (w : World)
      → IsSafeName t.database_name
      → Safe w
      → Safe (remove_found ext refused t w).1
  unfolding remove_found
  remove_found-Safe refused t w s all = decided (refused w.db t.id)
    where
      decided :
          (o : Option Error)
          → Safe
              ((throw_some o
                  >> modify_db (λ db. record db { targets = drop_target t.id db.targets }))
                w).1
      decided none = drop_target-AllSafe t.id w.db.targets all
      decided (some e) = all

-- An operation of the service on the targets, with what it is called with.
pub data Operation : Type 0 where
  creates : TargetDto → Text → Operation
  updates : Text → TargetDto → Operation
  removes : Text → Operation

module _ (ext : External) (refused : Db → Text → Option Error) where
  unfoldable pub perform : Operation → World → World
  unfolding create_target update_target remove_target
  perform (creates dto name) w = (create_target ext dto name w).1
  perform (updates id dto) w = (update_target ext id dto w).1
  perform (removes id) w = (remove_target ext refused id w).1

  unfoldable pub perform_all : List Operation → World → World
  unfolding perform
  perform_all [] w = w
  perform_all (o ∷ operations) w = perform_all operations (perform o w)

  perform-Safe : (o : Operation) (w : World) → Safe w → Safe (perform o w)
  unfolding perform update_target remove_target
  perform-Safe (creates dto name) w all = (create_target-Safe ext dto name).at w all
  perform-Safe (updates id dto) w all =
      (loaded-Safe (update_found ext dto) id (update_found-Safe ext dto)).at w all
  perform-Safe (removes id) w all =
      (loaded-Safe (remove_found ext refused) id (remove_found-Safe ext refused)).at w all

  -- Through any sequence of creations, updates and removals of targets, those that are refused
  -- included, every target that is stored keeps a safe database name.
  pub operations_keep_safe_names :
      (operations : List Operation) (w : World)
      → AllSafe w.db.targets
      → AllSafe (perform_all operations w).db.targets
  unfolding perform_all
  operations_keep_safe_names [] w all = all
  operations_keep_safe_names (o ∷ operations) w all =
      operations_keep_safe_names operations (perform o w) (perform-Safe o w all)
