-- ===== src/Storage/Names.antt =====
-- The object names of src/backup/walg-wrapper.service.ts.
use backups_microservice.Prelude.{
  ◌≡◌, refl, sym, subst, ap, ◌∙◌, drop, drop-append, true, [], ◌∷◌, ◌++◌, arith, &&_iff, length,
}
use backups_microservice.Js.{Text, text, matches, strip_start}
use backups_microservice.Js.{slice_before}
use backups_microservice.Js.Laws.{slice_before-append}
use backups_microservice.Errors.{ok, ok_of_if}
use backups_microservice.Storage.{
  Pattern, literal_i, literals, uuid_pattern, logical_object_pattern, logical_backup_object_name,
  is_logical_backup_object_name, is_slash,
}

matches-append :
    (ps qs : Pattern) (s t : Text)
    → matches ps s ≡ true
    → matches qs t ≡ true
    → matches (ps ++ qs) (s ++ t) ≡ true
unfolding matches
matches-append [] qs [] t h k = k
matches-append [] qs (c ∷ s) t h k = cc
matches-append (p ∷ ps) qs [] t h k = cc
matches-append (p ∷ ps) qs (c ∷ s) t h k =
    let (hc, hs) = (&&_iff (p c) (matches ps s)).0 h in
    (&&_iff _ _).1 (hc, matches-append ps qs s t hs k)

matches-literals : (s : Text) → matches (literals s) s ≡ true
unfolding matches literals literal_i
matches-literals [] = refl
matches-literals (c ∷ s) = ground (arith, matches-literals s)

-- An identifier that has an object name matches the pattern of identifiers, the name is `logical/`,
-- the identifier and `.dump`, and it passes the test of object names.
pub object_name_accepted :
    (run_id : Text) {name : Text}
    → logical_backup_object_name run_id ≡ ok name
    → (matches uuid_pattern run_id ≡ true)
      × (name ≡ text "logical/" ++ (run_id ++ text ".dump"))
      × (is_logical_backup_object_name name ≡ true)
unfolding logical_backup_object_name is_logical_backup_object_name logical_object_pattern
object_name_accepted run_id {name} h =
    let (m, e) = ok_of_if (matches uuid_pattern run_id) _ h in
    (m, sym e, subst (λ n. matches logical_object_pattern n ≡ true) e (accepted m))
  where
    accepted :
        matches uuid_pattern run_id ≡ true
        → matches logical_object_pattern (text "logical/" ++ (run_id ++ text ".dump")) ≡ true
    accepted m =
        matches-append _ _ _ _ (matches-literals (text "logical/"))
          (matches-append _ _ _ _ m (matches-literals (text ".dump")))

-- An object's name begins with no slash, so that a path takes it as it is.
pub strip_start-object_name :
    (run_id : Text) {name : Text}
    → logical_backup_object_name run_id ≡ ok name
    → strip_start is_slash name ≡ name
strip_start-object_name run_id h =
    let e = (object_name_accepted run_id h).1 in rw e (keeps_name (run_id ++ text ".dump"))
  where
    keeps_name : (s : Text) → strip_start is_slash (text "logical/" ++ s) ≡ text "logical/" ++ s
    keeps_name s = unfold strip_start is_slash text in refl

middle : Text → Text
middle name = slice_before (length (text ".dump")) (drop (length (text "logical/")) name)

middle-name : (s : Text) → middle (text "logical/" ++ (s ++ text ".dump")) ≡ s
unfolding middle
middle-name s =
    rw (drop-append (text "logical/") (s ++ text ".dump")) (slice_before-append s (text ".dump"))

-- Two runs with the same object are the same run.
pub object_name-injective :
    (a b : Text) {name : Text}
    → logical_backup_object_name a ≡ ok name
    → logical_backup_object_name b ≡ ok name
    → a ≡ b
object_name-injective a b h k =
    sym (middle-name a)
    ∙ ap middle (sym (object_name_accepted a h).1 ∙ (object_name_accepted b k).1)
    ∙ middle-name b
