-- ===== src/Discovery/Suggestion.antt =====
-- The names of databases that src/discovery/discovery.service.ts suggests.
use backups_microservice.Prelude.{
  ℕ, zero, suc, if◌then◌else◌, ◌≤◌, ◌<◌, ◌≡◌, refl, Bool, true, false, not, [], ◌∷◌, ◌==◌, arith,
  length, drop, Bool-cases, inl, inr,
}
use backups_microservice.Js.{
  Text, text, is_empty, strip_start, strip_end, text_or_empty, cons_unless,
}
use backups_microservice.DatabaseName.{is_word, assert_safe_database_name, rejection}
use backups_microservice.Errors.{ok}
use backups_microservice.Entities.{BackupTarget}
use backups_microservice.World.{World, External, returned}
use backups_microservice.Targets.{
  TargetDto, create_target, store_target, save_target, assign_target, blank_target,
}
use backups_microservice.DatabaseName.Safety.{IsWord, AllNameChars, IsSafeName, accepts_iff_safe}
use backups_microservice.Discovery.{
  K8sItem, service_row, strip_suffix, strip_prefix, underscored, clean_name, suggest_database_name,
  after_hyphen,
}

length-strip_suffix : (s : Text) → length (strip_suffix s) ≤ length s
unfolding strip_suffix
length-strip_suffix [] = omega arith
length-strip_suffix (c ∷ s) = ground (arith, length-strip_suffix s)

length-drop-le : (n : ℕ) (s : Text) → length (drop n s) ≤ length s
length-drop-le zero s = omega arith
length-drop-le (suc n) [] = omega arith
length-drop-le (suc n) (c ∷ s) = omega (arith, length-drop-le n s)

length-after_hyphen : (s : Text) → length (after_hyphen s) ≤ length s
length-after_hyphen [] = omega arith
length-after_hyphen (c ∷ s) = ground arith

length-strip_prefix : (s : Text) → length (strip_prefix s) ≤ length s
unfolding strip_prefix
length-strip_prefix s = ground (arith, length-after_hyphen (drop 8 s), length-drop-le 8 s)

length-underscored : (b : Bool) (s : Text) → length (underscored b s) ≤ length s
unfolding underscored
length-underscored b [] = omega arith
length-underscored b (c ∷ s) = ground (arith, length-underscored (not (is_word c)) s)

length-strip_start : (p : ℕ → Bool) (s : Text) → length (strip_start p s) ≤ length s
unfolding strip_start
length-strip_start p [] = omega arith
length-strip_start p (c ∷ s) = ground (arith, length-strip_start p s)

-- Every character is a word character.
abbrev AllWord : Text → Type 0
AllWord [] = Unit
AllWord (c ∷ s) = IsWord c × AllWord s

IsWord-of_test : (c : ℕ) → is_word c ≡ true → IsWord c
unfolding is_word
IsWord-of_test c h = ground arith

marked-AllWord : (b : Bool) (t : Text) → AllWord t → AllWord (if b then t else b'_' ∷ t)
marked-AllWord true t h = h
marked-AllWord false t h = (inr (inr (inr refl)), h)

underscored-AllWord : (b : Bool) (s : Text) → AllWord (underscored b s)
unfolding underscored
underscored-AllWord b [] = tt
underscored-AllWord b (c ∷ s) = elim (Bool-cases (is_word c)) [
  | inl word ↦ rw word (IsWord-of_test c word, underscored-AllWord false s)
  | inr other ↦ rw other (marked-AllWord b (underscored true s) (underscored-AllWord true s))
]

strip_start-AllWord : (p : ℕ → Bool) (s : Text) → AllWord s → AllWord (strip_start p s)
unfolding strip_start
strip_start-AllWord p [] h = tt
strip_start-AllWord p (c ∷ s) (hc, hs) = elim (Bool-cases (p c)) [
  | inl cut ↦ rw cut (strip_start-AllWord p s hs)
  | inr kept ↦ rw kept (hc, hs)
]

-- The cut of an end keeps what is left as it is, or leaves nothing.
kept_end-AllWord :
    (p : ℕ → Bool) (c : ℕ) (t : Text) → IsWord c → AllWord t → AllWord (cons_unless (p c) c t)
kept_end-AllWord p c [] hc ht = elim (Bool-cases (p c)) [
  | inl cut ↦ rw cut tt
  | inr kept ↦ rw kept (hc, tt)
]
kept_end-AllWord p c (d ∷ t) hc ht = (hc, ht)

length-kept_end :
    (p : ℕ → Bool) (c : ℕ) (t : Text) → length (cons_unless (p c) c t) ≤ suc (length t)
length-kept_end p c [] = ground arith
length-kept_end p c (d ∷ t) = omega arith

strip_end-AllWord : (p : ℕ → Bool) (s : Text) → AllWord s → AllWord (strip_end p s)
unfolding strip_end
strip_end-AllWord p [] h = tt
strip_end-AllWord p (c ∷ s) (hc, hs) =
    kept_end-AllWord p c (strip_end p s) hc (strip_end-AllWord p s hs)

length-strip_end : (p : ℕ → Bool) (s : Text) → length (strip_end p s) ≤ length s
unfolding strip_end
length-strip_end p [] = omega arith
length-strip_end p (c ∷ s) =
    omega (arith, length-kept_end p c (strip_end p s), length-strip_end p s)

clean_name-AllWord : (s : Text) → AllWord (clean_name s)
unfolding clean_name
clean_name-AllWord s =
    let t : Text = underscored false (strip_prefix (strip_suffix s)) in
    strip_end-AllWord (λ c. c == b'_') (strip_start (λ c. c == b'_') t)
      (strip_start-AllWord (λ c. c == b'_') t
        (underscored-AllWord false (strip_prefix (strip_suffix s))))

length-clean_name : (s : Text) → length (clean_name s) ≤ length s
unfolding clean_name
length-clean_name s =
    let t : Text = underscored false (strip_prefix (strip_suffix s)) in
    omega (
      arith,
      length-strip_end (λ c. c == b'_') (strip_start (λ c. c == b'_') t),
      length-strip_start (λ c. c == b'_') t,
      length-underscored false (strip_prefix (strip_suffix s)),
      length-strip_prefix (strip_suffix s),
      length-strip_suffix s,
    )

AllWord-name_chars : (s : Text) → AllWord s → AllNameChars s
AllWord-name_chars [] h = tt
AllWord-name_chars (c ∷ s) (hc, hs) = (inl hc, AllWord-name_chars s hs)

suggested :
    (t : Text) → AllWord t → length t < 64 → IsSafeName (if is_empty t then text "postgres" else t)
unfolding is_empty text
suggested [] h l = omega arith
suggested (c ∷ t) (hc, ht) l = (hc, omega arith, AllWord-name_chars t ht)

suggest-IsSafeName : (s : Text) → length s < 64 → IsSafeName (suggest_database_name s)
unfolding suggest_database_name
suggest-IsSafeName s h =
    suggested (clean_name s) (clean_name-AllWord s) (omega (arith, length-clean_name s))

accepted :
    (name : Text) → IsSafeName name → assert_safe_database_name name (text "Target") ≡ ok name
unfolding assert_safe_database_name rejection
accepted name h = rw ((accepts_iff_safe name).1 h) refl

created_row : External → TargetDto → Text → World → BackupTarget
created_row ext dto name w =
    record (assign_target dto (blank_target (ext.new_id w.db) (ext.now w))) { database_name = name }

created :
    (ext : External) (dto : TargetDto) (name : Text) (w : World)
    → IsSafeName name
    → create_target ext dto name w ≡ (
      returned (created_row ext dto name w),
      record w {
        db = record w.db { targets = save_target (created_row ext dto name w) w.db.targets };
      },
    )
unfolding create_target store_target created_row
created ext dto name w safe = rw (accepted name safe)

-- For a service of the cluster whose name has at most 63 characters, as Kubernetes' names have, the
-- database name that the discovery suggests is a safe one, and a target that is created with it is
-- stored.
pub suggestion_is_accepted :
    (item : K8sItem)
    → length (text_or_empty item.name) < 64
    → (ext : External) (dto : TargetDto) (w : World)
    → IsSafeName (service_row item).suggested_database
      × (t : BackupTarget) × (w' : World) × (create_target ext dto
            (service_row item).suggested_database
            w
          ≡ (returned t, w'))
unfolding service_row
suggestion_is_accepted item h ext dto w =
    let name : Text = suggest_database_name (text_or_empty item.name) in
    let safe : IsSafeName name = suggest-IsSafeName (text_or_empty item.name) h in
    (
      safe,
      created_row ext dto name w,
      record w {
        db = record w.db { targets = save_target (created_row ext dto name w) w.db.targets };
      },
      created ext dto name w safe,
    )
