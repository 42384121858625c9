-- ===== src/Readiness/Gate.antt =====
-- Which restores src/restore/restore.service.ts accepts after `apply` of
-- src/schema/schema-readiness.service.ts.
use backups_microservice.Prelude.{
  ℕ, ◌≡◌, ◌↔◌, inl, inr, refl, ap, sym, ◌∙◌, Bool, true, false, ◌&&◌, Option, none, some, arith,
  Bool-cases, ==_iff, &&_iff,
}
use backups_microservice.Js.{Text, text, field_eq}
use backups_microservice.Js.Laws.{eq_of_text_eq, text_eq_refl}
use backups_microservice.Entities.{RestoreRequest}
use backups_microservice.World.{
  World, External, RestoreSerializationState, Outcome, returned, threw, unsettled, Action, proceed,
}
use backups_microservice.Restore.Key.{CreateRestoreDto}
use backups_microservice.Restore.Pin.{create}
use backups_microservice.Restore.Approval.{unready_or_unapproved_refused}
use backups_microservice.Readiness.{
  Cell, bool, str, num, other, CheckRow, Answer, rows, failed, is_set, unverified, state_of,
  observe, verify_restore_serialization, alignment, apply, fail_start,
}

-- A column that says true: the boolean, the text `t`, or the number 1.
pub data SaysTrue (c : Cell) : Type 0 where
  boolean : c ≡ bool true → SaysTrue c
  letter : c ≡ str (text "t") → SaysTrue c
  one : c ≡ num 1 → SaysTrue c

SaysTrue-of_set : (c : Cell) → is_set c ≡ true → SaysTrue c
unfolding is_set
SaysTrue-of_set (bool b) h = boolean (ap bool h)
SaysTrue-of_set (str s) h = letter (ap str (eq_of_text_eq s (text "t") h))
SaysTrue-of_set (num n) h = one (ap num ((==_iff n 1).0 h))
SaysTrue-of_set other h = cc

set_of_SaysTrue : (c : Cell) → SaysTrue c → is_set c ≡ true
unfolding is_set
set_of_SaysTrue c (boolean e) = rw e
set_of_SaysTrue c (letter e) = rw e (text_eq_refl (text "t"))
set_of_SaysTrue c (one e) = rw e

-- The check found both unique indexes.
pub record FoundBoth (a : Answer) : Type 0 where
  pub row : CheckRow
  pub answered : a ≡ rows (some row)
  pub active_target : SaysTrue row.installed
  pub idempotency : SaysTrue row.idempotency_installed

state_ready : (t : ℕ) (i j : Bool) (d : Option ℕ) → (state_of t i j d).ready ≡ (i && j)
unfolding state_of
state_ready t i j d = ground arith

FoundBoth-of_ready : (t : ℕ) (a : Answer) → (observe t a).ready ≡ true → FoundBoth a
unfolding observe
FoundBoth-of_ready t (rows none) h = absurd (ground (arith, state_ready t false false (some 0)))
FoundBoth-of_ready t (rows (some row)) h =
    let (i, j) = (&&_iff (is_set row.installed) (is_set row.idempotency_installed)).0 (
      sym (
        state_ready t (is_set row.installed) (is_set row.idempotency_installed)
          row.duplicate_targets)
      ∙ h) in
    record {
      row = row;
      answered = refl;
      active_target = SaysTrue-of_set row.installed i;
      idempotency = SaysTrue-of_set row.idempotency_installed j;
    }
FoundBoth-of_ready t (failed m) h = absurd (ground arith)

ready_of_FoundBoth : (t : ℕ) (a : Answer) → FoundBoth a → (observe t a).ready ≡ true
unfolding observe
ready_of_FoundBoth t a f = rw f.answered (
    state_ready t (is_set f.row.installed) (is_set f.row.idempotency_installed)
      f.row.duplicate_targets
    ∙ (&&_iff _ _).1 (set_of_SaysTrue _ f.active_target, set_of_SaysTrue _ f.idempotency))

still_unready :
    (w w' : World) → w.serialization ≡ unverified → w ≡ w' → w'.serialization.ready ≡ true → ⊥
unfolding unverified
still_unready w w' fresh same r =
    let unready : w.serialization.ready ≡ false =
      ap (λ (s : RestoreSerializationState). s.ready) fresh in
    let moved : w.serialization.ready ≡ w'.serialization.ready =
      ap (λ (v : World). v.serialization.ready) same in
    absurd (ground arith)

module _ (ext : External) (check : World → Answer) where
  fail_start_world :
      (state : RestoreSerializationState) (w : World) → (fail_start ext check state w).1 ≡ w
  fail_start_world state w = ground arith

  verified_world :
      (w w' : World) (o : Outcome (Unit {0}))
      → verify_restore_serialization ext check w ≡ (o, w')
      → w' ≡ record w { serialization = observe (ext.now w) (check w) }
  unfolding verify_restore_serialization
  verified_world w w' o h =
      sym (ap (λ (r : Outcome (Unit {0}) × World). r.1) h)
      ∙ fail_start_world (observe (ext.now w) (check w))
          (record w { serialization = observe (ext.now w) (check w) })

  ready_found :
      (w w' : World) (o : Outcome (Unit {0}))
      → verify_restore_serialization ext check w ≡ (o, w')
      → w'.serialization.ready ≡ true
      → FoundBoth (check w)
  ready_found w w' o h r =
      FoundBoth-of_ready (ext.now w) (check w)
        (sym (ap (λ (v : World). v.serialization.ready) (verified_world w w' o h)) ∙ r)

  found_ready :
      (w w' : World) (o : Outcome (Unit {0}))
      → verify_restore_serialization ext check w ≡ (o, w')
      → FoundBoth (check w)
      → w'.serialization.ready ≡ true
  found_ready w w' o h f =
      ap (λ (v : World). v.serialization.ready) (verified_world w w' o h)
      ∙ ready_of_FoundBoth (ext.now w) (check w) f

  -- A check makes the service ready for restores exactly when its query answers with a row in which
  -- both indexes are said to be installed; it changes no table, and starts and sends nothing.
  pub ready_iff_both_found :
      (w w' : World) (o : Outcome (Unit {0}))
      → verify_restore_serialization ext check w ≡ (o, w')
      → ((w'.serialization.ready ≡ true) ↔ FoundBoth (check w))
        × (w' ≡ record w { serialization = w'.serialization })
  ready_iff_both_found w w' o h = ((ready_found w w' o h, found_ready w w' o h), unchanged)
    where
      unchanged : w' ≡ record w { serialization = w'.serialization }
      unchanged = rw (verified_world w w' o h)

  module _ (align : Action (Unit {0}))
      (aligns : (w : World) → (align w).1.serialization ≡ w.serialization) where
    alignment_serialization :
        (w : World) → (alignment ext check align w).1.serialization ≡ w.serialization
    unfolding alignment
    alignment_serialization w = ground (
      arith,
      aligns w,
      Bool-cases (field_eq (ext.env (text "BACKUPS_APPLY_SCHEMA_READINESS")) (text "false")),
    )

    proceeded :
        (a : Outcome (Unit {0})) (w₁ w' : World) (o : Outcome (Unit {0}))
        → w₁.serialization ≡ unverified
        → proceed a (λ u. verify_restore_serialization ext check) w₁ ≡ (o, w')
        → w'.serialization.ready ≡ true
        → FoundBoth (check w₁)
    proceeded (returned u) w₁ w' o fresh h r = ready_found w₁ w' o h r
    proceeded (threw e) w₁ w' o fresh h r =
        absurd (still_unready w₁ w' fresh (ap (λ (p : Outcome (Unit {0}) × World). p.1) h) r)
    proceeded unsettled w₁ w' o fresh h r =
        absurd (still_unready w₁ w' fresh (ap (λ (p : Outcome (Unit {0}) × World). p.1) h) r)

    started :
        (w w' : World) (o : Outcome (Unit {0}))
        → w.serialization ≡ unverified
        → apply ext check align w ≡ (o, w')
        → w'.serialization.ready ≡ true
        → FoundBoth (check (alignment ext check align w).1)
    unfolding apply
    started w w' o fresh h r =
        proceeded (alignment ext check align w).0 (alignment ext check align w).1 w' o
          (alignment_serialization w ∙ fresh) h r

    -- A service that has started, whether or not the alignment ran and however it ended, accepts a
    -- restore only where the query of the check, made after the alignment, found both indexes
    -- installed.
    pub started_accepts_only_if_found :
        (w w' w'' : World) (o : Outcome (Unit {0}))
        → w.serialization ≡ unverified
        → apply ext check align w ≡ (o, w')
        → (dto : CreateRestoreDto) (requested_by : Text) (q : RestoreRequest)
        → create ext dto requested_by w' ≡ (returned q, w'')
        → FoundBoth (check (alignment ext check align w).1)
    started_accepts_only_if_found w w' w'' o fresh h dto requested_by q accepted =
        elim (Bool-cases w'.serialization.ready) [
          | inl ready ↦ started w w' o fresh h ready
          | inr unready ↦
              let (e, refused) =
                unready_or_unapproved_refused ext dto requested_by w' (inr unready) in
              absurd (ground (arith, refused))
        ]
