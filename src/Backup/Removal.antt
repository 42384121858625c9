-- ===== src/Backup/Removal.antt =====
-- What `remove` of src/backup/backup.service.ts leaves.
use backups_microservice.Prelude.{
  ◌≡◌, refl, ◌⊎◌, inl, inr, Bool, true, false, ◌||◌, Option, none, some, ◌∷◌, arith, Bool-cases,
  Option-cases,
}
use backups_microservice.Js.{Text, is_empty, trim, text_or_empty}
use backups_microservice.Errors.{Error}
use backups_microservice.Entities.{BackupRun, AuditEvent, backup_run_deletion_blocked}
use backups_microservice.World.{World, External, Outcome, returned, threw, proceed, pure}
use backups_microservice.Repositories.{
  load_run, find_run, or_null, audit_row, record_or, record_audit,
}
use backups_microservice.Backup.{remove, blocked_event}

module _ (ext : External) (id actor : Text) (approval_actor approval_reason : Option Text)
    (w : World) where
  -- What a deletion that is approved leaves: its refusal in the audit, and nothing else.
  pub record BlockedIn (o : Outcome Text) (w' : World) : Type 0 where
    pub run : BackupRun
    pub event : AuditEvent
    pub found : find_run id w.db.runs ≡ some run
    pub answered : o ≡ returned run.id
    pub audited : w' ≡ record w { db = record w.db { audits = event ∷ w.db.audits } }
    pub action : event.action ≡ backup_run_deletion_blocked
    pub of_run : event.backup_run_id ≡ or_null (some run.id)
    pub approved_by : is_empty (trim (text_or_empty approval_actor)) ≡ false
    pub approved_for : is_empty (trim (text_or_empty approval_reason)) ≡ false
    pub reason : event.reason ≡ trim (text_or_empty approval_reason)

  -- Why a deletion is refused: there is no such run, it is not approved, or the database refuses the
  -- event.
  pub record RefusedIn (o : Outcome Text) (w' : World) : Type 0 where
    pub error : Error
    pub thrown : o ≡ threw error
    pub unchanged : w' ≡ w
    pub cause :
        (find_run id w.db.runs ≡ none)
        ⊎ (((is_empty (trim (text_or_empty approval_actor))
                || is_empty (trim (text_or_empty approval_reason)))
              ≡ true)
            ⊎ ((event : AuditEvent) × (ext.audit_refused event ≡ some error)))

  abbrev is_unapproved : Bool
  is_unapproved =
      is_empty (trim (text_or_empty approval_actor))
      || is_empty (trim (text_or_empty approval_reason))

  abbrev event_of : BackupRun → AuditEvent
  event_of run = audit_row (blocked_event ext actor (trim (text_or_empty approval_reason)) run)

  abbrev answer_of : BackupRun → Option Error → Outcome Text × World
  answer_of run refusal =
      let (o, w') = record_or refusal (event_of run) w in proceed o (λ u. pure run.id) w'

  audited_cases :
      (run : BackupRun)
      → find_run id w.db.runs ≡ some run
      → is_unapproved ≡ false
      → (refusal : Option Error) → ext.audit_refused (event_of run) ≡ refusal
      → BlockedIn (answer_of run refusal).0 (answer_of run refusal).1
        ⊎ RefusedIn (answer_of run refusal).0 (answer_of run refusal).1
  unfolding audit_row blocked_event
  audited_cases run found complete (some e) h =
      inr
        (record { error = e; thrown = refl; unchanged = refl; cause = inr (inr (event_of run, h)) })
  audited_cases run found complete none h = inl (record {
    run = run;
    event = event_of run;
    found = found;
    answered = refl;
    audited = refl;
    action = refl;
    of_run = refl;
    approved_by =
        ground (arith, complete, Bool-cases (is_empty (trim (text_or_empty approval_actor))));
    approved_for =
        ground (arith, complete, Bool-cases (is_empty (trim (text_or_empty approval_actor))));
    reason = refl;
  })

  -- The deletion of a run removes nothing. Either it is refused, and changes nothing: because there is
  -- no such run, because its approval has no actor or no reason, or because the database refuses the
  -- event. Or its approval is complete, and it adds one event to the audit and changes nothing else:
  -- that the deletion of this run was blocked, with the reason that was given.
  pub removal_only_audits :
      BlockedIn
        (remove ext id actor approval_actor approval_reason w).0
        (remove ext id actor approval_actor approval_reason w).1
      ⊎ RefusedIn
          (remove ext id actor approval_actor approval_reason w).0
          (remove ext id actor approval_actor approval_reason w).1
  unfolding remove load_run record_audit
  removal_only_audits = elim (Option-cases (find_run id w.db.runs)) [
    | inl missing ↦
        rw missing
          (inr (record { error = _; thrown = refl; unchanged = refl; cause = inl missing }))
    | inr (run, found) ↦ elim (Bool-cases is_unapproved) [
      | inl blank ↦
          rw (found, blank)
            (inr (record { error = _; thrown = refl; unchanged = refl; cause = inr (inl blank) }))
      | inr complete ↦
          rw (found, complete)
            (audited_cases run found complete (ext.audit_refused (event_of run)) refl)
    ]
  ]
