-- ===== src/Restore/Approval.antt =====
-- The checks at the top of `create` of src/restore/restore.service.ts, and repeated submissions.
use backups_microservice.Prelude.{
  ◌≤◌, ◌≡◌, refl, ◌≢◌, ◌↔◌, true, false, some, [], ◌∷◌, ◌++◌, arith, inl, inr, length, ◌⊎◌,
}
use backups_microservice.Js.{Text, text, field_eq, is_empty, trim}
use backups_microservice.Js.Laws.{text_eq_refl, text_eq_iff}
use backups_microservice.Js.Trimming.{trim_idem}
use backups_microservice.Errors.{Error, Result, ok, err, service_unavailable}
use backups_microservice.Entities.{RestoreRequest}
use backups_microservice.World.{World, External, returned, threw}
use backups_microservice.Repositories.{find_by_key}
use backups_microservice.Restore.Key.{CreateRestoreDto, clean, restore_idempotency_key}
use backups_microservice.Restore.Pin.{
  check_approval, replay_matches, assert_replay_matches, new_request,
  assert_restore_serialization_ready, create,
}

-- The approval of a request, stated apart from the code.
pub record IsApproved (dto : CreateRestoreDto) : Type 0 where
  pub confirms_run : dto.approval_confirmed_backup_run_id ≡ dto.backup_run_id
  pub confirms_target : dto.approval_confirmed_target_id ≡ dto.target_id
  pub ticked : dto.production_restore_approved ≡ true
  pub has_actor : trim dto.approval_actor ≢ []
  pub has_reason : 12 ≤ length (trim dto.approval_reason)

is_empty-false : (s : Text) → (is_empty s ≡ false) ↔ (s ≢ [])
unfolding is_empty
is_empty-false [] = ((λ h e. cc), (λ h. absurd (h refl)))
is_empty-false (c ∷ s) = ((λ h e. cc), (λ h. refl))

IsApproved-of_check : (dto : CreateRestoreDto) → check_approval dto ≡ ok tt → IsApproved dto
unfolding check_approval clean
IsApproved-of_check dto h = ground (
  arith,
  text_eq_iff dto.approval_confirmed_backup_run_id dto.backup_run_id,
  text_eq_iff dto.approval_confirmed_target_id dto.target_id,
  is_empty-false (trim dto.approval_actor),
)

check_of_approved : (dto : CreateRestoreDto) → IsApproved dto → check_approval dto ≡ ok tt
unfolding check_approval clean
check_of_approved dto h = ground (
  arith,
  text_eq_iff dto.approval_confirmed_backup_run_id dto.backup_run_id,
  text_eq_iff dto.approval_confirmed_target_id dto.target_id,
  is_empty-false (trim dto.approval_actor),
)

-- The checks at the top of `create` pass exactly for an approved request.
pub check_approval_iff : (dto : CreateRestoreDto) → (check_approval dto ≡ ok tt) ↔ IsApproved dto
check_approval_iff dto = (IsApproved-of_check dto, check_of_approved dto)

module _ (ext : External) (dto : CreateRestoreDto) (requested_by : Text) where
  refused_of_check :
      (e : Error) (w : World)
      → check_approval dto ≡ err e
      → create ext dto requested_by w ≡ (threw e, w)
  unfolding create
  refused_of_check e w h = rw h

  refused_unready :
      (w : World)
      → check_approval dto ≡ ok tt
      → w.serialization.ready ≡ false
      → create ext dto requested_by w ≡ (
        threw (
            service_unavailable
              (text "Restore requests are unavailable: " ++ w.serialization.reason)),
        w,
      )
  unfolding create assert_restore_serialization_ready
  refused_unready w c h = rw (c, h)

  -- A request that is not approved is refused, and so is any while the database is not known to
  -- serialize restores; a refusal changes nothing.
  pub unready_or_unapproved_refused :
      (w : World)
      → ¬ IsApproved dto ⊎ (w.serialization.ready ≡ false)
      → (e : Error) × (create ext dto requested_by w ≡ (threw e, w))
  unready_or_unapproved_refused w h = of_check (check_approval dto) refl
    where
      of_check :
          (c : Result (Unit {0}))
          → check_approval dto ≡ c
          → (e : Error) × (create ext dto requested_by w ≡ (threw e, w))
      of_check (err e) c = (e, refused_of_check e w c)
      of_check (ok t) c = (
        _,
        refused_unready w c (elim h [
          | inl unapproved ↦ absurd (unapproved (IsApproved-of_check dto c))
          | inr unready ↦ unready
        ]),
      )

  -- What a stored request has in common with the one that the same submission would create.
  pub record SameSubmission (key : Text) (w : World) (q : RestoreRequest) : Type 0 where
    pub run : q.backup_run_id ≡ (new_request ext dto requested_by key w).backup_run_id
    pub target : q.target_id ≡ (new_request ext dto requested_by key w).target_id
    pub actor : q.approval_actor ≡ (new_request ext dto requested_by key w).approval_actor
    pub reason : q.approval_reason ≡ (new_request ext dto requested_by key w).approval_reason
    pub confirmed_run :
        q.approval_confirmed_backup_run_id
        ≡ (new_request ext dto requested_by key w).approval_confirmed_backup_run_id
    pub confirmed_target :
        q.approval_confirmed_target_id
        ≡ (new_request ext dto requested_by key w).approval_confirmed_target_id
    pub ticked : q.production_restore_approved ≡ true
    pub requester : q.requested_by ≡ some requested_by

  submission_matches :
      (key : Text) (w : World) (q : RestoreRequest)
      → SameSubmission key w q
      → replay_matches q dto requested_by ≡ true
  unfolding replay_matches new_request clean field_eq
  submission_matches key w q h = ground (
    arith,
    text_eq_refl dto.backup_run_id,
    text_eq_refl dto.target_id,
    text_eq_refl dto.approval_confirmed_backup_run_id,
    text_eq_refl dto.approval_confirmed_target_id,
    text_eq_refl (trim dto.approval_actor),
    text_eq_refl (trim dto.approval_reason),
    text_eq_refl (trim requested_by),
    trim_idem dto.approval_actor,
    trim_idem dto.approval_reason,
  )

  -- An approved submission whose idempotency key already has a request, made by the same submission,
  -- is answered with that request, and nothing is written, started or sent.
  pub resubmission_replays :
      (w before : World) (q : RestoreRequest)
      → IsApproved dto
      → w.serialization.ready ≡ true
      → find_by_key (restore_idempotency_key ext.sha256_hex dto requested_by) w.db.requests ≡ some q
      → SameSubmission (restore_idempotency_key ext.sha256_hex dto requested_by) before q
      → create ext dto requested_by w ≡ (returned q, w)
  unfolding create assert_restore_serialization_ready assert_replay_matches
  resubmission_replays w before q approved ready found same =
      rw (check_of_approved dto approved, ready, found, submission_matches _ before q same)
