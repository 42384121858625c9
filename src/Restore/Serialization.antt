-- ===== src/Restore/Serialization.antt =====
-- The restore requests of src/restore/restore.service.ts that are active at once.
use backups_microservice.Prelude.{
  ℕ, ◌≤◌, ◌≡◌, refl, subst, ◌&&◌, Option, none, some, List, [], ◌∷◌, arith, any, true, false,
  filter, length, Bool-cases, inl, inr,
}
use backups_microservice.Js.{Text, text_eq}
use backups_microservice.Js.Laws.{eq_of_text_eq}
use backups_microservice.Entities.{BackupRun, BackupTarget, RestoreRequest}
use backups_microservice.World.{Db, World, External}
use backups_microservice.World.Keeps.{Keeps}
use backups_microservice.Repositories.{
  is_active, is_pending, find_request, find_active, save_request, insert_request, record_audit,
  violates_active,
}
use backups_microservice.Restore.Key.{CreateRestoreDto}
use backups_microservice.Restore.Pin.{create_pin_work, insert_pin, new_request}
use backups_microservice.Restore.Terminal.{
  Ending, completed, failed, finish_request, persist_work, already_over,
}
use backups_microservice.Restore.Execution.{claim_requests, claim_work}
use backups_microservice.Restore.Steps.{
  Step, pins, inserts, claims, ends, deletes, Steps, done, step, Keeps-transaction, Keeps-delete,
  Keeps-create_pin_work,
}
use backups_microservice.Retention.{delete_expired_object}
use backups_microservice.Walg.{run}

-- The active requests of a target.
unfoldable pub active_of : Text → List RestoreRequest → List RestoreRequest
active_of target_id requests =
    filter (λ q. text_eq q.target_id target_id && is_active q.status) requests

-- No target has two requests that are pending or running.
unfoldable pub IsSerialized : Text → List RestoreRequest → Type 0
unfolding active_of
IsSerialized target_id requests = length (active_of target_id requests) ≤ 1

no_active :
    (target_id : Text) (qs : List RestoreRequest)
    → find_active target_id qs ≡ none
    → active_of target_id qs ≡ []
unfolding find_active active_of
no_active target_id [] h = refl
no_active target_id (q ∷ qs) h = ground (arith, no_active target_id qs)

active_of-claim_requests :
    (target_id id : Text) (t : ℕ) (qs : List RestoreRequest)
    → length (active_of target_id (claim_requests id t qs)) ≡ length (active_of target_id qs)
unfolding active_of claim_requests is_active is_pending
active_of-claim_requests target_id id t [] = refl
active_of-claim_requests target_id id t (q ∷ qs) =
    ground (arith, active_of-claim_requests target_id id t qs)

active_of-save_finished :
    (target_id : Text) (e : Ending) (error : Option Text) (t : ℕ) (q : RestoreRequest)
    (qs : List RestoreRequest)
    → length (active_of target_id (save_request (finish_request e error t q) qs))
      ≤ length (active_of target_id qs)
unfolding active_of save_request finish_request is_active
active_of-save_finished target_id completed error t q [] = ground arith
active_of-save_finished target_id completed error t q (p ∷ qs) =
    ground (arith, active_of-save_finished target_id completed error t q qs)
active_of-save_finished target_id failed error t q [] = ground arith
active_of-save_finished target_id failed error t q (p ∷ qs) =
    ground (arith, active_of-save_finished target_id failed error t q qs)

IsSerialized-finish :
    (target_id : Text) (e : Ending) (error : Option Text) (t : ℕ) (q : RestoreRequest)
    (qs : List RestoreRequest)
    → IsSerialized target_id qs
    → IsSerialized target_id (save_request (finish_request e error t q) qs)
unfolding IsSerialized
IsSerialized-finish target_id e error t q qs h =
    omega (arith, h, active_of-save_finished target_id e error t q qs)

IsSerialized-insert :
    (target_id : Text) (q : RestoreRequest) (qs : List RestoreRequest)
    → find_active q.target_id qs ≡ none
    → IsSerialized target_id qs
    → IsSerialized target_id (q ∷ qs)
unfolding IsSerialized active_of
IsSerialized-insert target_id q qs h i = elim (Bool-cases (text_eq q.target_id target_id)) [
  | inl same ↦
      let none_active =
        no_active target_id qs
          (subst (λ t. find_active t qs ≡ none) (eq_of_text_eq q.target_id target_id same) h) in
      ground (arith, none_active)
  | inr other ↦ ground (arith, i)
]

none_matches :
    (target_id : Text) (qs : List RestoreRequest)
    → any (λ p. text_eq p.target_id target_id && is_active p.status) qs ≡ false
    → find_active target_id qs ≡ none
unfolding find_active
none_matches target_id [] h = refl
none_matches target_id (q ∷ qs) h = ground (arith, none_matches target_id qs)

-- The unique index is installed, and no target has two active requests.
abbrev SerialDb : Text → Db → Type 0
SerialDb target_id db = (db.active_target_index ≡ true) × IsSerialized target_id db.requests

module _ (ext : External) (target_id : Text) where
  abbrev Serial : World → Type 0
  Serial w = SerialDb target_id w.db

  -- The database lets a row in only where the index finds no active request of its target.
  insert_pin-Serial :
      (dto : CreateRestoreDto) (requested_by key : Text) (target : BackupTarget) (run : BackupRun)
      (o : Option RestoreRequest)
      → Keeps Serial (insert_pin ext dto requested_by key target run o)
  unfolding insert_pin insert_request record_audit new_request violates_active is_active
  insert_pin-Serial dto requested_by key target run (some q) = record { at = λ w h. h }
  insert_pin-Serial dto requested_by key target run none = record {
    at = λ w h.
        let q : RestoreRequest = unfold new_request in new_request ext dto requested_by key w in
        elim (Bool-cases
          (any (λ p. text_eq p.target_id dto.target_id && is_active p.status) w.db.requests)) [
            | inl taken ↦ ground (arith, taken, h)
            | inr free ↦
                let inserted : IsSerialized target_id (q ∷ w.db.requests) =
                  IsSerialized-insert target_id q w.db.requests
                    (none_matches dto.target_id w.db.requests free) h.1 in
                ground (arith, inserted, h)
          ];
  }

  claim_work-Serial : (q : RestoreRequest) (r : BackupRun) (t : ℕ) → Keeps Serial (claim_work q r t)
  unfolding claim_work IsSerialized
  claim_work-Serial q r t = record {
    at = λ w h. ground (arith, active_of-claim_requests target_id q.id t w.db.requests);
  }

  persist_work-Serial :
      (q : RestoreRequest) (r : BackupRun) (t : BackupTarget) (e : Ending) (error : Option Text)
      (now : ℕ)
      → Keeps Serial (persist_work ext q r t e error now)
  unfolding persist_work record_audit
  persist_work-Serial q r t e error now = record {
    at = λ w h. elim (Bool-cases (already_over (find_request q.id w.db.requests))) [
      | inl over ↦ rw over h
      | inr live ↦
          rw live (ground (arith, IsSerialized-finish target_id e error now q w.db.requests h.1))
    ];
  }

  step-Serial : {u v : World} → Step ext u v → Serial u → Serial v
  step-Serial (pins dto by key t r w) h =
      Keeps-transaction ext (SerialDb target_id) (create_pin_work ext dto by key t r) w
        (Keeps-create_pin_work ext (SerialDb target_id) dto by key t r (λ v k.
          (insert_pin-Serial dto by key t r (find_active dto.target_id v.db.requests)).at v k))
        h
  step-Serial (inserts dto by key t r w) h =
      Keeps-transaction ext (SerialDb target_id) (insert_pin ext dto by key t r none) w
        (insert_pin-Serial dto by key t r none) h
  step-Serial (claims q r now w) h =
      Keeps-transaction ext (SerialDb target_id) (claim_work q r now) w (claim_work-Serial q r now)
        h
  step-Serial (ends q r t e error now w) h =
      Keeps-transaction ext (SerialDb target_id) (persist_work ext q r t e error now) w
        (persist_work-Serial q r t e error now) h
  step-Serial (deletes env r o w) h =
      Keeps-transaction ext (SerialDb target_id) (delete_expired_object ext env r o) w
        (Keeps-delete ext (SerialDb target_id) env r o (λ db runs k. k)) h

  steps-Serial : {w w' : World} → Steps ext w w' → Serial w → Serial w'
  steps-Serial (done w) h = h
  steps-Serial (step s rest) h = steps-Serial rest (step-Serial s h)

-- Where the unique index of active targets is installed, a target never comes to have two requests
-- that are pending or running: through any sequence of transactions, in any order and with whatever
-- the callers hold, where the insertion of a pin may come long after its reads.
pub one_active_per_target :
    (ext : External) (target_id : Text) {w w' : World}
    → Steps ext w w'
    → w.db.active_target_index ≡ true
    → IsSerialized target_id w.db.requests
    → IsSerialized target_id w'.db.requests
one_active_per_target ext target_id s index h = (steps-Serial ext target_id s (index, h)).1
