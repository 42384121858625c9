-- ===== src/Restore/Taken.antt =====
-- Restore requests that no claim can take, in the tables of src/restore/restore.service.ts.
use backups_microservice.Prelude.{
  ℕ, ◌≡◌, ◌≤◌, refl, subst, true, false, none, List, [], ◌∷◌, any, filter, length, arith,
  Bool-cases, inl, inr,
}
use backups_microservice.Js.{Text, text_eq}
use backups_microservice.Js.Laws.{eq_of_text_eq}
use backups_microservice.Entities.{BackupRun, RestoreRequest}
use backups_microservice.World.{World, returned}
use backups_microservice.Repositories.{is_pending, find_request, save_request}
use backups_microservice.Restore.Execution.{is_claimable, claim_requests, claim_work}

no_claimable :
    (id : Text) (t : ℕ) (qs : List RestoreRequest)
    → filter (is_claimable id) (claim_requests id t qs) ≡ []
unfolding claim_requests is_pending
no_claimable id t [] = refl
no_claimable id t (q ∷ qs) = ground (arith, no_claimable id t qs)

claim_work_rows :
    (request : RestoreRequest) (run : BackupRun) (t : ℕ) (w w' : World)
    → claim_work request run t w ≡ (returned true, w')
    → w'.db.requests ≡ claim_requests request.id t w.db.requests
unfolding claim_work
claim_work_rows request run t w w' h = ground arith

pub claim_work_none :
    (request : RestoreRequest) (run : BackupRun) (t : ℕ) (w : World)
    → filter (is_claimable request.id) w.db.requests ≡ []
    → (claim_work request run t w).0 ≡ returned false
unfolding claim_work
claim_work_none request run t w h = rw h

abbrev pub HasRow : Text → List RestoreRequest → Type 0
HasRow id qs = any (λ q. text_eq q.id id) qs ≡ true

-- The request is in the table, and no claim can take it.
abbrev pub Taken : Text → List RestoreRequest → Type 0
Taken id qs = (filter (is_claimable id) qs ≡ []) × HasRow id qs

claimable_row :
    (id : Text) (qs : List RestoreRequest) → 1 ≤ length (filter (is_claimable id) qs) → HasRow id qs
unfolding is_claimable
claimable_row id [] h = absurd (omega (arith, h))
claimable_row id (q ∷ qs) h = ground (arith, claimable_row id qs, Bool-cases (text_eq q.id id))

pub kept_row :
    (id i : Text) (t : ℕ) (qs : List RestoreRequest)
    → HasRow id qs
    → HasRow id (claim_requests i t qs)
unfolding claim_requests
kept_row id i t [] h = h
kept_row id i t (q ∷ qs) h = ground (arith, kept_row id i t qs, Bool-cases (text_eq q.id id))

pub claimed-Taken-again :
    (id i : Text) (t : ℕ) (qs : List RestoreRequest)
    → filter (is_claimable id) qs ≡ []
    → filter (is_claimable id) (claim_requests i t qs) ≡ []
unfolding claim_requests is_pending
claimed-Taken-again id i t [] h = refl
claimed-Taken-again id i t (q ∷ qs) h = ground (arith, claimed-Taken-again id i t qs)

saved-unclaimable :
    (id : Text) (p : RestoreRequest) (qs : List RestoreRequest)
    → is_pending p.status ≡ false
    → filter (is_claimable id) qs ≡ []
    → filter (is_claimable id) (save_request p qs) ≡ []
unfolding save_request is_claimable
saved-unclaimable id p [] ended h = ground arith
saved-unclaimable id p (q ∷ qs) ended h =
    ground (arith, saved-unclaimable id p qs ended, Bool-cases (text_eq q.id p.id))

saved_row :
    (id : Text) (p : RestoreRequest) (qs : List RestoreRequest)
    → HasRow id qs
    → HasRow id (save_request p qs)
unfolding save_request
saved_row id p [] h = absurd (ground arith)
saved_row id p (q ∷ qs) h = ground (
  arith,
  saved_row id p qs,
  eq_of_text_eq q.id p.id,
  Bool-cases (text_eq q.id id),
  Bool-cases (text_eq q.id p.id),
)

pub saved-Taken :
    (id : Text) (p : RestoreRequest) (qs : List RestoreRequest)
    → is_pending p.status ≡ false
    → Taken id qs
    → Taken id (save_request p qs)
saved-Taken id p qs ended h = (saved-unclaimable id p qs ended (h.0), saved_row id p qs (h.1))

row_of_fresh :
    (id : Text) (qs : List RestoreRequest)
    → find_request id qs ≡ none
    → any (λ q. text_eq q.id id) qs ≡ false
unfolding find_request
row_of_fresh id [] h = refl
row_of_fresh id (q ∷ qs) h = ground (arith, row_of_fresh id qs, Bool-cases (text_eq q.id id))

pub inserted-Taken :
    (id : Text) (p : RestoreRequest) (qs : List RestoreRequest)
    → find_request p.id qs ≡ none
    → Taken id qs
    → Taken id (p ∷ qs)
unfolding is_claimable
inserted-Taken id p qs fresh h = elim (Bool-cases (text_eq p.id id)) [
  | inl same ↦ absurd (
      ground (
        arith,
        h,
        subst (λ i. any (λ (q : RestoreRequest). text_eq q.id i) qs ≡ false)
            (eq_of_text_eq p.id id same) (row_of_fresh p.id qs fresh),
      ))
  | inr other ↦ ground (arith, h)
]

pub claimed-Taken :
    (request : RestoreRequest) (run : BackupRun) (t : ℕ) (w w' : World)
    → claim_work request run t w ≡ (returned true, w')
    → Taken request.id w'.db.requests
unfolding claim_work
claimed-Taken request run t w w' h = rw (claim_work_rows request run t w w' h) (
  no_claimable request.id t w.db.requests,
  kept_row request.id request.id t w.db.requests
      (claimable_row request.id w.db.requests (ground arith)),
)
