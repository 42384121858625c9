-- ===== src/Restore/Finality.antt =====
-- Restore requests that are over (src/restore/restore.service.ts), through later transactions.
use backups_microservice.Prelude.{
  ℕ, ◌≡◌, sym, ap, ◌∙◌, true, false, Option, none, some, List, [], ◌∷◌, arith, Bool-cases, inl, inr,
}
use backups_microservice.Js.{Text, text_eq}
use backups_microservice.Js.Laws.{eq_of_text_eq}
use backups_microservice.Entities.{BackupRun, BackupTarget, RestoreRequest}
use backups_microservice.World.{Db, World, External}
use backups_microservice.World.Keeps.{Keeps}
use backups_microservice.Repositories.{
  is_pending, is_terminal, find_request, find_active, save_request, insert_request, record_audit,
}
use backups_microservice.Restore.Key.{CreateRestoreDto}
use backups_microservice.Restore.Pin.{create_pin_work, insert_pin, new_request}
use backups_microservice.Restore.Terminal.{Ending, finish_request, persist_work, already_over}
use backups_microservice.Restore.Execution.{claim_requests, claim_work}
use backups_microservice.Restore.Steps.{
  Step, pins, inserts, claims, ends, deletes, Steps, done, step, Keeps-transaction, Keeps-delete,
  Keeps-create_pin_work,
}
use backups_microservice.Retention.{delete_expired_object}

-- What `WHERE id = id` finds once the request is over.
abbrev pub Holds : Text → RestoreRequest → List RestoreRequest → Type 0
Holds id q qs = find_request id qs ≡ some q

claimed-Holds :
    (id i : Text) (t : ℕ) (q : RestoreRequest) (qs : List RestoreRequest)
    → is_terminal q.status ≡ true
    → Holds id q qs
    → Holds id q (claim_requests i t qs)
unfolding find_request claim_requests is_terminal is_pending
claimed-Holds id i t q [] over h = cc
claimed-Holds id i t q (p ∷ qs) over h = ground (arith, claimed-Holds id i t q qs over)

pub saved-Holds :
    (id : Text) (q p : RestoreRequest) (qs : List RestoreRequest)
    → text_eq p.id id ≡ false
    → Holds id q qs
    → Holds id q (save_request p qs)
unfolding find_request save_request
saved-Holds id q p [] other h = cc
saved-Holds id q p (r ∷ qs) other h =
    ground (arith, saved-Holds id q p qs other, eq_of_text_eq r.id id, eq_of_text_eq r.id p.id)

pub inserted-Holds :
    (id : Text) (q p : RestoreRequest) (qs : List RestoreRequest)
    → find_request p.id qs ≡ none
    → Holds id q qs
    → Holds id q (p ∷ qs)
inserted-Holds id q p qs fresh h = elim (Bool-cases (text_eq p.id id)) [
  | inl same ↦
      absurd (none_some (sym fresh ∙ ap (λ i. find_request i qs) (eq_of_text_eq p.id id same) ∙ h))
  | inr other ↦ unfold find_request in rw other h
]
  where
    none_some : ¬ (none ≡ some q)
    none_some e = cc

live_other :
    (id : Text) (q p : RestoreRequest) (qs : List RestoreRequest)
    → is_terminal q.status ≡ true
    → Holds id q qs
    → already_over (find_request p.id qs) ≡ false
    → text_eq p.id id ≡ false
live_other id q p qs over h live = elim (Bool-cases (text_eq p.id id)) [
  | inl same ↦ absurd (
      true_false (
        sym over
        ∙ ap already_over (sym (ap (λ i. find_request i qs) (eq_of_text_eq p.id id same) ∙ h))
        ∙ live))
  | inr other ↦ other
]
  where
    true_false : ¬ (true ≡ false)
    true_false e = cc

module _ (ext : External) (id : Text) (q : RestoreRequest)
    (over : is_terminal q.status ≡ true) where
  abbrev Final : World → Type 0
  Final w = Holds id q w.db.requests

  claim_work-Final : (p : RestoreRequest) (r : BackupRun) (t : ℕ) → Keeps Final (claim_work p r t)
  unfolding claim_work
  claim_work-Final p r t = record {
    at = λ w h. ground (arith, claimed-Holds id p.id t q w.db.requests over h);
  }

  persist_work-Final :
      (p : RestoreRequest) (r : BackupRun) (t : BackupTarget) (e : Ending) (error : Option Text)
      (now : ℕ)
      → Keeps Final (persist_work ext p r t e error now)
  unfolding persist_work record_audit
  persist_work-Final p r t e error now = record {
    at = λ w h. elim (Bool-cases (already_over (find_request p.id w.db.requests))) [
      | inl ended ↦ rw ended h
      | inr live ↦ rw live (
          ground (
            arith,
            saved-Holds id q (finish_request e error now p) w.db.requests
                (unfold finish_request in live_other id q p w.db.requests over h live) h,
          ))
    ];
  }

  module _ (fresh : (db : Db) → find_request (ext.new_id db) db.requests ≡ none) where
    insert_pin-Final :
        (dto : CreateRestoreDto) (by key : Text) (t : BackupTarget) (r : BackupRun)
        (o : Option RestoreRequest)
        → Keeps Final (insert_pin ext dto by key t r o)
    unfolding insert_pin insert_request record_audit new_request
    insert_pin-Final dto by key t r (some p) = record { at = λ w h. h }
    insert_pin-Final dto by key t r none = record {
      at = λ w h. ground (
        arith,
        inserted-Holds id q (unfold new_request in new_request ext dto by key w) w.db.requests
            (fresh w.db) h,
      );
    }

    step-Final : {u v : World} → Step ext u v → Final u → Final v
    step-Final (pins dto by key t r w) h =
        Keeps-transaction ext (λ db. Holds id q db.requests) (create_pin_work ext dto by key t r) w
          (Keeps-create_pin_work ext (λ db. Holds id q db.requests) dto by key t r
            (λ v k.
              (insert_pin-Final dto by key t r (find_active dto.target_id v.db.requests)).at v k))
          h
    step-Final (inserts dto by key t r w) h =
        Keeps-transaction ext (λ db. Holds id q db.requests) (insert_pin ext dto by key t r none) w
          (insert_pin-Final dto by key t r none) h
    step-Final (claims p r now w) h =
        Keeps-transaction ext (λ db. Holds id q db.requests) (claim_work p r now) w
          (claim_work-Final p r now) h
    step-Final (ends p r t e error now w) h =
        Keeps-transaction ext (λ db. Holds id q db.requests) (persist_work ext p r t e error now) w
          (persist_work-Final p r t e error now) h
    step-Final (deletes env r o w) h =
        Keeps-transaction ext (λ db. Holds id q db.requests) (delete_expired_object ext env r o) w
          (Keeps-delete ext (λ db. Holds id q db.requests) env r o (λ db runs k. k)) h

    -- Where a new identifier is never one that a request already has, a request that has completed or
    -- failed keeps its row exactly as it is through any sequence of transactions.
    pub terminal_is_final :
        {w w' : World}
        → Steps ext w w'
        → find_request id w.db.requests ≡ some q
        → find_request id w'.db.requests ≡ some q
    terminal_is_final (done w) h = h
    terminal_is_final (step s rest) h = terminal_is_final rest (step-Final s h)
