-- ===== src/Restore/Lifecycle.antt =====
-- The status of one restore request through the transactions of src/restore/restore.service.ts, as
-- an abstract life cycle.
use backups_microservice.Prelude.{
  ℕ, ◌≡◌, refl, sym, ap, ◌∙◌, true, false, Option, none, some, List, [], ◌∷◌, arith, Bool-cases,
  inl, inr, if◌then◌else◌, subst,
}
use backups_microservice.Js.{Text, text_eq}
use backups_microservice.Js.Laws.{eq_of_text_eq, text_eq_refl}
use backups_microservice.Entities.{BackupRun, BackupTarget, RestoreRequest, RestoreStatus}
use backups_microservice.World.{Db, World, External}
use backups_microservice.World.Keeps.{Keeps}
use backups_microservice.Repositories.{
  is_pending, is_terminal, find_request, find_active, save_request, insert_request, record_audit,
}
use backups_microservice.Restore.Key.{CreateRestoreDto}
use backups_microservice.Restore.Pin.{create_pin_work, insert_pin, new_request}
use backups_microservice.Restore.Terminal.{
  Ending, final_status, finish_request, persist_work, already_over,
}
use backups_microservice.Restore.Execution.{claim_requests, claim_work, is_claimable, claim_request}
use backups_microservice.Restore.Steps.{
  Step, pins, inserts, claims, ends, deletes, Steps, done, step, Keeps-transaction, Keeps-delete,
  Keeps-create_pin_work,
}
use backups_microservice.Restore.Finality.{inserted-Holds, saved-Holds}
use backups_microservice.Retention.{delete_expired_object}

-- The life of a request: it is claimed while it waits, and it ends once, completed or failed.
pub data Advance : RestoreStatus → RestoreStatus → Type 0 where
  claim_step : Advance RestoreStatus.pending RestoreStatus.running
  end_step : (e : Ending) {s : RestoreStatus} → is_terminal s ≡ false → Advance s (final_status e)

pub data LifeCycle : RestoreStatus → RestoreStatus → Type 0 where
  stays : (s : RestoreStatus) → LifeCycle s s
  advances : {r s t : RestoreStatus} → Advance r s → LifeCycle s t → LifeCycle r t

LifeCycle-trans : {r s t : RestoreStatus} → LifeCycle r s → LifeCycle s t → LifeCycle r t
LifeCycle-trans (stays s) l = l
LifeCycle-trans (advances a k) l = advances a (LifeCycle-trans k l)

-- A request that is found, at a status that the life cycle reaches.
pub record Lives (id : Text) (s : RestoreStatus) (qs : List RestoreRequest) : Type 0 where
  pub request : RestoreRequest
  pub found : find_request id qs ≡ some request
  pub reached : LifeCycle s request.status

Lives-same :
    (id : Text) (q : RestoreRequest) (qs : List RestoreRequest)
    → find_request id qs ≡ some q
    → Lives id q.status qs
Lives-same id q qs h = record { request = q; found = h; reached = stays q.status }

Lives-after :
    (id : Text) (s : RestoreStatus) (q : RestoreRequest) (qs : List RestoreRequest)
    → LifeCycle s q.status
    → Lives id q.status qs
    → Lives id s qs
Lives-after id s q qs l v = record {
  request = v.request;
  found = v.found;
  reached = LifeCycle-trans l v.reached;
}

Lives-tail :
    (id : Text) (s : RestoreStatus) (p : RestoreRequest) (qs : List RestoreRequest)
    → text_eq p.id id ≡ false
    → Lives id s qs
    → Lives id s (p ∷ qs)
Lives-tail id s p qs other v = record {
  request = v.request;
  found = unfold find_request in rw other v.found;
  reached = v.reached;
}

-- A row as `claim_requests` leaves it.
claimed_row : Text → ℕ → RestoreRequest → RestoreRequest
claimed_row i t q = if is_claimable i q then claim_request t q else q

claimed_id : (i : Text) (t : ℕ) (q : RestoreRequest) → (claimed_row i t q).id ≡ q.id
unfolding claim_request claimed_row
claimed_id i t q = ground arith

status_pending : (s : RestoreStatus) → is_pending s ≡ true → s ≡ RestoreStatus.pending
unfolding is_pending
status_pending RestoreStatus.pending h = refl
status_pending RestoreStatus.running h = cc
status_pending RestoreStatus.completed h = cc
status_pending RestoreStatus.failed h = cc

claimable_waits :
    (i : Text) (q : RestoreRequest) → is_claimable i q ≡ true → is_pending q.status ≡ true
unfolding is_claimable
claimable_waits i q h = ground arith

claimed_cycle :
    (i : Text) (t : ℕ) (q : RestoreRequest) → LifeCycle q.status (claimed_row i t q).status
unfolding claim_request claimed_row
claimed_cycle i t q = elim (Bool-cases (is_claimable i q)) [
  | inl claimable ↦
      let waits : q.status ≡ RestoreStatus.pending =
        status_pending q.status (claimable_waits i q claimable) in
      rw claimable (
        subst (λ s. LifeCycle s RestoreStatus.running) (sym waits)
          (advances claim_step (stays RestoreStatus.running)))
  | inr other ↦ rw other (stays q.status)
]

claimed-Lives :
    (id i : Text) (t : ℕ) (q : RestoreRequest) (qs : List RestoreRequest)
    → find_request id qs ≡ some q
    → Lives id q.status (claim_requests i t qs)
unfolding find_request claim_requests claimed_row
claimed-Lives id i t q [] h = absurd (ground arith)
claimed-Lives id i t q (p ∷ qs) h = elim (Bool-cases (text_eq p.id id)) [
  | inl same ↦
      let e : p ≡ q = ground (arith, same) in
      record {
        request = claimed_row i t p;
        found = ground (arith, same, claimed_id i t p);
        reached =
            subst (λ (r : RestoreRequest). LifeCycle r.status (claimed_row i t p).status) e
              (claimed_cycle i t p);
      }
  | inr other ↦
      Lives-tail id q.status (claimed_row i t p) (claim_requests i t qs)
        (ground (arith, other, claimed_id i t p))
        (claimed-Lives id i t q qs (ground (arith, other)))
]

find-save_request :
    (p : RestoreRequest) (qs : List RestoreRequest) → find_request p.id (save_request p qs) ≡ some p
unfolding find_request save_request
find-save_request p [] = rw (text_eq_refl p.id)
find-save_request p (q ∷ qs) =
    ground (arith, find-save_request p qs, text_eq_refl p.id, Bool-cases (text_eq q.id p.id))

saved-Lives :
    (id : Text) (e : Ending) (error : Option Text) (t : ℕ) (p q : RestoreRequest)
    (qs : List RestoreRequest)
    → find_request id qs ≡ some q
    → already_over (find_request p.id qs) ≡ false
    → Lives id q.status (save_request (finish_request e error t p) qs)
unfolding finish_request
saved-Lives id e error t p q qs h live = elim (Bool-cases (text_eq p.id id)) [
  | inl same ↦
      let here : p.id ≡ id = eq_of_text_eq p.id id same in
      let running : is_terminal q.status ≡ false =
        sym (ap already_over (ap (λ i. find_request i qs) here ∙ h)) ∙ live in
      record {
        request = finish_request e error t p;
        found =
            ap (λ i. find_request i (save_request (finish_request e error t p) qs)) (sym here)
            ∙ find-save_request (finish_request e error t p) qs;
        reached = advances (end_step e running) (stays (final_status e));
      }
  | inr other ↦ record {
    request = q;
    found = saved-Holds id q (finish_request e error t p) qs other h;
    reached = stays q.status;
  }
]

-- A transaction takes what is found to what the life cycle reaches from it.
module _ (ext : External) (id : Text) (s : RestoreStatus) where
  abbrev Alive : World → Type 0
  Alive w = Lives id s w.db.requests

  claim_work-Lives : (p : RestoreRequest) (r : BackupRun) (t : ℕ) → Keeps Alive (claim_work p r t)
  unfolding claim_work
  claim_work-Lives p r t = record {
    at = λ w v.
        let moved =
          Lives-after id s v.request (claim_requests p.id t w.db.requests) v.reached
            (claimed-Lives id p.id t v.request w.db.requests v.found) in
        ground arith;
  }

  persist_work-Lives :
      (p : RestoreRequest) (r : BackupRun) (t : BackupTarget) (e : Ending) (error : Option Text)
      (now : ℕ)
      → Keeps Alive (persist_work ext p r t e error now)
  unfolding persist_work record_audit
  persist_work-Lives p r t e error now = record {
    at = λ w v. elim (Bool-cases (already_over (find_request p.id w.db.requests))) [
      | inl ended ↦ rw ended v
      | inr live ↦
          let moved =
            Lives-after id s v.request (save_request (finish_request e error now p) w.db.requests)
              v.reached (saved-Lives id e error now p v.request w.db.requests v.found live) in
          rw live (ground arith)
    ];
  }

  module _ (fresh : (db : Db) → find_request (ext.new_id db) db.requests ≡ none) where
    insert_pin-Lives :
        (dto : CreateRestoreDto) (by key : Text) (t : BackupTarget) (r : BackupRun)
        (o : Option RestoreRequest)
        → Keeps Alive (insert_pin ext dto by key t r o)
    unfolding insert_pin insert_request record_audit new_request
    insert_pin-Lives dto by key t r (some p) = record { at = λ w v. v }
    insert_pin-Lives dto by key t r none = record {
      at = λ w v.
          let p : RestoreRequest = new_request ext dto by key w in
          let kept : Lives id s (p ∷ w.db.requests) = record {
            request = v.request;
            found = inserted-Holds id v.request p w.db.requests (fresh w.db) v.found;
            reached = v.reached;
          } in
          ground arith;
    }

    step-Lives : {u v : World} → Step ext u v → Alive u → Alive v
    step-Lives (pins dto by key t r w) h =
        Keeps-transaction ext (λ db. Lives id s db.requests) (create_pin_work ext dto by key t r) w
          (Keeps-create_pin_work ext (λ db. Lives id s db.requests) dto by key t r
            (λ v k.
              (insert_pin-Lives dto by key t r (find_active dto.target_id v.db.requests)).at v k))
          h
    step-Lives (inserts dto by key t r w) h =
        Keeps-transaction ext (λ db. Lives id s db.requests) (insert_pin ext dto by key t r none) w
          (insert_pin-Lives dto by key t r none) h
    step-Lives (claims p r now w) h =
        Keeps-transaction ext (λ db. Lives id s db.requests) (claim_work p r now) w
          (claim_work-Lives p r now) h
    step-Lives (ends p r t e error now w) h =
        Keeps-transaction ext (λ db. Lives id s db.requests) (persist_work ext p r t e error now) w
          (persist_work-Lives p r t e error now) h
    step-Lives (deletes env r o w) h =
        Keeps-transaction ext (λ db. Lives id s db.requests) (delete_expired_object ext env r o) w
          (Keeps-delete ext (λ db. Lives id s db.requests) env r o (λ db runs k. k)) h

    steps-Lives : {w w' : World} → Steps ext w w' → Alive w → Alive w'
    steps-Lives (done w) h = h
    steps-Lives (step first rest) h = steps-Lives rest (step-Lives first h)

-- The transactions of the service refine the life cycle of a request: whatever sequence of them
-- runs, a request that is in the table stays there, and its status goes only from pending to
-- running, and from one of these to completed or failed. A new identifier must never be one that a
-- request already has.
pub transactions_refine_life_cycle :
    (ext : External) (id : Text) (q : RestoreRequest)
    → ((db : Db) → find_request (ext.new_id db) db.requests ≡ none)
    → {w w' : World} → Steps ext w w'
    → find_request id w.db.requests ≡ some q
    → Lives id q.status w'.db.requests
transactions_refine_life_cycle ext id q fresh {w} s h =
    steps-Lives ext id q.status fresh s (Lives-same id q w.db.requests h)
