-- ===== src/Restore/Once.antt =====
-- Repeated claims and endings of one request: `claimForExecution` and `persistTerminalState` of
-- src/restore/restore.service.ts.
use backups_microservice.Prelude.{
  ℕ, ◌≡◌, refl, true, false, Option, none, some, List, [], ◌∷◌, arith, Bool-cases, inl, inr,
}
use backups_microservice.Js.{Text}
use backups_microservice.Js.Laws.{text_eq_refl}
use backups_microservice.Entities.{BackupRun, BackupTarget, RestoreRequest}
use backups_microservice.World.{Db, World, External, returned}
use backups_microservice.World.Keeps.{Keeps}
use backups_microservice.Repositories.{
  is_pending, is_terminal, find_request, find_active, save_request, insert_request, record_audit,
}
use backups_microservice.Restore.Terminal.{
  Ending, completed, failed, finish_request, persist_work, already_over,
}
use backups_microservice.Restore.Execution.{claim_work}
use backups_microservice.Restore.Key.{CreateRestoreDto}
use backups_microservice.Restore.Pin.{create_pin_work, insert_pin, new_request}
use backups_microservice.Restore.Steps.{
  Step, pins, inserts, claims, ends, deletes, Steps, done, step, Keeps-transaction, Keeps-delete,
  Keeps-create_pin_work,
}
use backups_microservice.Restore.Finality.{terminal_is_final}
use backups_microservice.Retention.{delete_expired_object}
use backups_microservice.Restore.Taken.{
  Taken, claim_work_none, kept_row, claimed-Taken, claimed-Taken-again, saved-Taken, inserted-Taken,
}

-- A row is found under the identifier that it was saved with.
find_request-save_request :
    (q : RestoreRequest) (qs : List RestoreRequest) → find_request q.id (save_request q qs) ≡ some q
unfolding find_request save_request
find_request-save_request q [] = ground (arith, text_eq_refl q.id)
find_request-save_request q (p ∷ qs) =
    ground (arith, text_eq_refl q.id, find_request-save_request q qs)

finished_is_terminal :
    (ending : Ending) (error : Option Text) (t : ℕ) (request : RestoreRequest)
    → is_terminal (finish_request ending error t request).status ≡ true
unfolding finish_request is_terminal
finished_is_terminal completed error t request = refl
finished_is_terminal failed error t request = refl

finished_not_pending :
    (ending : Ending) (error : Option Text) (t : ℕ) (request : RestoreRequest)
    → is_pending (finish_request ending error t request).status ≡ false
unfolding finish_request is_pending
finished_not_pending completed error t request = refl
finished_not_pending failed error t request = refl

module _ (ext : External) where
  persist_rows :
      (request : RestoreRequest) (run : BackupRun) (target : BackupTarget) (ending : Ending)
      (error : Option Text) (t : ℕ) (w w' : World)
      → persist_work ext request run target ending error t w ≡ (returned true, w')
      → w'.db.requests ≡ save_request (finish_request ending error t request) w.db.requests
  unfolding persist_work record_audit
  persist_rows request run target ending error t w w' h = ground arith

  persist_over :
      (request : RestoreRequest) (run : BackupRun) (target : BackupTarget) (ending : Ending)
      (error : Option Text) (t : ℕ) (w : World)
      → already_over (find_request request.id w.db.requests) ≡ true
      → persist_work ext request run target ending error t w ≡ (returned false, w)
  unfolding persist_work
  persist_over request run target ending error t w h = rw h

  found_finished :
      (request : RestoreRequest) (run : BackupRun) (target : BackupTarget) (ending : Ending)
      (error : Option Text) (t : ℕ) (w w' : World)
      → persist_work ext request run target ending error t w ≡ (returned true, w')
      → find_request request.id w'.db.requests ≡ some (finish_request ending error t request)
  unfolding finish_request
  found_finished request run target completed error t w w' h =
      rw (persist_rows request run target completed error t w w' h)
        (find_request-save_request (finish_request completed error t request) w.db.requests)
  found_finished request run target failed error t w w' h =
      rw (persist_rows request run target failed error t w w' h)
        (find_request-save_request (finish_request failed error t request) w.db.requests)

  -- What a claim left taken stays so through later transactions.
  module _ (id : Text) (fresh : (db : Db) → find_request (ext.new_id db) db.requests ≡ none) where
    abbrev TakenDb : Db → Type 0
    TakenDb db = Taken id db.requests

    abbrev TakenIn : World → Type 0
    TakenIn w = Taken id w.db.requests

    insert_pin-Taken :
        (dto : CreateRestoreDto) (by key : Text) (t : BackupTarget) (r : BackupRun)
        (o : Option RestoreRequest)
        → Keeps TakenIn (insert_pin ext dto by key t r o)
    unfolding insert_pin insert_request record_audit new_request
    insert_pin-Taken dto by key t r (some p) = record { at = λ w h. h }
    insert_pin-Taken dto by key t r none = record {
      at = λ w h.
          let p : RestoreRequest = new_request ext dto by key w in
          let kept : Taken id (p ∷ w.db.requests) =
            inserted-Taken id p w.db.requests (fresh w.db) h in
          ground (arith, kept);
    }

    claim_work-Taken :
        (p : RestoreRequest) (r : BackupRun) (t : ℕ) → Keeps TakenIn (claim_work p r t)
    unfolding claim_work
    claim_work-Taken p r t = record {
      at = λ w h. ground (
        arith,
        claimed-Taken-again id p.id t w.db.requests (h.0),
        kept_row id p.id t w.db.requests (h.1),
      );
    }

    persist_work-Taken :
        (p : RestoreRequest) (r : BackupRun) (t : BackupTarget) (e : Ending) (error : Option Text)
        (now : ℕ)
        → Keeps TakenIn (persist_work ext p r t e error now)
    unfolding persist_work record_audit
    persist_work-Taken p r t e error now = record {
      at = λ w h. elim (Bool-cases (already_over (find_request p.id w.db.requests))) [
        | inl ended ↦ rw ended h
        | inr live ↦
            let kept =
              saved-Taken id (finish_request e error now p) w.db.requests
                (finished_not_pending e error now p) h in
            rw live (ground (arith, kept))
      ];
    }

    step-Taken : {u v : World} → Step ext u v → TakenIn u → TakenIn v
    step-Taken (pins dto by key t r w) h =
        Keeps-transaction ext TakenDb (create_pin_work ext dto by key t r) w
          (Keeps-create_pin_work ext TakenDb dto by key t r (λ v k.
            (insert_pin-Taken dto by key t r (find_active dto.target_id v.db.requests)).at v k))
          h
    step-Taken (inserts dto by key t r w) h =
        Keeps-transaction ext TakenDb (insert_pin ext dto by key t r none) w
          (insert_pin-Taken dto by key t r none) h
    step-Taken (claims p r now w) h =
        Keeps-transaction ext TakenDb (claim_work p r now) w (claim_work-Taken p r now) h
    step-Taken (ends p r t e error now w) h =
        Keeps-transaction ext TakenDb (persist_work ext p r t e error now) w
          (persist_work-Taken p r t e error now) h
    step-Taken (deletes env r o w) h =
        Keeps-transaction ext TakenDb (delete_expired_object ext env r o) w
          (Keeps-delete ext TakenDb env r o (λ db runs k. k)) h

    steps-Taken : {w w' : World} → Steps ext w w' → TakenIn w → TakenIn w'
    steps-Taken (done w) h = h
    steps-Taken (step s rest) h = steps-Taken rest (step-Taken s h)

  module _ (fresh : (db : Db) → find_request (ext.new_id db) db.requests ≡ none) where
    -- After a claim that succeeded, every further claim of the same request fails: whatever
    -- transactions come in between, and whatever copies of the rows it holds. A new identifier must
    -- never be one that a request already has.
    pub claimed_once :
        (request other : RestoreRequest) (run run' : BackupRun) (t t' : ℕ) (w w' w'' : World)
        → claim_work request run t w ≡ (returned true, w')
        → Steps ext w' w''
        → other.id ≡ request.id
        → (claim_work other run' t' w'').0 ≡ returned false
    claimed_once request other run run' t t' w w' w'' h between same =
        claim_work_none other run' t' w''
          (rw same ((steps-Taken request.id fresh between (claimed-Taken request run t w w' h)).0))

    -- Once a transition to a terminal status has been written, no other is: whatever transactions come
    -- in between, a later attempt returns false and changes nothing. A new identifier must never be
    -- one that a request already has.
    pub terminal_once :
        (request other : RestoreRequest) (run run' : BackupRun) (target target' : BackupTarget)
        (ending ending' : Ending) (error error' : Option Text) (t t' : ℕ) (w w' w'' : World)
        → persist_work ext request run target ending error t w ≡ (returned true, w')
        → Steps ext w' w''
        → other.id ≡ request.id
        → persist_work ext other run' target' ending' error' t' w'' ≡ (returned false, w'')
    terminal_once request other run run' target target' ending ending' error error' t t' w w' w'' h
          between same =
        let q = finish_request ending error t request in
        let over =
          terminal_is_final ext request.id q (finished_is_terminal ending error t request) fresh
            between (found_finished request run target ending error t w w' h) in
        persist_over other run' target' ending' error' t' w''
          (rw (same, over) (finished_is_terminal ending error t request))
