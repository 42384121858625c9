-- ===== src/World/Keeps.antt =====
-- Invariants of actions: one rule for each way to build an action.
use backups_microservice.Prelude.{
  ◌≡◌, refl, sym, subst, Bool, true, false, Option, none, some, if◌then◌else◌,
}
use backups_microservice.Js.{Text}
use backups_microservice.Errors.{Error, Result, ok, err}
use backups_microservice.World.{
  Db, World, External, Outcome, returned, threw, unsettled, Action, pure, throw, gets, lift,
  or_throw, proceed, ◌>>=◌, recover, catch, commit_or_roll_back, Grant, granted, refused,
  under_lock, LockRuns,
}

-- Whatever `m` gives, what held before it holds after it.
pub record Keeps {ℓ} {A : Type ℓ} (P : World → Type 0) (m : Action A) : Type 0 where
  pub at : (w : World) → P w → P (m w).1

module _ (P : World → Type 0) where
  lift_at {ℓ} : {A : Type ℓ} (r : Result A) (w : World) → P w → P (lift r w).1
  lift_at (ok a) w h = h
  lift_at (err e) w h = h

  or_throw_at {ℓ} : {A : Type ℓ} (e : Error) (o : Option A) (w : World) → P w → P (or_throw e o w).1
  or_throw_at e none w h = h
  or_throw_at e (some a) w h = h

module _ {P : World → Type 0} where
  pub Keeps-pure {ℓ} : {A : Type ℓ} (a : A) → Keeps P (pure a)
  Keeps-pure a = record { at = λ w h. h }

  pub Keeps-throw {ℓ} : {A : Type ℓ} (e : Error) → Keeps P (throw {A = A} e)
  Keeps-throw e = record { at = λ w h. h }

  pub Keeps-gets {ℓ} : {A : Type ℓ} (f : World → A) → Keeps P (gets f)
  Keeps-gets f = record { at = λ w h. h }

  pub Keeps-lift {ℓ} : {A : Type ℓ} (r : Result A) → Keeps P (lift r)
  Keeps-lift r = record { at = lift_at P r }

  pub Keeps-or_throw {ℓ} : {A : Type ℓ} (e : Error) (o : Option A) → Keeps P (or_throw e o)
  Keeps-or_throw e o = record { at = or_throw_at P e o }

  pub Keeps-if {ℓ} :
      {A : Type ℓ} (test : Bool) (left right : Action A)
      → (test ≡ true → Keeps P left)
      → (test ≡ false → Keeps P right)
      → Keeps P (if test then left else right)
  Keeps-if false left right on_left on_right = on_right refl
  Keeps-if true left right on_left on_right = on_left refl

  proceed_at {ℓ κ} :
      {A : Type ℓ} {B : Type κ} (r : Outcome A) (f : A → Action B)
      → ((a : A) → Keeps P (f a))
      → (w : World) → P w
      → P (proceed r f w).1
  proceed_at (returned a) f k w h = (k a).at w h
  proceed_at (threw e) f k w h = h
  proceed_at unsettled f k w h = h

  pub Keeps-bind {ℓ κ} :
      {A : Type ℓ} {B : Type κ} (m : Action A) (f : A → Action B)
      → Keeps P m
      → ((a : A) → Keeps P (f a))
      → Keeps P (m >>= f)
  Keeps-bind m f km kf = record {
    at = λ w h. let (r, w') = m w in proceed_at r f kf w' (km.at w h);
  }

  recover_at {ℓ} :
      {A : Type ℓ} (r : Outcome A) (handler : Error → Action A)
      → ((e : Error) → Keeps P (handler e))
      → (w : World) → P w
      → P (recover r handler w).1
  recover_at (returned a) handler k w h = h
  recover_at (threw e) handler k w h = (k e).at w h
  recover_at unsettled handler k w h = h

  pub Keeps-catch {ℓ} :
      {A : Type ℓ} (m : Action A) (handler : Error → Action A)
      → Keeps P m
      → ((e : Error) → Keeps P (handler e))
      → Keeps P (catch m handler)
  Keeps-catch m handler km kh = record {
    at = λ w h. let (r, w') = m w in recover_at r handler kh w' (km.at w h);
  }

-- For what does not look at the tables, the lock and the transaction change nothing.
module _ {P : World → Type 0} (free : (db : Db) (w : World) → P w → P (record w { db = db })) where
  commit_at :
      {A : Type 0} (r : Outcome A) (db : Db) (w : World) → P w → P (commit_or_roll_back r db w).1
  commit_at (returned a) db w h = h
  commit_at (threw e) db w h = free db w h
  commit_at unsettled db w h = free db w h

  under_lock_at :
      {A : Type 0} (g : Grant) (work : Action A)
      → Keeps P work
      → (w : World) → P w
      → P (under_lock g work w).1
  under_lock_at (refused e) work k w h = h
  under_lock_at (granted db) work k w h =
      let (r, w') = work (record w { db = db }) in
      commit_at r db w' (k.at (record w { db = db }) (free db w h))

  pub Keeps-lock :
      {A : Type 0} (ext : External) (lock : LockRuns ext) (run_id : Text) (work : Action A)
      → Keeps P work
      → Keeps P (ext.with_backup_run_lock A run_id work)
  Keeps-lock {A} ext lock run_id work k = record {
    at = λ w h.
        subst (λ (p : Outcome A × World). P p.1) (sym (lock.runs A run_id work w))
          (under_lock_at (lock.grant run_id w.db) work k w h);
  }
