-- ===== src/Reconciliation/Decision.antt =====
-- What the recovery of src/restore/restore-reconciliation.service.ts decides for a request, and how
-- it counts what it did.
use backups_microservice.Prelude.{
  ℕ, suc, ◌+◌, ◌<◌, ◌≤◌, ◌≡◌, subst, ◌≢◌, ◌↔◌, ◌⊎◌, Bool, true, false, List, [], ◌∷◌, arith, filter,
  length, pos, sub_ℕ, ltb_ℤ,
}
use backups_microservice.Entities.{RestoreRequest, RestoreStatus}
use backups_microservice.Repositories.{is_active}
use backups_microservice.World.{
  World, External, Outcome, returned, threw, unsettled, Action, proceed, pure,
}
use backups_microservice.Restore.Terminal.{is_in_flight, terminate_stale_request}
use backups_microservice.Reconciliation.{
  Windows, Summary, Verdict, skip, interrupt, abandon, redispatch, age_basis, age_ms, decide,
  decide_by_age, reconcile_one, reconcile_all, reconcile, act, count_skipped, count_interrupted,
  count_abandoned, interrupted_message, expired_message, env_windows,
}

-- Why a round ends as it does, in sums of times.
abbrev pub Reason : Windows → ℕ → Bool → RestoreRequest → Verdict → Type 0
Reason windows now running q redispatch =
    (running ≡ false)
    × (q.status ≢ RestoreStatus.running)
    × (q.created_at + windows.adopt_after ≤ now)
    × (now < q.created_at + windows.abandon_after)
Reason windows now running q abandon =
    (running ≡ false)
    × (q.status ≢ RestoreStatus.running)
    × (q.created_at + windows.adopt_after ≤ now)
    × (q.created_at + windows.abandon_after ≤ now)
Reason windows now running q interrupt =
    (running ≡ false)
    × (q.status ≡ RestoreStatus.running)
    × (age_basis q + windows.stale_after ≤ now)
Reason windows now running q skip =
    (running ≡ true)
    ⊎ (((q.status ≢ RestoreStatus.running) × (now < q.created_at + windows.adopt_after))
        ⊎ ((q.status ≡ RestoreStatus.running) × (now < age_basis q + windows.stale_after)))

young_iff :
    (now basis window : ℕ) → (ltb_ℤ (sub_ℕ now basis) (pos window) ≡ true) ↔ (now < basis + window)
young_iff now basis window = ground arith

-- A request is left, re-dispatched, abandoned or interrupted exactly for the reasons given: one in
-- flight in this process is left; a request that is not running is left until its adoption window
-- has passed since its creation, then dispatched again until its abandonment window has, then
-- abandoned; a running one is interrupted once the staleness window has passed since its start.
pub decide_iff :
    (windows : Windows) (now : ℕ) (running : Bool) (q : RestoreRequest) (v : Verdict)
    → (decide windows now running q ≡ v) ↔ Reason windows now running q v
unfolding decide decide_by_age age_ms age_basis
decide_iff windows now running q skip = ground arith
decide_iff windows now running q interrupt = ground arith
decide_iff windows now running q abandon = ground arith
decide_iff windows now running q redispatch = ground arith

total : Summary → ℕ
total s = s.redispatched + s.abandoned + s.interrupted + s.skipped

-- What a round adds to the counts, where it returns.
Counted : Summary → Outcome Summary → Type 0
Counted s (returned t) = (t.inspected ≡ s.inspected) × (total t ≡ total s + 1)
Counted s _ = Unit

count-Counted :
    (s : Summary) (o : Outcome Bool) (f : Bool → Summary) (w : World)
    → ((b : Bool) → ((f b).inspected ≡ s.inspected) × (total (f b) ≡ total s + 1))
    → Counted s (proceed o (λ b. pure (f b)) w).0
unfolding Counted
count-Counted s (returned b) f w h = h b
count-Counted s (threw e) f w h = tt
count-Counted s unsettled f w h = tt

interrupted-adds :
    (s : Summary) (b : Bool)
    → ((count_interrupted b s).inspected ≡ s.inspected)
      × (total (count_interrupted b s) ≡ total s + 1)
unfolding count_interrupted count_skipped total
interrupted-adds s true = ground arith
interrupted-adds s false = ground arith

abandoned-adds :
    (s : Summary) (b : Bool)
    → ((count_abandoned b s).inspected ≡ s.inspected) × (total (count_abandoned b s) ≡ total s + 1)
unfolding count_abandoned count_skipped total
abandoned-adds s true = ground arith
abandoned-adds s false = ground arith

module _ (ext : External) where
  act-Counted :
      (q : RestoreRequest) (s : Summary) (v : Verdict) (w : World) → Counted s (act ext q s v w).0
  unfolding act
  act-Counted q s skip w = unfold Counted total count_skipped in ground arith
  act-Counted q s redispatch w = unfold Counted total in ground arith
  act-Counted q s interrupt w =
      let (o, w') = terminate_stale_request ext q.id RestoreStatus.running interrupted_message w in
      count-Counted s o (λ b. count_interrupted b s) w' (interrupted-adds s)
  act-Counted q s abandon w =
      let (o, w') = terminate_stale_request ext q.id RestoreStatus.pending expired_message w in
      count-Counted s o (λ b. count_abandoned b s) w' (abandoned-adds s)

  -- What the rest of a loop over `n` requests adds to the counts, where it returns.
  Sums : Summary → ℕ → Outcome Summary → Type 0
  Sums s n (returned t) = (t.inspected ≡ s.inspected) × (total t ≡ total s + n)
  Sums s n _ = Unit

  Sums-step :
      (s : Summary) (n : ℕ) (o : Outcome Summary) (k : Summary → Action Summary) (w : World)
      → Counted s o
      → ((t : Summary) (w' : World) → Sums t n (k t w').0)
      → Sums s (suc n) (proceed o k w).0
  unfolding Counted Sums
  Sums-step s n (returned t) k w h rest = widen (k t w).0 (rest t w)
    where
      widen : (o : Outcome Summary) → Sums t n o → Sums s (suc n) o
      widen (returned u) r = ground arith
      widen (threw e) r = tt
      widen unsettled r = tt
  Sums-step s n (threw e) k w h rest = tt
  Sums-step s n unsettled k w h rest = tt

  reconcile_all-Sums :
      (windows : Windows) (now : ℕ) (qs : List RestoreRequest) (s : Summary) (w : World)
      → Sums s (length qs) (reconcile_all ext windows now qs s w).0
  unfolding reconcile_all reconcile_one
  reconcile_all-Sums windows now [] s w = unfold Sums in ground arith
  reconcile_all-Sums windows now (q ∷ qs) s w =
      let v = decide windows now (is_in_flight q.id w) q in
      let (o, w') = act ext q s v w in
      Sums-step s (length qs) o (reconcile_all ext windows now qs) w' (act-Counted q s v w)
        (λ t w''. reconcile_all-Sums windows now qs t w'')

  -- A run of the recovery that returns has inspected every active request of the tables it started
  -- from, and has counted each of them once, as re-dispatched, abandoned, interrupted or skipped.
  pub summary_accounts_for_all :
      (now : ℕ) (w : World) (s : Summary)
      → (reconcile ext now w).0 ≡ returned s
      → (s.inspected ≡ length (filter (λ q. is_active q.status) w.db.requests))
        × (s.redispatched + s.abandoned + s.interrupted + s.skipped ≡ s.inspected)
  unfolding reconcile Sums total
  summary_accounts_for_all now w s h =
      let qs = filter (λ q. is_active q.status) w.db.requests in
      let s0 : Summary = record {
        inspected = length qs;
        redispatched = 0;
        abandoned = 0;
        interrupted = 0;
        skipped = 0;
      } in
      let counted =
        subst (λ o. Sums s0 (length qs) o) h (reconcile_all-Sums (env_windows ext) now qs s0 w) in
      (counted.0, ground arith)
