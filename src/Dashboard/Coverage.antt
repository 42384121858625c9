-- ===== src/Dashboard/Coverage.antt =====
-- What the counts of src/dashboard/dashboard.service.ts count.
use backups_microservice.Prelude.{
  ℕ, suc, ◌+◌, ◌≤◌, ◌≡◌, refl, sym, ap, subst, ◌∙◌, Bool, false, ◌&&◌, List, [], ◌∷◌, ◌++◌, any,
  filter, length, if◌then◌else◌, arith,
}
use mathlib.Core.Path.{fun_ext}
use mathlib.Core.List.{append-nil}
use backups_microservice.Js.{Text, text_eq}
use backups_microservice.Js.Laws.{eq_of_text_eq, text_eq_refl}
use backups_microservice.Entities.{BackupTarget, BackupJob, BackupRun, RestoreRequest}
use backups_microservice.Destinations.{BackupDestination}
use backups_microservice.Dashboard.{
  FoundService, JobMap, get_jobs, add_job, group_jobs, is_protected, UnprotectedSource,
  category_name, Counts, Stats, count_one, bump, is_among, count_targets, count_sources,
  coverage_stats, DashboardSummary, summary, unprotected_discovered_sources,
}

-- The jobs of a target, in their order.
unfoldable pub jobs_of : Text → List BackupJob → List BackupJob
unfolding text_eq
jobs_of id jobs = filter (λ (j : BackupJob). text_eq j.target_id id) jobs

get_jobs-add_job :
    (id : Text) (j : BackupJob) (m : JobMap)
    → get_jobs id (add_job j m)
      ≡ (if text_eq j.target_id id then get_jobs id m ++ j ∷ [] else get_jobs id m)
unfolding get_jobs add_job
get_jobs-add_job id j [] = ground arith
get_jobs-add_job id j ((k, js) ∷ m) = ground (
  arith,
  get_jobs-add_job id j m,
  eq_of_text_eq k j.target_id,
  eq_of_text_eq k id,
  eq_of_text_eq j.target_id id,
  text_eq_refl id,
)

append_cons :
    (xs : List BackupJob) (j : BackupJob) (ys : List BackupJob)
    → (xs ++ j ∷ []) ++ ys ≡ xs ++ j ∷ ys
append_cons [] j ys = refl
append_cons (x ∷ xs) j ys = ap (λ t. x ∷ t) (append_cons xs j ys)

get_jobs-group_jobs :
    (id : Text) (jobs : List BackupJob) (m : JobMap)
    → get_jobs id (group_jobs m jobs) ≡ get_jobs id m ++ jobs_of id jobs
unfolding group_jobs jobs_of
get_jobs-group_jobs id [] m = sym (append-nil (get_jobs id m))
get_jobs-group_jobs id (j ∷ jobs) m =
    get_jobs-group_jobs id jobs (add_job j m)
    ∙ (rw (get_jobs-add_job id j m) (
        ground (
          arith,
          append_cons (get_jobs id m) j (filter (λ (i : BackupJob). text_eq i.target_id id) jobs),
        )))

-- The row of a category, where it has one.
unfoldable pub counts_of : Text → Stats → Counts
unfolding text_eq
counts_of c [] = record { total = 0; protected = 0 }
counts_of c ((k, n) ∷ m) = let rest = counts_of c m in if text_eq k c then n else rest

unfoldable pub sum_totals : Stats → ℕ
sum_totals [] = 0
sum_totals ((k, n) ∷ m) = n.total + sum_totals m

counts_of-bump :
    (c k : Text) (b : Bool) (m : Stats)
    → counts_of c (bump k b m)
      ≡ (if text_eq k c then count_one b (counts_of c m) else counts_of c m)
unfolding counts_of bump count_one
counts_of-bump c k b [] = ground arith
counts_of-bump c k b ((j, n) ∷ m) = ground (
  arith,
  counts_of-bump c k b m,
  eq_of_text_eq j k,
  eq_of_text_eq j c,
  eq_of_text_eq k c,
  text_eq_refl c,
)

sum_totals-bump : (k : Text) (b : Bool) (m : Stats) → sum_totals (bump k b m) ≡ suc (sum_totals m)
unfolding sum_totals bump count_one
sum_totals-bump k b [] = ground arith
sum_totals-bump k b ((j, n) ∷ m) = ground (arith, sum_totals-bump k b m)

module _ (c : Text) where
  -- The targets and the sources of a category.
  unfoldable pub targets_in : List BackupTarget → List BackupTarget
  unfolding text_eq category_name
  targets_in targets =
      filter (λ (t : BackupTarget). text_eq (category_name t.source_category) c) targets

  unfoldable pub sources_in : List UnprotectedSource → List UnprotectedSource
  unfolding text_eq
  sources_in sources = filter (λ (s : UnprotectedSource). text_eq s.source_category c) sources

  counts_of-count_targets :
      (protected targets : List BackupTarget) (m : Stats)
      → ((counts_of c (count_targets protected targets m)).total
          ≡ (counts_of c m).total + length (targets_in targets))
        × ((counts_of c (count_targets protected targets m)).protected
            ≡ (counts_of c m).protected + length (filter (is_among protected) (targets_in targets)))
  unfolding count_targets targets_in count_one
  counts_of-count_targets protected [] m = omega arith
  counts_of-count_targets protected (t ∷ targets) m = ground (
    arith,
    counts_of-count_targets protected targets
        (bump (category_name t.source_category) (is_among protected t) m),
    counts_of-bump c (category_name t.source_category) (is_among protected t) m,
  )

  counts_of-count_sources :
      (sources : List UnprotectedSource) (m : Stats)
      → ((counts_of c (count_sources sources m)).total
          ≡ (counts_of c m).total + length (sources_in sources))
        × ((counts_of c (count_sources sources m)).protected ≡ (counts_of c m).protected)
  unfolding count_sources sources_in count_one
  counts_of-count_sources [] m = omega arith
  counts_of-count_sources (s ∷ sources) m = ground (
    arith,
    counts_of-count_sources sources (bump s.source_category false m),
    counts_of-bump c s.source_category false m,
  )

sum_totals-count_targets :
    (protected targets : List BackupTarget) (m : Stats)
    → sum_totals (count_targets protected targets m) ≡ sum_totals m + length targets
unfolding count_targets
sum_totals-count_targets protected [] m = omega arith
sum_totals-count_targets protected (t ∷ targets) m = omega (
  arith,
  sum_totals-count_targets protected targets
      (bump (category_name t.source_category) (is_among protected t) m),
  sum_totals-bump (category_name t.source_category) (is_among protected t) m,
)

sum_totals-count_sources :
    (sources : List UnprotectedSource) (m : Stats)
    → sum_totals (count_sources sources m) ≡ sum_totals m + length sources
unfolding count_sources
sum_totals-count_sources [] m = omega arith
sum_totals-count_sources (s ∷ sources) m = omega (
  arith,
  sum_totals-count_sources sources (bump s.source_category false m),
  sum_totals-bump s.source_category false m,
)

length-filter-le {ℓ} : {A : Type ℓ} (p : A → Bool) (xs : List A) → length (filter p xs) ≤ length xs
length-filter-le p [] = omega arith
length-filter-le p (x ∷ xs) = ground (arith, length-filter-le p xs)

any-filter {ℓ} :
    {A : Type ℓ} (p q : A → Bool) (xs : List A) → any q (filter p xs) ≡ any (λ x. p x && q x) xs
any-filter p q [] = refl
any-filter p q (x ∷ xs) = ground (arith, any-filter p q xs)

-- A target that is enabled and has an enabled job, found without the map.
unfoldable pub has_enabled_job : List BackupJob → BackupTarget → Bool
unfolding text_eq
has_enabled_job jobs t =
    t.enabled && any (λ (j : BackupJob). text_eq j.target_id t.id && j.enabled) jobs

is_protected-has_enabled_job :
    (jobs : List BackupJob) (t : BackupTarget)
    → is_protected (group_jobs [] jobs) t ≡ has_enabled_job jobs t
unfolding is_protected has_enabled_job
is_protected-has_enabled_job jobs t =
    ap (λ b. t.enabled && b)
      (ap (any (λ (j : BackupJob). j.enabled)) (get_jobs-group_jobs t.id jobs [])
        ∙ unfold jobs_of in
          any-filter (λ (j : BackupJob). text_eq j.target_id t.id) (λ (j : BackupJob). j.enabled)
            jobs)

-- The counts of a summary, against counts that are made from the tables one category at a time.
pub record AddsUp (targets : List BackupTarget) (jobs : List BackupJob) (s : DashboardSummary)
    : Type 0 where
  pub totals :
      sum_totals s.coverage_stats ≡ s.stats.targets_total + s.stats.unprotected_discovered_sources
  pub in_category :
      (c : Text)
      → (counts_of c s.coverage_stats).total
        ≡ length (targets_in c targets) + length (sources_in c s.unprotected_sources)
  pub protected_in :
      (c : Text)
      → (counts_of c s.coverage_stats).protected
        ≡ length (filter (is_among (filter (has_enabled_job jobs) targets)) (targets_in c targets))
  pub within :
      (c : Text) → (counts_of c s.coverage_stats).protected ≤ (counts_of c s.coverage_stats).total

module _ (now : ℕ) (targets : List BackupTarget) (jobs : List BackupJob) (recent : List BackupRun)
    (restores : List RestoreRequest) (destinations : List BackupDestination)
    (services : List FoundService) where
  abbrev protected : List BackupTarget
  protected = filter (is_protected (group_jobs [] jobs)) targets

  protected_same : protected ≡ filter (has_enabled_job jobs) targets
  protected_same = ap (λ p. filter p targets) (fun_ext (is_protected-has_enabled_job jobs))

  abbrev sources : List UnprotectedSource
  sources = unprotected_discovered_sources services targets

  category_counts :
      (c : Text)
      → ((counts_of c (coverage_stats targets protected sources)).total
          ≡ length (targets_in c targets) + length (sources_in c sources))
        × ((counts_of c (coverage_stats targets protected sources)).protected
            ≡ length (filter (is_among protected) (targets_in c targets)))
  unfolding coverage_stats counts_of
  category_counts c = omega (
    arith,
    counts_of-count_sources c sources (count_targets protected targets []),
    counts_of-count_targets c protected targets [],
  )

  -- In every summary the totals of the categories add up to the targets and the unprotected sources
  -- together; each category counts exactly its targets and its unprotected sources, and as
  -- protected exactly its targets that have the identifier of an enabled target with an enabled
  -- job, which are never more than its total.
  pub summary-AddsUp :
      AddsUp targets jobs (summary now targets jobs recent restores destinations services)
  unfolding summary coverage_stats sum_totals
  summary-AddsUp = record {
    totals = omega (
      arith,
      sum_totals-count_sources sources (count_targets protected targets []),
      sum_totals-count_targets protected targets [],
    );
    in_category = λ c. (category_counts c).0;
    protected_in = λ c.
        subst
          (λ p.
            (counts_of c (coverage_stats targets protected sources)).protected
            ≡ length (filter (is_among p) (targets_in c targets)))
          protected_same (category_counts c).1;
    within = λ c.
        omega
          (arith, category_counts c, length-filter-le (is_among protected) (targets_in c targets));
  }
