-- ===== src/Safety/Books.antt =====
-- The numbers and the statuses that platforms, projects and pools are made with
-- (initialize_platform.rs, create_project.rs, create_pool.rs), along a chain of instructions.
use ascertainty_contracts.Base.{◌≤◌, ◌<◌, ◌≡◌, ◌≢◌, true, some}
use ascertainty_contracts.Base.Store.{lookup}
use ascertainty_contracts.Constants.{max_fee_bps, min_term_months, max_term_months}
use ascertainty_contracts.Accounts.{
  Pubkey, Platform, ProjectStatus, Project, PoolStatus, Pool, MrvProject, platform_account,
  project_account, pool_account, mrv_account,
}
use ascertainty_contracts.Runtime.{Runtime, State}
use ascertainty_contracts.Program.{Reach, IsFresh}
use ascertainty_contracts.Refine.Program.{Reach-Rules}

module _ {L : Type 0} {rt : Runtime L} where
  -- From a state without accounts, whatever instructions run: every project names an MRV project that
  -- is there and whose baseline has been submitted.
  pub Reach-gated :
      (s t : State L) (k : Pubkey) (p : Project)
      → IsFresh rt s
      → Reach rt s t
      → lookup k t.accounts ≡ some (project_account p)
      → (m : MrvProject) × (lookup p.mrv_project t.accounts ≡ some (mrv_account m))
        × (m.baseline_submitted ≡ true)
  Reach-gated s t k p fresh r e = ((Reach-Rules rt s t fresh r).gated k (project_account p) e).0

  -- From a state without accounts, whatever instructions run: every project has a positive target and
  -- a term in the bounds of the constants, and is never cancelled.
  pub Reach-terms :
      (s t : State L) (k : Pubkey) (p : Project)
      → IsFresh rt s
      → Reach rt s t
      → lookup k t.accounts ≡ some (project_account p)
      → (0 < p.target_amount)
        × (min_term_months ≤ p.term_months)
        × (p.term_months ≤ max_term_months)
        × (p.status ≢ ProjectStatus.cancelled)
  Reach-terms s t k p fresh r e =
      let (gate, target, least, most, live) =
        (Reach-Rules rt s t fresh r).gated k (project_account p) e in
      (target, least, most, live)

  -- From a state without accounts, whatever instructions run: every pool is in status `Funding` and
  -- has a positive target.
  pub Reach-pool_raising :
      (s t : State L) (k : Pubkey) (p : Pool)
      → IsFresh rt s
      → Reach rt s t
      → lookup k t.accounts ≡ some (pool_account p)
      → (0 < p.target_amount) × (p.status ≡ PoolStatus.funding)
  Reach-pool_raising s t k p fresh r e =
      let (target, raising, _) = (Reach-Rules rt s t fresh r).gated k (pool_account p) e in
      (target, raising)

  -- From a state without accounts, whatever instructions run: the three fees of the platform are at
  -- most 10000 basis points.
  pub Reach-fees :
      (s t : State L) (k : Pubkey) (p : Platform)
      → IsFresh rt s
      → Reach rt s t
      → lookup k t.accounts ≡ some (platform_account p)
      → (p.origination_fee_bps ≤ max_fee_bps)
        × (p.performance_fee_bps ≤ max_fee_bps)
        × (p.hurdle_rate_bps ≤ max_fee_bps)
  Reach-fees s t k p fresh r e = (Reach-Rules rt s t fresh r).sound k (platform_account p) e
