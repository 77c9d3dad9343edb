-- ===== src/Refine/Follow.antt =====
-- How the rewrites of platforms, projects and pools follow what was there.
use ascertainty_contracts.Base.{
  ℕ, ◌≤◌, ◌≡◌, inl, inr, refl, true, if◌then◌else◌, ◌||◌, ◌&&◌, leb, leb→le, &&→both,
}
use ascertainty_contracts.Base.Int.{ℤ}
use ascertainty_contracts.Constants.{
  max_pool_projects_v1, max_fee_bps, min_term_months, max_term_months,
}
use ascertainty_contracts.Accounts.{
  Platform, Project, ProjectStatus, project_status_eq, Pool, MrvProject, MrvProjectStatus,
}
use ascertainty_contracts.Accounts.Evolve.{
  StatusPath, stays, goes, activates, repays, closes, ProjectEvolves, PoolEvolves, PlatformEvolves,
  MrvEvolves,
}

pub status_is : (a b : ProjectStatus) → project_status_eq a b ≡ true → a ≡ b
status_is ProjectStatus.funding ProjectStatus.funding e = refl
status_is ProjectStatus.active ProjectStatus.active e = refl
status_is ProjectStatus.repaying ProjectStatus.repaying e = refl
status_is ProjectStatus.completed ProjectStatus.completed e = refl
status_is ProjectStatus.cancelled ProjectStatus.cancelled e = refl
status_is a b e = cc

-- A project with its terms as they were.
pub terms_kept :
    (p : Project) {sold distributed per_token fee : ℕ} {status : ProjectStatus} {at : ℤ}
    → StatusPath p.status status
    → p.total_distributed ≤ distributed
    → p.cumulative_usdc_per_token ≤ per_token
    → ProjectEvolves p (record p {
      tokens_sold = sold;
      total_distributed = distributed;
      cumulative_usdc_per_token = per_token;
      status = status;
      activated_at = at;
      origination_fee_collected = fee;
    })
terms_kept p path d c = record {
  project_id = refl;
  mrv_project = refl;
  token_mint = refl;
  usdc_vault = refl;
  target_amount = refl;
  term_months = refl;
  created_at = refl;
  bump = refl;
  status = path;
  total_distributed = d;
  cumulative_usdc_per_token = c;
}

pub pool_kept :
    (p : Pool) {sold distributed per_token count : ℕ}
    → p.tokens_sold ≤ sold
    → p.total_distributed ≤ distributed
    → p.cumulative_usdc_per_token ≤ per_token
    → p.underlying_project_count ≤ count
    → (p.underlying_project_count ≤ max_pool_projects_v1 → count ≤ max_pool_projects_v1)
    → PoolEvolves p (record p {
      tokens_sold = sold;
      total_distributed = distributed;
      cumulative_usdc_per_token = per_token;
      underlying_project_count = count;
    })
pool_kept p s d c u few = record {
  pool_id = refl;
  pool_token_mint = refl;
  usdc_vault = refl;
  target_amount = refl;
  status = refl;
  created_at = refl;
  bump = refl;
  tokens_sold = s;
  total_distributed = d;
  cumulative_usdc_per_token = c;
  underlying_project_count = u;
  few = few;
}

pub counted :
    (t : Platform) {projects pools : ℕ}
    → PlatformEvolves t (record t { project_count = projects; pool_count = pools })
counted t = record {
  admin = refl;
  treasury = refl;
  usdc_mint = refl;
  origination_fee_bps = refl;
  performance_fee_bps = refl;
  hurdle_rate_bps = refl;
  bump = refl;
}

pub mrv_kept :
    (m : MrvProject) {status : MrvProjectStatus} {count : ℕ}
    → m.baseline_submitted ≡ true
    → MrvEvolves m (record m { status = status; verification_count = count })
mrv_kept m b = record {
  project_id = refl;
  msme_name = refl;
  sector = refl;
  location = refl;
  upgrade_type = refl;
  created_at = refl;
  bump = refl;
  baseline_submitted = λ e. e;
}

pub mrv_baselined :
    (m : MrvProject) {status : MrvProjectStatus}
    → MrvEvolves m (record m { status = status; baseline_submitted = true })
mrv_baselined m = record {
  project_id = refl;
  msme_name = refl;
  sector = refl;
  location = refl;
  upgrade_type = refl;
  created_at = refl;
  bump = refl;
  baseline_submitted = λ e. refl;
}

pub activated :
    (a : ProjectStatus)
    → project_status_eq a ProjectStatus.funding ≡ true
    → StatusPath a ProjectStatus.active
activated a e = goes stays (activates (status_is a _ e) refl)

pub closed :
    (a : ProjectStatus)
    → (project_status_eq a ProjectStatus.repaying || project_status_eq a ProjectStatus.active)
      ≡ true
    → StatusPath a ProjectStatus.completed
closed ProjectStatus.active e = goes stays (closes (inl refl) refl)
closed ProjectStatus.repaying e = goes stays (closes (inr refl) refl)
closed _ e = cc

pub repaid :
    (a : ProjectStatus)
    → (project_status_eq a ProjectStatus.active || project_status_eq a ProjectStatus.repaying)
      ≡ true
    → StatusPath a (if project_status_eq a ProjectStatus.active then ProjectStatus.repaying else a)
repaid ProjectStatus.active e = goes stays (repays refl refl)
repaid ProjectStatus.repaying e = stays
repaid _ e = cc

pub caps :
    (o p h : ℕ)
    → (leb o max_fee_bps && (leb p max_fee_bps && leb h max_fee_bps)) ≡ true
    → (o ≤ max_fee_bps) × (p ≤ max_fee_bps) × (h ≤ max_fee_bps)
caps o p h e =
    let outer = &&→both _ _ e in
    let inner = &&→both _ _ outer.1 in (leb→le o _ outer.0, leb→le p _ inner.0, leb→le h _ inner.1)

pub term_bounds :
    (n : ℕ)
    → (leb min_term_months n && leb n max_term_months) ≡ true
    → (min_term_months ≤ n) × (n ≤ max_term_months)
term_bounds n e =
    let both = &&→both _ _ e in (leb→le min_term_months n both.0, leb→le n max_term_months both.1)
