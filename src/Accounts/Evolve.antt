-- ===== src/Accounts/Evolve.antt =====
-- How an account may change while it is rewritten, as relations between two of its values.
use ascertainty_contracts.Base.{◌≤◌, ◌≡◌, ◌≢◌, ◌⊎◌, refl, ap, ◌∙◌, true, arith}
use ascertainty_contracts.Constants.{max_pool_projects_v1}
use ascertainty_contracts.Accounts.Kinds.{
  Platform, ProjectStatus, Project, Pool, InvestorPosition, MrvProject, Verification, Account,
  platform_account, project_account, pool_account, position_account, mrv_account,
  verification_account, default_key,
}

-- The transitions of a project's status. None leads to `cancelled`.
pub data StatusEdge (a b : ProjectStatus) : Type 0 where
  activates : a ≡ ProjectStatus.funding → b ≡ ProjectStatus.active → StatusEdge a b
  repays : a ≡ ProjectStatus.active → b ≡ ProjectStatus.repaying → StatusEdge a b
  closes :
      (a ≡ ProjectStatus.active) ⊎ (a ≡ ProjectStatus.repaying)
      → b ≡ ProjectStatus.completed
      → StatusEdge a b

pub data StatusPath (a : ProjectStatus) : ProjectStatus → Type 0 where
  stays : StatusPath a a
  goes : {b c : ProjectStatus} → StatusPath a b → StatusEdge b c → StatusPath a c

pub record ProjectEvolves (p p' : Project) : Type 0 where
  pub project_id : p'.project_id ≡ p.project_id
  pub mrv_project : p'.mrv_project ≡ p.mrv_project
  pub token_mint : p'.token_mint ≡ p.token_mint
  pub usdc_vault : p'.usdc_vault ≡ p.usdc_vault
  pub target_amount : p'.target_amount ≡ p.target_amount
  pub term_months : p'.term_months ≡ p.term_months
  pub created_at : p'.created_at ≡ p.created_at
  pub bump : p'.bump ≡ p.bump
  pub status : StatusPath p.status p'.status
  pub total_distributed : p.total_distributed ≤ p'.total_distributed
  pub cumulative_usdc_per_token : p.cumulative_usdc_per_token ≤ p'.cumulative_usdc_per_token

pub record PoolEvolves (p p' : Pool) : Type 0 where
  pub pool_id : p'.pool_id ≡ p.pool_id
  pub pool_token_mint : p'.pool_token_mint ≡ p.pool_token_mint
  pub usdc_vault : p'.usdc_vault ≡ p.usdc_vault
  pub target_amount : p'.target_amount ≡ p.target_amount
  pub status : p'.status ≡ p.status
  pub created_at : p'.created_at ≡ p.created_at
  pub bump : p'.bump ≡ p.bump
  pub tokens_sold : p.tokens_sold ≤ p'.tokens_sold
  pub total_distributed : p.total_distributed ≤ p'.total_distributed
  pub cumulative_usdc_per_token : p.cumulative_usdc_per_token ≤ p'.cumulative_usdc_per_token
  pub underlying_project_count : p.underlying_project_count ≤ p'.underlying_project_count
  pub few :
      p.underlying_project_count ≤ max_pool_projects_v1
      → p'.underlying_project_count ≤ max_pool_projects_v1

pub record PlatformEvolves (t t' : Platform) : Type 0 where
  pub admin : t'.admin ≡ t.admin
  pub treasury : t'.treasury ≡ t.treasury
  pub usdc_mint : t'.usdc_mint ≡ t.usdc_mint
  pub origination_fee_bps : t'.origination_fee_bps ≡ t.origination_fee_bps
  pub performance_fee_bps : t'.performance_fee_bps ≡ t.performance_fee_bps
  pub hurdle_rate_bps : t'.hurdle_rate_bps ≡ t.hurdle_rate_bps
  pub bump : t'.bump ≡ t.bump

pub record MrvEvolves (m m' : MrvProject) : Type 0 where
  pub project_id : m'.project_id ≡ m.project_id
  pub msme_name : m'.msme_name ≡ m.msme_name
  pub sector : m'.sector ≡ m.sector
  pub location : m'.location ≡ m.location
  pub upgrade_type : m'.upgrade_type ≡ m.upgrade_type
  pub created_at : m'.created_at ≡ m.created_at
  pub bump : m'.bump ≡ m.bump
  pub baseline_submitted : m.baseline_submitted ≡ true → m'.baseline_submitted ≡ true

-- Only the attestation is ever added to a verification.
pub record VerificationEvolves (v v' : Verification) : Type 0 where
  pub report : v' ≡ record v { attested = v'.attested }
  pub attested : v.attested ≡ true → v'.attested ≡ true

-- A position that has an owner keeps it, and only claims more.
pub record PositionEvolves (q q' : InvestorPosition) : Type 0 where
  pub owned : q.owner ≢ default_key → q'.owner ≢ default_key
  pub owner : q.owner ≢ default_key → q'.owner ≡ q.owner
  pub target : q.owner ≢ default_key → q'.target ≡ q.target
  pub total_claimed : q.owner ≢ default_key → q.total_claimed ≤ q'.total_claimed
  pub last_claimed_per_token :
      q.owner ≢ default_key → q.last_claimed_per_token ≤ q'.last_claimed_per_token

-- The other kinds of account are written once.
abbrev pub Evolves : Account → Account → Type 0
Evolves (platform_account t) (platform_account t') = PlatformEvolves t t'
Evolves (project_account p) (project_account p') = ProjectEvolves p p'
Evolves (pool_account p) (pool_account p') = PoolEvolves p p'
Evolves (position_account q) (position_account q') = PositionEvolves q q'
Evolves (mrv_account m) (mrv_account m') = MrvEvolves m m'
Evolves (verification_account v) (verification_account v') = VerificationEvolves v v'
Evolves a v = v ≡ a

StatusPath-trans : {a b c : ProjectStatus} → StatusPath a b → StatusPath b c → StatusPath a c
StatusPath-trans p stays = p
StatusPath-trans p (goes q e) = goes (StatusPath-trans p q) e

pub ProjectEvolves-refl : (p : Project) → ProjectEvolves p p
ProjectEvolves-refl p = record {
  project_id = refl;
  mrv_project = refl;
  token_mint = refl;
  usdc_vault = refl;
  target_amount = refl;
  term_months = refl;
  created_at = refl;
  bump = refl;
  status = stays;
  total_distributed = omega arith;
  cumulative_usdc_per_token = omega arith;
}

pub ProjectEvolves-trans :
    (p q r : Project) → ProjectEvolves p q → ProjectEvolves q r → ProjectEvolves p r
ProjectEvolves-trans p q r a b = record {
  project_id = b.project_id ∙ a.project_id;
  mrv_project = b.mrv_project ∙ a.mrv_project;
  token_mint = b.token_mint ∙ a.token_mint;
  usdc_vault = b.usdc_vault ∙ a.usdc_vault;
  target_amount = b.target_amount ∙ a.target_amount;
  term_months = b.term_months ∙ a.term_months;
  created_at = b.created_at ∙ a.created_at;
  bump = b.bump ∙ a.bump;
  status = StatusPath-trans a.status b.status;
  total_distributed = omega (arith, a.total_distributed, b.total_distributed);
  cumulative_usdc_per_token =
      omega (arith, a.cumulative_usdc_per_token, b.cumulative_usdc_per_token);
}

pub PoolEvolves-refl : (p : Pool) → PoolEvolves p p
PoolEvolves-refl p = record {
  pool_id = refl;
  pool_token_mint = refl;
  usdc_vault = refl;
  target_amount = refl;
  status = refl;
  created_at = refl;
  bump = refl;
  tokens_sold = omega arith;
  total_distributed = omega arith;
  cumulative_usdc_per_token = omega arith;
  underlying_project_count = omega arith;
  few = λ h. h;
}

pub PoolEvolves-trans : (p q r : Pool) → PoolEvolves p q → PoolEvolves q r → PoolEvolves p r
PoolEvolves-trans p q r a b = record {
  pool_id = b.pool_id ∙ a.pool_id;
  pool_token_mint = b.pool_token_mint ∙ a.pool_token_mint;
  usdc_vault = b.usdc_vault ∙ a.usdc_vault;
  target_amount = b.target_amount ∙ a.target_amount;
  status = b.status ∙ a.status;
  created_at = b.created_at ∙ a.created_at;
  bump = b.bump ∙ a.bump;
  tokens_sold = omega (arith, a.tokens_sold, b.tokens_sold);
  total_distributed = omega (arith, a.total_distributed, b.total_distributed);
  cumulative_usdc_per_token =
      omega (arith, a.cumulative_usdc_per_token, b.cumulative_usdc_per_token);
  underlying_project_count = omega (arith, a.underlying_project_count, b.underlying_project_count);
  few = λ h. b.few (a.few h);
}

pub PlatformEvolves-refl : (t : Platform) → PlatformEvolves t t
PlatformEvolves-refl t = ground arith

pub PlatformEvolves-trans :
    (p q r : Platform) → PlatformEvolves p q → PlatformEvolves q r → PlatformEvolves p r
PlatformEvolves-trans p q r a b = ground arith

pub MrvEvolves-refl : (m : MrvProject) → MrvEvolves m m
MrvEvolves-refl m = ground arith

pub MrvEvolves-trans : (p q r : MrvProject) → MrvEvolves p q → MrvEvolves q r → MrvEvolves p r
MrvEvolves-trans p q r a b = ground arith

pub VerificationEvolves-refl : (v : Verification) → VerificationEvolves v v
VerificationEvolves-refl v = record { report = refl; attested = λ e. e }

pub VerificationEvolves-trans :
    (p q r : Verification)
    → VerificationEvolves p q
    → VerificationEvolves q r
    → VerificationEvolves p r
VerificationEvolves-trans p q r a b = record {
  report = b.report ∙ ap (λ (v : Verification). record v { attested = r.attested }) a.report;
  attested = λ e. b.attested (a.attested e);
}

pub PositionEvolves-refl : (q : InvestorPosition) → PositionEvolves q q
PositionEvolves-refl q = record {
  owned = λ h. h;
  owner = λ h. refl;
  target = λ h. refl;
  total_claimed = λ h. omega arith;
  last_claimed_per_token = λ h. omega arith;
}

pub PositionEvolves-trans :
    (p q r : InvestorPosition) → PositionEvolves p q → PositionEvolves q r → PositionEvolves p r
PositionEvolves-trans p q r a b = record {
  owned = λ h. b.owned (a.owned h);
  owner = λ h. b.owner (a.owned h) ∙ a.owner h;
  target = λ h. b.target (a.owned h) ∙ a.target h;
  total_claimed = λ h. omega (arith, a.total_claimed h, b.total_claimed (a.owned h));
  last_claimed_per_token =
      λ h. omega (arith, a.last_claimed_per_token h, b.last_claimed_per_token (a.owned h));
}
