-- ===== src/Accounts/Kinds.antt =====
-- The account types of programs/exira/src/state, and the sum of them that a key can hold.
use ascertainty_contracts.Base.{ℕ, Bool, true, false, List}
use ascertainty_contracts.Base.Int.{ℤ}
use ascertainty_contracts.Base.Store.{Store}

abbrev pub Pubkey : Type 0
Pubkey = ℕ

-- `Pubkey::default()`
abbrev pub default_key : Pubkey
default_key = 0

pub record Platform : Type 0 where
  pub admin : Pubkey
  pub treasury : Pubkey
  pub usdc_mint : Pubkey
  pub origination_fee_bps : ℕ
  pub performance_fee_bps : ℕ
  pub hurdle_rate_bps : ℕ
  pub project_count : ℕ
  pub pool_count : ℕ
  pub bump : ℕ

pub data ProjectStatus : Type 0 where
  funding active repaying completed cancelled : ProjectStatus

-- The derived `PartialEq` of the statuses.
abbrev pub project_status_eq : ProjectStatus → ProjectStatus → Bool
project_status_eq ProjectStatus.funding ProjectStatus.funding = true
project_status_eq ProjectStatus.active ProjectStatus.active = true
project_status_eq ProjectStatus.repaying ProjectStatus.repaying = true
project_status_eq ProjectStatus.completed ProjectStatus.completed = true
project_status_eq ProjectStatus.cancelled ProjectStatus.cancelled = true
project_status_eq _ _ = false

pub record Project : Type 0 where
  pub project_id : ℕ
  pub mrv_project : Pubkey
  pub token_mint : Pubkey
  pub usdc_vault : Pubkey
  pub target_amount : ℕ
  pub tokens_sold : ℕ
  pub total_distributed : ℕ
  pub cumulative_usdc_per_token : ℕ
  pub term_months : ℕ
  pub status : ProjectStatus
  pub activated_at : ℤ
  pub created_at : ℤ
  pub origination_fee_collected : ℕ
  pub bump : ℕ

pub data PoolStatus : Type 0 where
  funding active distributing completed cancelled : PoolStatus

abbrev pub pool_status_eq : PoolStatus → PoolStatus → Bool
pool_status_eq PoolStatus.funding PoolStatus.funding = true
pool_status_eq PoolStatus.active PoolStatus.active = true
pool_status_eq PoolStatus.distributing PoolStatus.distributing = true
pool_status_eq PoolStatus.completed PoolStatus.completed = true
pool_status_eq PoolStatus.cancelled PoolStatus.cancelled = true
pool_status_eq _ _ = false

pub record Pool : Type 0 where
  pub pool_id : ℕ
  pub pool_token_mint : Pubkey
  pub usdc_vault : Pubkey
  pub target_amount : ℕ
  pub tokens_sold : ℕ
  pub total_distributed : ℕ
  pub cumulative_usdc_per_token : ℕ
  pub underlying_project_count : ℕ
  pub status : PoolStatus
  pub created_at : ℤ
  pub bump : ℕ

pub record PoolProjectLink : Type 0 where
  pub pool : Pubkey
  pub project : Pubkey
  pub project_tokens_held : ℕ
  pub bump : ℕ

pub record InvestorPosition : Type 0 where
  pub owner : Pubkey
  pub target : Pubkey
  pub tokens_held : ℕ
  pub last_claimed_per_token : ℕ
  pub total_claimed : ℕ
  pub bump : ℕ

pub data MrvProjectStatus : Type 0 where
  registered baseline_submitted in_progress completed : MrvProjectStatus

pub record MrvProject : Type 0 where
  pub project_id : ℕ
  pub msme_name : List ℕ
  pub sector : List ℕ
  pub location : List ℕ
  pub upgrade_type : List ℕ
  pub status : MrvProjectStatus
  pub baseline_submitted : Bool
  pub verification_count : ℕ
  pub created_at : ℤ
  pub bump : ℕ

pub record Baseline : Type 0 where
  pub mrv_project : Pubkey
  pub auditor : Pubkey
  pub energy_kwh_per_year : ℕ
  pub fuel_type : List ℕ
  pub cost_inr_per_year : ℕ
  pub co2_tons_per_year_x100 : ℕ
  pub report_hash : List ℕ
  pub submitted_at : ℤ
  pub bump : ℕ

pub record Verification : Type 0 where
  pub mrv_project : Pubkey
  pub auditor : Pubkey
  pub index : ℕ
  pub period_start : ℤ
  pub period_end : ℤ
  pub energy_kwh_saved : ℕ
  pub cost_inr_saved : ℕ
  pub co2_tons_avoided_x100 : ℕ
  pub savings_vs_expected_bps : ℕ
  pub report_hash : List ℕ
  pub attested : Bool
  pub submitted_at : ℤ
  pub bump : ℕ

pub record Auditor : Type 0 where
  pub wallet : Pubkey
  pub name : List ℕ
  pub certification : List ℕ
  pub is_active : Bool
  pub projects_audited : ℕ
  pub added_at : ℤ
  pub bump : ℕ

-- What a key of the program holds: one of the account types, told apart by its discriminator.
pub data Account : Type 0 where
  platform_account : Platform → Account
  project_account : Project → Account
  pool_account : Pool → Account
  link_account : PoolProjectLink → Account
  position_account : InvestorPosition → Account
  mrv_account : MrvProject → Account
  baseline_account : Baseline → Account
  verification_account : Verification → Account
  auditor_account : Auditor → Account

abbrev pub Accounts : Type 0
Accounts = Store Account
