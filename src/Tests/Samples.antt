-- ===== src/Tests/Samples.antt =====
-- The accounts that the run in Tests/Chain.antt leaves.
use ascertainty_contracts.Base.{true, false, [], replicate}
use ascertainty_contracts.Base.Int.{pos}
use ascertainty_contracts.Accounts.{
  Platform, ProjectStatus, Project, PoolStatus, Pool, InvestorPosition, MrvProjectStatus,
  MrvProject, Verification, Auditor, Baseline,
}
use ascertainty_contracts.Tests.Chain.{ata, project_key, pool_key, mrv_key}

abbrev pub project_funded : Project
project_funded = record {
  project_id = 7;
  mrv_project = mrv_key;
  token_mint = 60;
  usdc_vault = ata project_key 50;
  target_amount = 100;
  tokens_sold = 100;
  total_distributed = 0;
  cumulative_usdc_per_token = 0;
  term_months = 24;
  status = ProjectStatus.funding;
  activated_at = pos 0;
  created_at = pos 5;
  origination_fee_collected = 0;
  bump = 255;
}

abbrev pub project_repaid : Project
project_repaid = record {
  project_id = 7;
  mrv_project = mrv_key;
  token_mint = 60;
  usdc_vault = ata project_key 50;
  target_amount = 100;
  tokens_sold = 100;
  total_distributed = 30;
  cumulative_usdc_per_token = 300000000000;
  term_months = 24;
  status = ProjectStatus.repaying;
  activated_at = pos 5;
  created_at = pos 5;
  origination_fee_collected = 1;
  bump = 255;
}

abbrev pub project_ended : Project
project_ended = record {
  project_id = 7;
  mrv_project = mrv_key;
  token_mint = 60;
  usdc_vault = ata project_key 50;
  target_amount = 100;
  tokens_sold = 100;
  total_distributed = 30;
  cumulative_usdc_per_token = 300000000000;
  term_months = 24;
  status = ProjectStatus.completed;
  activated_at = pos 5;
  created_at = pos 5;
  origination_fee_collected = 1;
  bump = 255;
}

abbrev pub position_bought : InvestorPosition
position_bought = record {
  owner = 11;
  target = project_key;
  tokens_held = 100;
  last_claimed_per_token = 0;
  total_claimed = 0;
  bump = 255;
}

abbrev pub position_in_pool : InvestorPosition
position_in_pool = record {
  owner = 11;
  target = pool_key;
  tokens_held = 10;
  last_claimed_per_token = 0;
  total_claimed = 0;
  bump = 255;
}

abbrev pub pool_funded : Pool
pool_funded = record {
  pool_id = 3;
  pool_token_mint = 61;
  usdc_vault = ata pool_key 50;
  target_amount = 200;
  tokens_sold = 0;
  total_distributed = 0;
  cumulative_usdc_per_token = 0;
  underlying_project_count = 0;
  status = PoolStatus.funding;
  created_at = pos 5;
  bump = 255;
}

abbrev pub pool_ended : Pool
pool_ended = record {
  pool_id = 3;
  pool_token_mint = 61;
  usdc_vault = ata pool_key 50;
  target_amount = 200;
  tokens_sold = 10;
  total_distributed = 5;
  cumulative_usdc_per_token = 500000000000;
  underlying_project_count = 0;
  status = PoolStatus.funding;
  created_at = pos 5;
  bump = 255;
}

abbrev pub mrv_funded : MrvProject
mrv_funded = record {
  project_id = 7;
  msme_name = replicate 64 0;
  sector = replicate 32 0;
  location = replicate 64 0;
  upgrade_type = replicate 32 0;
  status = MrvProjectStatus.baseline_submitted;
  baseline_submitted = true;
  verification_count = 0;
  created_at = pos 5;
  bump = 255;
}

abbrev pub mrv_ended : MrvProject
mrv_ended = record {
  project_id = 7;
  msme_name = replicate 64 0;
  sector = replicate 32 0;
  location = replicate 64 0;
  upgrade_type = replicate 32 0;
  status = MrvProjectStatus.in_progress;
  baseline_submitted = true;
  verification_count = 1;
  created_at = pos 5;
  bump = 255;
}

abbrev pub platform_funded : Platform
platform_funded = record {
  admin = 1;
  treasury = 2;
  usdc_mint = 50;
  origination_fee_bps = 150;
  performance_fee_bps = 3_000;
  hurdle_rate_bps = 800;
  project_count = 1;
  pool_count = 1;
  bump = 255;
}

abbrev pub verification_repaid : Verification
verification_repaid = record {
  mrv_project = mrv_key;
  auditor = 21;
  index = 0;
  period_start = pos 1;
  period_end = pos 2;
  energy_kwh_saved = 1;
  cost_inr_saved = 1;
  co2_tons_avoided_x100 = 1;
  savings_vs_expected_bps = 1;
  report_hash = [];
  attested = false;
  submitted_at = pos 5;
  bump = 255;
}

abbrev pub auditor_funded : Auditor
auditor_funded = record {
  wallet = 21;
  name = replicate 64 0;
  certification = replicate 32 0;
  is_active = true;
  projects_audited = 0;
  added_at = pos 5;
  bump = 255;
}

abbrev pub project_activated : Project
project_activated = record project_funded {
  status = ProjectStatus.active;
  activated_at = pos 5;
  origination_fee_collected = 1;
}

abbrev pub pool_topped_up : Pool
pool_topped_up = record pool_ended { tokens_sold = 14 }

abbrev pub project_opened : Project
project_opened = record project_funded { tokens_sold = 0 }

abbrev pub baseline_funded : Baseline
baseline_funded = record {
  mrv_project = mrv_key;
  auditor = 21;
  energy_kwh_per_year = 5;
  fuel_type = replicate 16 0;
  cost_inr_per_year = 6;
  co2_tons_per_year_x100 = 7;
  report_hash = [];
  submitted_at = pos 5;
  bump = 255;
}
