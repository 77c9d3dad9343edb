-- ===== src/Constants.antt =====
-- programs/exira/src/constants.rs: PDA seed tags, the precision of the accumulator, fee caps, term
-- bounds, the pool limit and the lengths of the text fields.
use ascertainty_contracts.Base.{ℕ, List, codes}

abbrev pub platform_seed : List ℕ
platform_seed = codes "platform"

abbrev pub project_seed : List ℕ
project_seed = codes "project"

abbrev pub pool_seed : List ℕ
pool_seed = codes "pool"

abbrev pub pool_link_seed : List ℕ
pool_link_seed = codes "pool_link"

abbrev pub position_seed : List ℕ
position_seed = codes "position"

abbrev pub mrv_project_seed : List ℕ
mrv_project_seed = codes "mrv_project"

abbrev pub baseline_seed : List ℕ
baseline_seed = codes "baseline"

abbrev pub verification_seed : List ℕ
verification_seed = codes "verification"

abbrev pub auditor_seed : List ℕ
auditor_seed = codes "auditor"

abbrev pub precision : ℕ
precision = 1_000_000_000_000

abbrev pub max_fee_bps : ℕ
max_fee_bps = 10_000

abbrev pub default_origination_fee_bps : ℕ
default_origination_fee_bps = 150

abbrev pub default_performance_fee_bps : ℕ
default_performance_fee_bps = 3_000

abbrev pub default_hurdle_rate_bps : ℕ
default_hurdle_rate_bps = 800

abbrev pub min_term_months : ℕ
min_term_months = 6

abbrev pub max_term_months : ℕ
max_term_months = 60

abbrev pub max_pool_projects_v1 : ℕ
max_pool_projects_v1 = 20

abbrev pub exira_token_decimals : ℕ
exira_token_decimals = 6

abbrev pub msme_name_len : ℕ
msme_name_len = 64

abbrev pub sector_len : ℕ
sector_len = 32

abbrev pub location_len : ℕ
location_len = 64

abbrev pub upgrade_type_len : ℕ
upgrade_type_len = 32

abbrev pub fuel_type_len : ℕ
fuel_type_len = 16

abbrev pub auditor_name_len : ℕ
auditor_name_len = 64

abbrev pub certification_len : ℕ
certification_len = 32
