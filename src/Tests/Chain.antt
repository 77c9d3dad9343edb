-- ===== src/Tests/Chain.antt =====
-- A run of the program on the small runtime, for tests.
use ascertainty_contracts.Base.{◌⊎◌, inl, inr, subst, ℕ, ◌+◌, ◌*◌, ◌≡◌, refl, List, [], ◌∷◌, ◌++◌}
use ascertainty_contracts.Base.Int.{pos}
use ascertainty_contracts.Constants.{
  default_origination_fee_bps, default_performance_fee_bps, default_hurdle_rate_bps,
}
use ascertainty_contracts.Errors.{Error, Result, ok, err}
use ascertainty_contracts.Accounts.{Pubkey}
use ascertainty_contracts.Runtime.{TokenAccount, State, position_seeds}
use ascertainty_contracts.Admin.Projects.{project_seeds, ActivateProject, CloseProject}
use ascertainty_contracts.Admin.Pools.{pool_seeds, pool_link_seeds, AddProjectToPool}
use ascertainty_contracts.Admin.Funds.{WithdrawProjectFunds, DistributeRepayment}
use ascertainty_contracts.Investor.Projects.{
  BuyProjectTokens, WithdrawInvestment, ClaimProjectReturns,
}
use ascertainty_contracts.Investor.Pools.{BuyPoolTokens}
use ascertainty_contracts.Mrv.Registry.{mrv_project_seeds, auditor_seeds}
use ascertainty_contracts.Mrv.Reports.{baseline_seeds, verification_seeds, AttestVerification}
use ascertainty_contracts.Program.{
  Instruction, initialize_platform, create_project, activate_project, distribute_repayment,
  close_project, create_pool, distribute_pool_returns, buy_project_tokens, claim_project_returns,
  buy_pool_tokens, register_mrv_project, add_auditor, submit_baseline, submit_verification,
  attest_verification, execute, runs, Reach, next,
}
use ascertainty_contracts.Tests.Small.{Tokens, address, small_runtime}

-- The admin is 1, the treasury 2, the investor 11, the auditor 21; the mints are 50, 60 and 61.
abbrev pub ata : Pubkey → Pubkey → Pubkey
ata wallet mint = 3_000_000 + wallet * 100 + mint

abbrev pub project_key : Pubkey
project_key = address (project_seeds 7) 255

abbrev pub pool_key : Pubkey
pool_key = address (pool_seeds 3) 255

abbrev pub mrv_key : Pubkey
mrv_key = address (mrv_project_seeds 7) 255

abbrev pub auditor_key : Pubkey
auditor_key = address (auditor_seeds 21) 255

abbrev pub verification_key : Pubkey
verification_key = address (verification_seeds mrv_key 0) 255

abbrev pub project_position : Pubkey
project_position = address (position_seeds project_key 11) 255

abbrev pub pool_position : Pubkey
pool_position = address (position_seeds pool_key 11) 255

abbrev pub claim_accounts : ClaimProjectReturns
claim_accounts = record {
  project = project_key;
  usdc_vault = ata project_key 50;
  investor = 11;
  position = project_position;
  investor_usdc_ata = ata 11 50;
  usdc_mint = 50;
}

abbrev pub pool_purchase : BuyPoolTokens
pool_purchase = record {
  pool = pool_key;
  pool_token_mint = 61;
  usdc_vault = ata pool_key 50;
  investor = 11;
  investor_usdc_ata = ata 11 50;
  investor_pool_token_ata = ata 11 61;
  position = pool_position;
  usdc_mint = 50;
}

abbrev pub activation : ActivateProject
activation = record {
  platform = 100;
  admin = 1;
  project = project_key;
  usdc_vault = ata project_key 50;
  treasury_usdc_ata = ata 2 50;
  treasury = 2;
  usdc_mint = 50;
}

abbrev pub closing : CloseProject
closing = record { platform = 100; admin = 1; project = project_key }

abbrev pub attesting : AttestVerification
attesting = record {
  auditor_signer = 21;
  auditor = auditor_key;
  mrv_project = mrv_key;
  verification = verification_key;
}

abbrev pub withdrawal : WithdrawInvestment
withdrawal = record {
  project = project_key;
  token_mint = 60;
  usdc_vault = ata project_key 50;
  investor = 11;
  position = project_position;
  investor_token_ata = ata 11 60;
  investor_usdc_ata = ata 11 50;
  usdc_mint = 50;
}

abbrev pub repayment : DistributeRepayment
repayment = record {
  platform = 100;
  admin = 1;
  project = project_key;
  admin_usdc_ata = ata 1 50;
  usdc_vault = ata project_key 50;
  usdc_mint = 50;
}

abbrev pub drawing : WithdrawProjectFunds
drawing = record {
  platform = 100;
  admin = 1;
  project = project_key;
  usdc_vault = ata project_key 50;
  destination = ata 1 50;
  usdc_mint = 50;
}

abbrev pub buying : BuyProjectTokens
buying = record {
  project = project_key;
  token_mint = 60;
  usdc_vault = ata project_key 50;
  investor = 11;
  investor_usdc_ata = ata 11 50;
  investor_token_ata = ata 11 60;
  position = project_position;
  usdc_mint = 50;
}

abbrev pub linking : AddProjectToPool
linking = record {
  platform = 100;
  admin = 1;
  pool = pool_key;
  project = project_key;
  pool_project_link = address (pool_link_seeds pool_key project_key) 255;
}

-- From the start to a project that raises money.
abbrev pub opening : List Instruction
opening =
    initialize_platform (record { platform = 100; admin = 1; treasury = 2; usdc_mint = 50 })
      default_origination_fee_bps default_performance_fee_bps default_hurdle_rate_bps
    ∷ register_mrv_project (record { platform = 100; admin = 1; mrv_project = mrv_key }) 7 [] [] []
        []
    ∷ add_auditor (record { platform = 100; admin = 1; auditor_wallet = 21; auditor = auditor_key })
        [] []
    ∷ submit_baseline
        (record {
          auditor_signer = 21;
          auditor = auditor_key;
          mrv_project = mrv_key;
          baseline = address (baseline_seeds mrv_key) 255;
        })
        (record {
          energy_kwh_per_year = 5;
          fuel_type = [];
          cost_inr_per_year = 6;
          co2_tons_per_year_x100 = 7;
          report_hash = [];
        })
    ∷ create_project
        (record {
          platform = 100;
          admin = 1;
          mrv_project = mrv_key;
          project = project_key;
          token_mint = 60;
          usdc_vault = ata project_key 50;
          usdc_mint = 50;
        })
        7 100 24
    ∷ []

-- The purchase of all its tokens, and a pool.
abbrev pub funding : List Instruction
funding =
    opening
    ++ (buy_project_tokens buying 100
        ∷ create_pool
            (record {
              platform = 100;
              admin = 1;
              pool = pool_key;
              pool_token_mint = 61;
              usdc_vault = ata pool_key 50;
              usdc_mint = 50;
            })
            3 200
        ∷ [])

-- The purchase of pool tokens, the activation, and a distribution to both.
abbrev pub running : List Instruction
running =
    buy_pool_tokens pool_purchase 10
    ∷ activate_project activation
    ∷ submit_verification
        (record {
          auditor_signer = 21;
          auditor = auditor_key;
          mrv_project = mrv_key;
          verification = verification_key;
        })
        0
        (record {
          period_start = pos 1;
          period_end = pos 2;
          energy_kwh_saved = 1;
          cost_inr_saved = 1;
          co2_tons_avoided_x100 = 1;
          savings_vs_expected_bps = 1;
          report_hash = [];
        })
    ∷ distribute_repayment repayment 30
    ∷ distribute_pool_returns
        (record {
          platform = 100;
          admin = 1;
          pool = pool_key;
          admin_usdc_ata = ata 1 50;
          usdc_vault = ata pool_key 50;
          usdc_mint = 50;
        })
        5
    ∷ []

-- What remains after the distributions.
abbrev pub ending : List Instruction
ending =
    claim_project_returns claim_accounts
    ∷ attest_verification attesting
    ∷ close_project closing
    ∷ []

abbrev pub holder : Pubkey → ℕ → TokenAccount
holder owner amount = record { mint = 50; owner = owner; amount = amount }

abbrev pub start : State Tokens
start = record {
  accounts = [];
  tokens = (ata 1 50, holder 1 1_000) ∷ (ata 2 50, holder 2 0) ∷ (ata 11 50, holder 11 1_000) ∷ [];
  unix_timestamp = pos 5;
}

-- The instructions one after the other, up to the first that fails.
unfoldable pub run_all : List Instruction → State Tokens → Result (State Tokens)
run_all [] s = ok s
run_all (i ∷ is) s = elim (execute small_runtime i s) [ ok (u, t) ↦ run_all is t | err e ↦ err e ]

Result-cases : {A : Type 0} (r : Result A) → ((a : A) × (r ≡ ok a)) ⊎ ((e : Error) × (r ≡ err e))
Result-cases (ok a) = inl (a, refl)
Result-cases (err e) = inr (e, refl)

pub run_all-Reach :
    (is : List Instruction) (s u t : State Tokens)
    → Reach small_runtime s u
    → run_all is u ≡ ok t
    → Reach small_runtime s t
unfolding run_all
run_all-Reach [] s u t r e = let same : u ≡ t = cc e in subst (λ x. Reach small_runtime s x) same r
run_all-Reach (i ∷ is) s u t r e = elim (Result-cases (execute small_runtime i u)) [
  | inl (a, x) ↦ run_all-Reach is s a.1 t (next r (runs i x)) (rw (x, run_all) at e)
  | inr (f, x) ↦ let no : err f ≡ ok t = rw (x, run_all) at e in cc no
]

unfoldable pub state_of : Result (State Tokens) → State Tokens
state_of (ok t) = t
state_of (err e) = start

unfoldable pub tokens_of : Result Tokens → Tokens
tokens_of (ok l) = l
tokens_of (err e) = []
