-- ===== src/Mrv/Reports.antt =====
-- programs/exira/src/instructions/mrv: submit_baseline.rs, submit_verification.rs, attest.rs.
use ascertainty_contracts.Base.{ℕ, ◌==◌, true, false, not, List, [], ◌∷◌, saturating_add, u8_size}
use ascertainty_contracts.Base.Int.{ℤ, ltb_ℤ}
use ascertainty_contracts.Constants.{baseline_seed, verification_seed, fuel_type_len}
use ascertainty_contracts.Errors.{
  unauthorized, auditor_inactive, baseline_already_submitted, mrv_baseline_missing,
  invalid_verification_period, already_attested, attestation_auditor_mismatch, string_too_long,
}
use ascertainty_contracts.Accounts.{
  Pubkey, MrvProjectStatus, Auditor, mrv_account, baseline_account, verification_account,
}
use ascertainty_contracts.Runtime.{
  Seed, tag, key, byte, Runtime, M, ◌>>=◌, ◌>>◌, pure, require, ok_or, clock, save, load,
  as_mrv_project, as_verification, as_auditor, check_address, init,
}
use ascertainty_contracts.Mrv.Text.{pad_into}
use ascertainty_contracts.Mrv.Registry.{mrv_project_seeds, auditor_seeds}

abbrev pub baseline_seeds : Pubkey → List Seed
baseline_seeds mrv_project = tag baseline_seed ∷ key mrv_project ∷ []

abbrev pub verification_seeds : Pubkey → ℕ → List Seed
verification_seeds mrv_project index = tag verification_seed ∷ key mrv_project ∷ byte index ∷ []

pub record SubmitBaseline : Type 0 where
  pub auditor_signer : Pubkey
  pub auditor : Pubkey
  pub mrv_project : Pubkey
  pub baseline : Pubkey

pub record SubmitVerification : Type 0 where
  pub auditor_signer : Pubkey
  pub auditor : Pubkey
  pub mrv_project : Pubkey
  pub verification : Pubkey

pub record AttestVerification : Type 0 where
  pub auditor_signer : Pubkey
  pub auditor : Pubkey
  pub mrv_project : Pubkey
  pub verification : Pubkey

-- The numbers of a baseline report.
pub record BaselineReport : Type 0 where
  pub energy_kwh_per_year : ℕ
  pub fuel_type : List ℕ
  pub cost_inr_per_year : ℕ
  pub co2_tons_per_year_x100 : ℕ
  pub report_hash : List ℕ

-- The arguments of `submit_verification` after the index.
pub record SavingsReport : Type 0 where
  pub period_start : ℤ
  pub period_end : ℤ
  pub energy_kwh_saved : ℕ
  pub cost_inr_saved : ℕ
  pub co2_tons_avoided_x100 : ℕ
  pub savings_vs_expected_bps : ℕ
  pub report_hash : List ℕ

module _ {L : Type 0} (rt : Runtime L) where
  -- `auditor` with its seeds and constraints, which the three instructions share.
  unfoldable pub load_auditor_of : Pubkey → Pubkey → M L Auditor
  load_auditor_of k signer = do
    auditor ← load as_auditor k
    check_address rt k (auditor_seeds signer) auditor.bump
    require auditor.is_active auditor_inactive
    require (auditor.wallet == signer) unauthorized
    pure auditor

  unfoldable pub submit_baseline : SubmitBaseline → BaselineReport → M L (Unit {0})
  submit_baseline ctx report = do
    auditor ← load_auditor_of ctx.auditor ctx.auditor_signer
    mrv ← load as_mrv_project ctx.mrv_project
    check_address rt ctx.mrv_project (mrv_project_seeds mrv.project_id) mrv.bump
    require (not mrv.baseline_submitted) baseline_already_submitted
    bump ← init rt ctx.baseline (baseline_seeds ctx.mrv_project)
    now ← clock
    fuel ← ok_or (pad_into fuel_type_len report.fuel_type) string_too_long
    save ctx.mrv_project (
        mrv_account
          (record mrv { baseline_submitted = true; status = MrvProjectStatus.baseline_submitted }))
    save ctx.baseline (
        baseline_account (record {
          mrv_project = ctx.mrv_project;
          auditor = ctx.auditor_signer;
          energy_kwh_per_year = report.energy_kwh_per_year;
          fuel_type = fuel;
          cost_inr_per_year = report.cost_inr_per_year;
          co2_tons_per_year_x100 = report.co2_tons_per_year_x100;
          report_hash = report.report_hash;
          submitted_at = now;
          bump = bump;
        }))

  unfoldable pub submit_verification : SubmitVerification → ℕ → SavingsReport → M L (Unit {0})
  submit_verification ctx index report = do
    auditor ← load_auditor_of ctx.auditor ctx.auditor_signer
    mrv ← load as_mrv_project ctx.mrv_project
    check_address rt ctx.mrv_project (mrv_project_seeds mrv.project_id) mrv.bump
    require mrv.baseline_submitted mrv_baseline_missing
    bump ← init rt ctx.verification (verification_seeds ctx.mrv_project index)
    require (ltb_ℤ report.period_start report.period_end) invalid_verification_period
    now ← clock
    save ctx.mrv_project (
        mrv_account (record mrv {
          verification_count = saturating_add u8_size mrv.verification_count 1;
          status = MrvProjectStatus.in_progress;
        }))
    save ctx.verification (
        verification_account (record {
          mrv_project = ctx.mrv_project;
          auditor = ctx.auditor_signer;
          index = index;
          period_start = report.period_start;
          period_end = report.period_end;
          energy_kwh_saved = report.energy_kwh_saved;
          cost_inr_saved = report.cost_inr_saved;
          co2_tons_avoided_x100 = report.co2_tons_avoided_x100;
          savings_vs_expected_bps = report.savings_vs_expected_bps;
          report_hash = report.report_hash;
          attested = false;
          submitted_at = now;
          bump = bump;
        }))

  unfoldable pub attest_verification : AttestVerification → M L (Unit {0})
  attest_verification ctx = do
    auditor ← load_auditor_of ctx.auditor ctx.auditor_signer
    mrv ← load as_mrv_project ctx.mrv_project
    check_address rt ctx.mrv_project (mrv_project_seeds mrv.project_id) mrv.bump
    verification ← load as_verification ctx.verification
    check_address rt ctx.verification (verification_seeds ctx.mrv_project verification.index)
        verification.bump
    require (not verification.attested) already_attested
    require (verification.auditor == ctx.auditor_signer) attestation_auditor_mismatch
    save ctx.verification (verification_account (record verification { attested = true }))
