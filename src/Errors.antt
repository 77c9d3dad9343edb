-- ===== src/Errors.antt =====
-- programs/exira/src/error.rs, with the errors of the framework and of the token program that the
-- account constraints and the calls of that program can end in, and the result of a fallible step.
use ascertainty_contracts.Base.{ℕ}

pub data ExiraError : Type 0 where
  unauthorized platform_already_initialized invalid_usdc_mint invalid_fee_bps : ExiraError
  invalid_target_amount invalid_term_months mrv_baseline_missing duplicate_id : ExiraError
  pool_full not_funding not_active_or_repaying not_completed cannot_withdraw : ExiraError
  not_fully_funded cannot_cancel_active : ExiraError
  nothing_to_claim zero_amount no_tokens_sold math_overflow math_underflow : ExiraError
  insufficient_vault_balance : ExiraError
  auditor_inactive baseline_already_submitted invalid_verification_period : ExiraError
  already_attested attestation_auditor_mismatch : ExiraError
  pool_too_many_projects project_already_linked project_not_linked : ExiraError
  wrong_vault wrong_mint wrong_platform string_too_long : ExiraError

-- Errors of the framework's own constraints.
pub data AnchorError : Type 0 where
  account_not_initialized account_already_in_use account_discriminator_mismatch : AnchorError
  constraint_seeds constraint_token_mint constraint_token_owner constraint_associated : AnchorError

-- `token_error` carries a code of the token program.
pub data Error : Type 0 where
  exira : ExiraError → Error
  anchor : AnchorError → Error
  token_error : ℕ → Error

pub data Result {ℓ} (A : Type ℓ) : Type ℓ where
  ok : A → Result A
  err : Error → Result A
