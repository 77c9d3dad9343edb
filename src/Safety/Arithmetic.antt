-- ===== src/Safety/Arithmetic.antt =====
-- The checked arithmetic of the ways out of a project: claim_project_returns.rs and
-- withdraw_investment.rs.
use ascertainty_contracts.Base.{
  ◌≡◌, refl, subst, Bool, true, false, checked_sub_fits, checked_mul_fits, checked_add_fits,
  try_from_fits, u64_size, u128_size,
}
use ascertainty_contracts.Errors.{ExiraError, exira, err, math_overflow, math_underflow}
use ascertainty_contracts.Runtime.{Runtime, RuntimeLaws, State}
use ascertainty_contracts.Runtime.Raises.{
  ForeignErrors, FailsIn, Raises-init_associated_if_needed, Raises-load_token_of, Raises-transfer,
  Raises-burn, Raises-save,
}
use ascertainty_contracts.Runtime.Avoids.{
  Avoids, avoid_require, avoid_key, avoid_ok_or, avoid_project, avoid_position, avoid_load_token,
  avoid_load_mint, avoid_any, avoid_last,
}
use ascertainty_contracts.Investor.Projects.{
  ClaimProjectReturns, claim_project_returns, WithdrawInvestment, withdraw_investment,
}
use ascertainty_contracts.Program
use ascertainty_contracts.Program.{Instruction, execute, Reach, IsFresh}
use ascertainty_contracts.Shares.Invariant.{Inv}
use ascertainty_contracts.Shares.Rules.{Rules}
use ascertainty_contracts.Refine.Program.{Reach-Inv, Reach-Rules}
use ascertainty_contracts.Safety.Withdrawals.{enough_sold}
use ascertainty_contracts.Safety.Payout.{room_of_claim}

abbrev pub is_math : ExiraError → Bool
is_math math_overflow = true
is_math math_underflow = true
is_math _ = false

-- The instructions by which an investor takes funds out of a project.
abbrev pub is_way_out : Instruction → Bool
is_way_out (Program.claim_project_returns ctx) = true
is_way_out (Program.withdraw_investment ctx) = true
is_way_out _ = false

module _ {L : Type 0} {rt : Runtime L} (laws : RuntimeLaws rt)
    (foreign_errors : ForeignErrors rt) where
  claim-Avoids :
      (ctx : ClaimProjectReturns) (s : State L)
      → Inv rt s.accounts
      → Rules s.accounts
      → Avoids (λ e. is_math e ≡ false) (claim_project_returns rt ctx) s
  unfolding claim_project_returns
  claim-Avoids ctx s inv rules = avoid_project _ _ λ p there. avoid_key _ _ _ _ tt λ at.
      avoid_key _ _ _ _ refl λ vault. avoid_position _ _ λ q mine. avoid_key _ _ _ _ tt λ spot.
        let room =
          room_of_claim laws s.accounts ctx.project ctx.position ctx.investor p q inv rules there
            mine spot in
        avoid_key _ _ _ _ refl λ owner. avoid_key _ _ _ _ refl λ target.
          avoid_any _ _ (Raises-init_associated_if_needed foreign_errors _ _ _) λ _ _.
            avoid_load_token rt _ _ λ balance. avoid_load_mint rt _ _ (
              avoid_ok_or _ _ _ _ (checked_sub_fits _ _ room.settled) (
                avoid_ok_or _ _ _ _ (checked_mul_fits u128_size _ _ room.scaled) (
                  avoid_ok_or _ _ _ _ (try_from_fits u64_size _ room.owed) (
                    avoid_require _ _ _ refl λ due. avoid_require _ _ _ refl λ covered.
                      avoid_any _ _ (Raises-transfer foreign_errors _ _ _ _) λ _ _.
                        avoid_ok_or _ _ _ _ (checked_add_fits u64_size _ _ room.total)
                          (avoid_last _ (Raises-save _ _))))))

  withdrawal-Avoids :
      (ctx : WithdrawInvestment) (s : State L)
      → Inv rt s.accounts
      → Avoids (λ e. is_math e ≡ false) (withdraw_investment rt ctx) s
  unfolding withdraw_investment
  withdrawal-Avoids ctx s inv = avoid_project _ _ λ p there. avoid_key _ _ _ _ tt λ at.
      avoid_key _ _ _ _ refl λ mint. avoid_key _ _ _ _ refl λ vault. avoid_load_mint rt _ _ (
        avoid_load_token rt _ _ λ balance. avoid_position _ _ λ q mine. avoid_key _ _ _ _ tt λ spot.
          let enough =
            enough_sold laws s.accounts ctx.project ctx.position ctx.investor p q inv there mine
              spot in
          avoid_key _ _ _ _ refl λ owner. avoid_any _ _ (Raises-load_token_of rt _ _ _) λ _ _.
            avoid_any _ _ (Raises-load_token_of rt _ _ _) λ _ _. avoid_load_mint rt _ _ (
              avoid_require _ _ _ refl λ open_to. avoid_require _ _ _ refl λ nonzero.
                avoid_any _ _ (Raises-burn foreign_errors _ _ _ _) λ _ _.
                  avoid_any _ _ (Raises-transfer foreign_errors _ _ _ _) λ _ _.
                    avoid_ok_or _ _ _ _ (checked_sub_fits _ _ enough)
                      (avoid_any _ _ (Raises-save _ _) λ _ _. avoid_last _ (Raises-save _ _))))

  -- In every state reached from one without accounts: no claim of a project's returns and no withdrawal
  -- of an investment, with whatever accounts, fails with MathOverflow or MathUnderflow. The addresses
  -- of positions are collision free, and the token program ends in no error of this program.
  pub ways_out-no_math :
      (i : Instruction) (s t : State L) (e : ExiraError)
      → IsFresh rt s
      → Reach rt s t
      → is_way_out i ≡ true
      → execute rt i t ≡ err (exira e)
      → is_math e ≡ false
  unfolding execute
  ways_out-no_math (Program.claim_project_returns ctx) s t e fresh r way fails =
      subst (FailsIn (λ x. is_math x ≡ false)) fails
        (claim-Avoids ctx t (Reach-Inv laws s t fresh r) (Reach-Rules rt s t fresh r)).at
  ways_out-no_math (Program.withdraw_investment ctx) s t e fresh r way fails =
      subst (FailsIn (λ x. is_math x ≡ false)) fails
        (withdrawal-Avoids ctx t (Reach-Inv laws s t fresh r)).at
  ways_out-no_math _ s t e fresh r way fails = cc
