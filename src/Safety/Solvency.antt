-- ===== src/Safety/Solvency.antt =====
-- Money and shares along a chain of instructions: what positions claim of a project
-- (claim_project_returns.rs, distribute_repayment.rs) and hold of a fund.
use ascertainty_contracts.Base.{ℕ, ◌*◌, ◌≤◌, ◌≡◌, ◌==◌, if◌then◌else◌, refl, some, arith}
use ascertainty_contracts.Base.Store.{lookup, sum_by, sum_by_scaled}
use ascertainty_contracts.Constants.{precision}
use ascertainty_contracts.Accounts.{
  Pubkey, Project, Account, Accounts, project_account, position_account,
}
use ascertainty_contracts.Runtime.{Runtime, RuntimeLaws, State}
use ascertainty_contracts.Program.{Reach, IsFresh}
use ascertainty_contracts.Shares.Fund.{Fund, fund_of, project_fund, shares, entitled, entitlements}
use ascertainty_contracts.Refine.Program.{Reach-Inv}

-- What a position has claimed of the fund at `k`.
abbrev pub claimed : Pubkey → Account → ℕ
claimed k (position_account q) = if q.target == k then q.total_claimed else 0
claimed k _ = 0

abbrev pub claims : Pubkey → Accounts → ℕ
claims k d = sum_by (claimed k) d

pub claimed_scaled : (k : Pubkey) (c : ℕ) (v : Account) → claimed k v * precision ≤ entitled k c v
claimed_scaled k c (position_account q) = ground arith
claimed_scaled k c _ = omega arith

module _ {L : Type 0} {rt : Runtime L} (laws : RuntimeLaws rt) where
  -- From a state without accounts, whatever instructions run: the positions of a project have
  -- together claimed, and can still claim at its accumulator, at most what was distributed to it,
  -- counted in units of 1 / precision. The addresses of positions are collision free.
  pub Reach-solvent :
      (s t : State L) (k : Pubkey) (p : Project)
      → IsFresh rt s
      → Reach rt s t
      → lookup k t.accounts ≡ some (project_account p)
      → entitlements k p.cumulative_usdc_per_token t.accounts ≤ p.total_distributed * precision
  Reach-solvent s t k p fresh r e =
      (Reach-Inv laws s t fresh r).solvent k (project_account p) (project_fund p) e refl refl

  -- Under the same conditions the `total_claimed` of a project's positions add up to no more than its
  -- `total_distributed`.
  pub Reach-claims :
      (s t : State L) (k : Pubkey) (p : Project)
      → IsFresh rt s
      → Reach rt s t
      → lookup k t.accounts ≡ some (project_account p)
      → claims k t.accounts ≤ p.total_distributed
  Reach-claims s t k p fresh r e = omega (
    arith,
    Reach-solvent s t k p fresh r e,
    sum_by_scaled (entitled k p.cumulative_usdc_per_token) (claimed k) precision t.accounts
        (claimed_scaled k p.cumulative_usdc_per_token),
  )

  -- From a state without accounts, whatever instructions run: the tokens that positions hold of a
  -- project or a pool add up to its `tokens_sold`, which is at most its target. The addresses of
  -- positions are collision free.
  pub Reach-supply :
      (s t : State L) (k : Pubkey) (a : Account) (f : Fund)
      → IsFresh rt s
      → Reach rt s t
      → lookup k t.accounts ≡ some a
      → fund_of a ≡ some f
      → (shares k t.accounts ≡ f.sold) × (f.sold ≤ f.target)
  Reach-supply s t k a f fresh r e fa = (Reach-Inv laws s t fresh r).supply k a f e fa
