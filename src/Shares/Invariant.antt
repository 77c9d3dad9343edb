-- ===== src/Shares/Invariant.antt =====
-- The invariant of the accounts: positions and the funds they name, the shares of a fund, and what a
-- project owes.
use ascertainty_contracts.Base.{◌*◌, ◌≤◌, ◌≡◌, true, false, some}
use ascertainty_contracts.Base.Store.{lookup, All}
use ascertainty_contracts.Constants.{precision}
use ascertainty_contracts.Accounts.{Pubkey, InvestorPosition, Account, Accounts, position_account}
use ascertainty_contracts.Runtime.{Runtime, position_seeds}
use ascertainty_contracts.Shares.Fund.{Fund, fund_of, is_pool, is_raising, shares, entitlements}

-- The fund that a position names is there, and the position has settled no further than it stands.
pub record HasFund (d : Accounts) (q : InvestorPosition) : Type 0 where
  pub account : Account
  pub fund : Fund
  pub found : lookup q.target d ≡ some account
  pub is_fund : fund_of account ≡ some fund
  pub settled : q.last_claimed_per_token ≤ fund.per_token

module _ {L : Type 0} (rt : Runtime L) where
  -- What is required of the account `v` at `at`: a position stands at the address of its target and
  -- owner.
  abbrev pub IsPlaced : Accounts → Pubkey → Account → Type 0
  IsPlaced d at (position_account q) =
      (at ≡ rt.create_program_address (position_seeds q.target q.owner) q.bump) × HasFund d q
  IsPlaced d at _ = Unit

  pub record Inv (d : Accounts) : Type 0 where
    pub placed : All (IsPlaced d) d
    pub supply :
        (k : Pubkey) (a : Account) (f : Fund)
        → lookup k d ≡ some a
        → fund_of a ≡ some f
        → (shares k d ≡ f.sold) × (f.sold ≤ f.target)
    pub quiet :
        (k : Pubkey) (a : Account) (f : Fund)
        → lookup k d ≡ some a
        → fund_of a ≡ some f
        → is_raising a ≡ true
        → f.per_token ≡ 0
    pub solvent :
        (k : Pubkey) (a : Account) (f : Fund)
        → lookup k d ≡ some a
        → fund_of a ≡ some f
        → is_pool a ≡ false
        → entitlements k f.per_token d ≤ f.distributed * precision
