-- ===== src/Shares/Excess.antt =====
-- What a further purchase of pool tokens (buy_pool_tokens.rs) may claim at once: the position keeps
-- its `last_claimed_per_token`, so the new tokens share in what the pool has accrued since.
use ascertainty_contracts.Base.{ℕ, ◌+◌, ◌-◌, ◌*◌, ◌==◌, if◌then◌else◌, Option, some}
use ascertainty_contracts.Base.Store.{lookup}
use ascertainty_contracts.Accounts.{
  Pubkey, Account, Accounts, default_key, pool_account, position_account,
}
use ascertainty_contracts.Program.{
  Instruction, buy_pool_tokens, Step, runs, elsewhere, Reach, here, next,
}
use ascertainty_contracts.Runtime.{Runtime, State}
use ascertainty_contracts.Shares.Move.{nothing}

abbrev pub excess_at : Option Account → Option Account → ℕ → ℕ
excess_at (some (pool_account p)) (some (position_account q)) n =
    if q.owner == default_key
    then 0
    else n * (p.cumulative_usdc_per_token - q.last_claimed_per_token)
excess_at _ _ n = 0

abbrev pub pool_excess : Pubkey → Pubkey → ℕ → Accounts → Pubkey → ℕ
pool_excess pool position n d =
    λ k. if k == pool then excess_at (lookup pool d) (lookup position d) n else 0

-- In units of 1 / precision, by pool.
abbrev pub excess_of : Instruction → Accounts → Pubkey → ℕ
excess_of (buy_pool_tokens ctx n) d = pool_excess ctx.pool ctx.position n d
excess_of _ d = nothing

module _ {L : Type 0} (rt : Runtime L) where
  abbrev pub step_excess : {s s' : State L} → Step rt s s' → Pubkey → ℕ
  step_excess {s} (runs i e) = excess_of i s.accounts
  step_excess (elsewhere tokens now e) = nothing

  -- The sum over a chain.
  abbrev pub total_excess : {s t : State L} → Reach rt s t → Pubkey → ℕ
  total_excess here = nothing
  total_excess (next r st) = λ k. total_excess r k + step_excess st k
