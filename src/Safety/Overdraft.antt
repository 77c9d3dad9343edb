-- ===== src/Safety/Overdraft.antt =====
-- How far the claims on a pool may exceed what was distributed to it (buy_pool_tokens.rs,
-- claim_pool_returns.rs, distribute_pool_returns.rs).
use ascertainty_contracts.Base.{◌+◌, ◌*◌, ◌≤◌, ◌≡◌, refl, sym, subst, some, arith}
use ascertainty_contracts.Base.Store.{lookup, sum_by_scaled}
use ascertainty_contracts.Constants.{precision}
use ascertainty_contracts.Accounts.{Pubkey, Pool, pool_account}
use ascertainty_contracts.Runtime.{Runtime, RuntimeLaws, State}
use ascertainty_contracts.Program.{Reach, here, next, IsFresh}
use ascertainty_contracts.Shares.Fund.{pool_fund, entitled, entitlements}
use ascertainty_contracts.Shares.Move.{nothing}
use ascertainty_contracts.Shares.Excess.{total_excess}
use ascertainty_contracts.Shares.Preserve.Cover.{IsCovered}
use ascertainty_contracts.Shares.Preserve.Cover.Upkeep.{IsCovered-fresh, Moves-IsCovered}
use ascertainty_contracts.Refine.Program.{Reach-Inv, Step-Moves}
use ascertainty_contracts.Safety.Solvency.{claimed, claims, claimed_scaled}

module _ {L : Type 0} {rt : Runtime L} (laws : RuntimeLaws rt) where
  Reach-IsCovered :
      (s t : State L) → IsFresh rt s → (r : Reach rt s t) → IsCovered (total_excess rt r) t.accounts
  Reach-IsCovered s t fresh here = subst (IsCovered nothing) (sym fresh) IsCovered-fresh
  Reach-IsCovered s t fresh (next {t = u} r st) =
      Moves-IsCovered laws (total_excess rt r) u.accounts t.accounts (Step-Moves rt u t st)
        (Reach-Inv laws s u fresh r) (Reach-IsCovered s u fresh r)

  -- From a state without accounts, whatever instructions run: the `total_claimed` of a pool's positions,
  -- in units of 1 / precision, together with what they can still claim, are at most what was
  -- distributed to the pool and, for each further purchase by a position, the tokens bought times the
  -- part of the accumulator that the position had not claimed then. The addresses of positions are
  -- collision free.
  pub Reach-covered :
      (s t : State L) (k : Pubkey) (p : Pool) (r : Reach rt s t)
      → IsFresh rt s
      → lookup k t.accounts ≡ some (pool_account p)
      → (entitlements k p.cumulative_usdc_per_token t.accounts
          ≤ p.total_distributed * precision + total_excess rt r k)
        × (claims k t.accounts * precision ≤ p.total_distributed * precision + total_excess rt r k)
  Reach-covered s t k p r fresh there =
      let within =
        (Reach-IsCovered s t fresh r).covered k (pool_account p) (pool_fund p) there refl refl in
      (
        within,
        omega (
          arith,
          within,
          sum_by_scaled (entitled k p.cumulative_usdc_per_token) (claimed k) precision t.accounts
              (claimed_scaled k p.cumulative_usdc_per_token),
        ),
      )
