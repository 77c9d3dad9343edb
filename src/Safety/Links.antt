-- ===== src/Safety/Links.antt =====
-- The projects of a pool (add_project_to_pool.rs): the links that are there and the pool's own count.
use ascertainty_contracts.Base.{◌≤◌, ◌≡◌, refl, sym, subst, Option, some, arith}
use ascertainty_contracts.Base.Store.{lookup}
use ascertainty_contracts.Constants.{max_pool_projects_v1}
use ascertainty_contracts.Accounts.{Pubkey, Account, pool_account}
use ascertainty_contracts.Runtime.{Runtime, State}
use ascertainty_contracts.Program.{Reach, here, next, IsFresh}
use ascertainty_contracts.Shares.Preserve.Links.{
  links, count_at, Linked, Linked-fresh, Moves-Linked,
}
use ascertainty_contracts.Refine.Program.{Step-Moves, Reach-Rules}

module _ {L : Type 0} {rt : Runtime L} where
  Reach-Linked : (s t : State L) → IsFresh rt s → Reach rt s t → Linked t.accounts
  Reach-Linked s t fresh here = subst Linked (sym fresh) Linked-fresh
  Reach-Linked s t fresh (next {t = u} r st) =
      Moves-Linked rt u.accounts t.accounts (Step-Moves rt u t st) (Reach-Linked s u fresh r)

  -- From a state without accounts, whatever instructions run: the `underlying_project_count` of a pool
  -- is the number of link accounts that name the pool, and at most 20. A key without a pool is named by
  -- no link.
  pub Reach-pool_links :
      (s t : State L) (k : Pubkey)
      → IsFresh rt s
      → Reach rt s t
      → (links k t.accounts ≡ count_at (lookup k t.accounts))
        × (links k t.accounts ≤ max_pool_projects_v1)
  Reach-pool_links s t k fresh r =
      let counted = (Reach-Linked s t fresh r).counted k in
      (
        counted,
        subst (λ n. n ≤ max_pool_projects_v1) (sym counted) (few (lookup k t.accounts) refl),
      )
    where
      few : (o : Option Account) → lookup k t.accounts ≡ o → count_at o ≤ max_pool_projects_v1
      few (some (pool_account p)) e =
          let (_, _, at_most) = (Reach-Rules rt s t fresh r).gated k (pool_account p) e in at_most
      few _ e = omega arith
