-- ===== src/Shares/Move.antt =====
-- What an instruction may do to the accounts, as far as funds and positions are concerned. The
-- instructions' own text is compared with these moves in Refine.
use ascertainty_contracts.Base.{
  ◌≢◌, ℕ, ◌+◌, ◌-◌, ◌*◌, ◌/◌, ◌≤◌, ◌<◌, ◌≡◌, ◌⊎◌, true, false, none, some, u64_size,
}
use ascertainty_contracts.Base.Store.{lookup, insert}
use ascertainty_contracts.Constants.{
  precision, max_fee_bps, min_term_months, max_term_months, max_pool_projects_v1,
}
use ascertainty_contracts.Accounts.Evolve.{Evolves}
use ascertainty_contracts.Accounts.{
  ProjectStatus, PoolStatus, Pool, PoolProjectLink, pool_account, link_account, MrvProject,
  platform_account, project_account, mrv_account, Pubkey, InvestorPosition, Account, Accounts,
  position_account,
}
use ascertainty_contracts.Runtime.{Runtime, NewOrOld, position_seeds}
use ascertainty_contracts.Investor.Projects.{opened_position}
use ascertainty_contracts.Shares.Home.{IsHome}
use ascertainty_contracts.Shares.Fund.{
  Fund, fund_of, is_pool, is_position, is_child, is_raising, count_of,
}

-- Nothing at `k` that funds or positions would miss, and `v` may follow what is there.
abbrev pub IsPlainAt : Pubkey → Account → Accounts → Type 0
IsPlainAt k v d =
    (a : Account) → lookup k d ≡ some a → (fund_of a ≡ none) × (is_position a ≡ false) × Evolves a v

-- A platform's fees are at most 100 percent.
abbrev pub IsSound : Account → Type 0
IsSound (platform_account t) =
    (t.origination_fee_bps ≤ max_fee_bps)
    × (t.performance_fee_bps ≤ max_fee_bps)
    × (t.hurdle_rate_bps ≤ max_fee_bps)
IsSound _ = Unit

-- A project refers to an MRV project whose baseline has been submitted, has a target and a term in
-- bounds, and is not cancelled; a pool has a target, raises money and has not too many projects.
abbrev pub IsAdmitted : Accounts → Account → Type 0
IsAdmitted d (project_account p) =
    ((m : MrvProject) × (lookup p.mrv_project d ≡ some (mrv_account m))
      × (m.baseline_submitted ≡ true))
    × (0 < p.target_amount)
    × (min_term_months ≤ p.term_months)
    × (p.term_months ≤ max_term_months)
    × (p.status ≢ ProjectStatus.cancelled)
IsAdmitted d (pool_account p) =
    (0 < p.target_amount)
    × (p.status ≡ PoolStatus.funding)
    × (p.underlying_project_count ≤ max_pool_projects_v1)
IsAdmitted d _ = Unit

-- A new pool has no projects.
abbrev pub IsUnlinked : Account → Type 0
IsUnlinked (pool_account p) = p.underlying_project_count ≡ 0
IsUnlinked _ = Unit

abbrev pub one_more : Pool → Pool
one_more p = record p { underlying_project_count = p.underlying_project_count + 1 }

-- The position after a purchase.
abbrev pub bought : InvestorPosition → Pubkey → Pubkey → ℕ → ℕ → ℕ → InvestorPosition
bought q investor k per_token bump n = record (opened_position q investor k per_token bump) {
  tokens_held = (opened_position q investor k per_token bump).tokens_held + n;
}

abbrev pub nothing : Pubkey → ℕ
nothing k = 0

module _ {L : Type 0} (rt : Runtime L) where
  -- `x` bounds what a purchase of pool tokens may claim at once, by pool.
  pub data Move (x : Pubkey → ℕ) (d e : Accounts) : Type 0 where
    -- An account that is neither fund nor position is made or rewritten.
    put :
        (k : Pubkey) (v : Account)
        → fund_of v ≡ none
        → is_child v ≡ false
        → IsPlainAt k v d
        → (IsSound v × IsHome rt k v) ⊎ ((a : Account) × (lookup k d ≡ some a))
        → e ≡ insert k v d
        → Move x d e
    create :
        (k : Pubkey) (v : Account) (target : ℕ)
        → lookup k d ≡ none
        → fund_of v ≡ some (record { target = target; sold = 0; distributed = 0; per_token = 0 })
        → IsAdmitted d v × IsHome rt k v × IsUnlinked v
        → e ≡ insert k v d
        → Move x d e
    -- The fund stays as it is; a project may leave the raising phase and cannot come back to it.
    govern :
        (k : Pubkey) (a v : Account) (f : Fund)
        → lookup k d ≡ some a
        → fund_of a ≡ some f
        → fund_of v ≡ some f
        → count_of v ≡ count_of a
        → Evolves a v
        → (is_raising v ≡ true → is_raising a ≡ true)
        → e ≡ insert k v d
        → Move x d e
    distribute :
        (k : Pubkey) (a v : Account) (f : Fund) (n : ℕ)
        → lookup k d ≡ some a
        → fund_of a ≡ some f
        → fund_of v
          ≡ some (record f {
            distributed = f.distributed + n;
            per_token = f.per_token + n * precision / f.sold;
          })
        → count_of v ≡ count_of a
        → Evolves a v
        → is_raising v ≡ false
        → 0 < f.sold
        → f.distributed + n < u64_size
        → e ≡ insert k v d
        → Move x d e
    buy :
        (k : Pubkey) (a v : Account) (f : Fund) (at : Pubkey) (q : InvestorPosition)
        → (investor : Pubkey) (n : ℕ) → lookup k d ≡ some a
        → fund_of a ≡ some f
        → fund_of v ≡ some (record f { sold = f.sold + n })
        → count_of v ≡ count_of a
        → Evolves a v
        → is_raising v ≡ is_raising a
        → (is_raising a ≡ true)
          ⊎ ((is_pool a ≡ true)
              × (n
                    * (f.per_token
                        - (opened_position q investor k f.per_token
                            (rt.find_program_address
                              (position_seeds k investor)).1).last_claimed_per_token)
                  ≤ x k))
        → f.sold + n ≤ f.target
        → at ≡ (rt.find_program_address (position_seeds k investor)).0
        → NewOrOld at q d
        → e
          ≡ insert at
              (position_account (
                bought q investor k f.per_token
                  (rt.find_program_address (position_seeds k investor)).1
                  n))
              (insert k v d)
        → Move x d e
    claim :
        (k : Pubkey) (a : Account) (f : Fund) (at : Pubkey) (q : InvestorPosition) (owed : ℕ)
        → lookup k d ≡ some a
        → fund_of a ≡ some f
        → lookup at d ≡ some (position_account q)
        → q.target ≡ k
        → q.last_claimed_per_token ≤ f.per_token
        → owed ≡ q.tokens_held * (f.per_token - q.last_claimed_per_token) / precision
        → 0 < owed
        → e
          ≡ insert at
              (position_account (record q {
                last_claimed_per_token = f.per_token;
                total_claimed = q.total_claimed + owed;
              }))
              d
        → Move x d e
    withdraw :
        (k : Pubkey) (a v : Account) (f : Fund) (at : Pubkey) (q : InvestorPosition)
        → lookup k d ≡ some a
        → fund_of a ≡ some f
        → fund_of v ≡ some (record f { sold = f.sold - q.tokens_held })
        → count_of v ≡ count_of a
        → Evolves a v
        → is_raising v ≡ is_raising a
        → lookup at d ≡ some (position_account q)
        → at ≡ rt.create_program_address (position_seeds k q.owner) q.bump
        → q.tokens_held ≤ f.sold
        → 0 < q.tokens_held
        → e ≡ insert at (position_account (record q { tokens_held = 0 })) (insert k v d)
        → Move x d e
    -- A project is linked to a pool, which counts it.
    link :
        (k : Pubkey) (p : Pool) (at : Pubkey) (l : PoolProjectLink)
        → lookup k d ≡ some (pool_account p)
        → lookup at d ≡ none
        → l.pool ≡ k
        → p.underlying_project_count < max_pool_projects_v1
        → IsHome rt at (link_account l)
        → e ≡ insert at (link_account l) (insert k (pool_account (one_more p)) d)
        → Move x d e

  pub data Moves (d : Accounts) : (Pubkey → ℕ) → Accounts → Type 0 where
    done : {x : Pubkey → ℕ} → Moves d x d
    then_move : {x : Pubkey → ℕ} {e e' : Accounts} → Moves d nothing e → Move x e e' → Moves d x e'

  pub one-Move : {x : Pubkey → ℕ} {d e : Accounts} → Move x d e → Moves d x e
  one-Move m = then_move done m
