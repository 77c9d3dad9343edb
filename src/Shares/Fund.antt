-- ===== src/Shares/Fund.antt =====
-- A fund: what projects (state/project.rs) and pools (state/pool.rs) have in common, and how much
-- of it each account (state/investor_position.rs) holds and may have claimed.
use ascertainty_contracts.Base.{
  ℕ, ◌+◌, ◌-◌, ◌*◌, ◌≤◌, ◌≡◌, refl, Bool, true, false, ◌==◌, if◌then◌else◌, Option, none, some,
  arith, Bool-cases, inl, inr,
}
use ascertainty_contracts.Base.Store.{sum_by}
use ascertainty_contracts.Constants.{precision}
use ascertainty_contracts.Accounts.{
  Pubkey, ProjectStatus, project_status_eq, Project, Pool, Account, Accounts, project_account,
  pool_account, position_account, link_account,
}

pub record Fund : Type 0 where
  pub target : ℕ
  pub sold : ℕ
  pub distributed : ℕ
  pub per_token : ℕ

abbrev pub project_fund : Project → Fund
project_fund p = record {
  target = p.target_amount;
  sold = p.tokens_sold;
  distributed = p.total_distributed;
  per_token = p.cumulative_usdc_per_token;
}

abbrev pub pool_fund : Pool → Fund
pool_fund p = record {
  target = p.target_amount;
  sold = p.tokens_sold;
  distributed = p.total_distributed;
  per_token = p.cumulative_usdc_per_token;
}

abbrev pub fund_of : Account → Option Fund
fund_of (project_account p) = some (project_fund p)
fund_of (pool_account p) = some (pool_fund p)
fund_of _ = none

abbrev pub is_pool : Account → Bool
is_pool (pool_account p) = true
is_pool _ = false

abbrev pub is_position : Account → Bool
is_position (position_account q) = true
is_position _ = false

-- The number of projects that a pool counts.
abbrev pub count_of : Account → Option ℕ
count_of (pool_account p) = some p.underlying_project_count
count_of _ = none

-- A position of a fund, or the link of a project to a pool.
abbrev pub is_child : Account → Bool
is_child (position_account q) = true
is_child (link_account l) = true
is_child _ = false

pub plain-is_position : (v : Account) → is_child v ≡ false → is_position v ≡ false
plain-is_position (position_account q) e = cc
plain-is_position _ e = refl

pub count-is_pool : (v a : Account) → count_of v ≡ count_of a → is_pool v ≡ is_pool a
count-is_pool (pool_account p) (pool_account q) e = refl
count-is_pool (pool_account p) _ e = cc
count-is_pool _ (pool_account q) e = cc
count-is_pool _ _ e = refl

-- A project that still raises money.
abbrev pub is_raising : Account → Bool
is_raising (project_account p) = project_status_eq p.status ProjectStatus.funding
is_raising _ = false

-- The shares of fund `k` that an account holds.
abbrev pub held : Pubkey → Account → ℕ
held k (position_account q) = if q.target == k then q.tokens_held else 0
held k _ = 0

-- What a position of fund `k` has claimed and may claim, in units of 1 / precision, when the
-- accumulator of the fund stands at `per_token`.
abbrev pub entitled : Pubkey → ℕ → Account → ℕ
entitled k per_token (position_account q) =
    if q.target == k
    then q.total_claimed * precision + q.tokens_held * (per_token - q.last_claimed_per_token)
    else 0
entitled k per_token _ = 0

-- All shares of fund `k` that positions hold.
abbrev pub shares : Pubkey → Accounts → ℕ
shares k d = sum_by (held k) d

abbrev pub entitlements : Pubkey → ℕ → Accounts → ℕ
entitlements k per_token d = sum_by (entitled k per_token) d

pub held_of_fund : (k : Pubkey) (v : Account) {f : Fund} → fund_of v ≡ some f → held k v ≡ 0
held_of_fund k (position_account q) e = cc
held_of_fund k _ e = refl

pub entitled_of_fund :
    (k : Pubkey) (c : ℕ) (v : Account) {f : Fund} → fund_of v ≡ some f → entitled k c v ≡ 0
entitled_of_fund k c (position_account q) e = cc
entitled_of_fund k c _ e = refl

pub held_of_other : (k : Pubkey) (v : Account) → is_position v ≡ false → held k v ≡ 0
held_of_other k (position_account q) e = cc
held_of_other k _ e = refl

pub entitled_of_other :
    (k : Pubkey) (c : ℕ) (v : Account) → is_position v ≡ false → entitled k c v ≡ 0
entitled_of_other k c (position_account q) e = cc
entitled_of_other k c _ e = refl

pub is_position_of_fund : (v : Account) {f : Fund} → fund_of v ≡ some f → is_position v ≡ false
is_position_of_fund (position_account q) e = cc
is_position_of_fund _ e = refl

mul_mono : (t x y : ℕ) → x ≤ y → t * x ≤ t * y
mul_mono t x y h = grind arith

mul_spread : (t c d l : ℕ) → t * (c + d - l) ≤ t * (c - l) + t * d
mul_spread t c d l = omega (arith, mul_mono t (c + d - l) (c - l + d) (omega arith))

-- Raising the accumulator by `d` entitles each share to `d` more at most.
pub entitled_grows :
    (k : Pubkey) (c d : ℕ) (v : Account) → entitled k (c + d) v ≤ entitled k c v + held k v * d
entitled_grows k c d (position_account q) = elim (Bool-cases (q.target == k)) [
  | inl e ↦ rw e (omega (arith, mul_spread q.tokens_held c d q.last_claimed_per_token))
  | inr e ↦ rw e (omega arith)
]
entitled_grows k c d _ = omega arith
