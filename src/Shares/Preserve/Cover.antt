-- ===== src/Shares/Preserve/Cover.antt =====
-- What a pool owes, against the moves: it may exceed what was distributed by what further purchases
-- may claim at once.
use ascertainty_contracts.Base.{
  ℕ, ◌+◌, ◌-◌, ◌*◌, ◌/◌, ◌≤◌, ◌≡◌, refl, ap, sym, ◌∙◌, ◌⊎◌, inl, inr, true, false, some, arith,
  ◌==◌, Bool-cases, [],
}
use ascertainty_contracts.Base.Store.{
  lookup, insert, lookup-insert_cases, sum_by-insert_zero, sum_by-le-linear,
}
use ascertainty_contracts.Constants.{precision}
use ascertainty_contracts.Accounts.{
  link_account, Pubkey, InvestorPosition, Account, Accounts, pool_account, position_account,
}
use ascertainty_contracts.Runtime.{Runtime, RuntimeLaws, NewOrOld, blank_position}
use ascertainty_contracts.Investor.Projects.{opened_position}
use ascertainty_contracts.Shares.Fund.{
  pool_fund, plain-is_position, count-is_pool, Fund, fund_of, is_pool, is_position, is_raising,
  held, entitled, entitlements, entitled_of_other, is_position_of_fund, entitled_grows,
}
use ascertainty_contracts.Shares.Move.{
  bought, nothing, Move, put, create, govern, distribute, buy, claim, withdraw, link, one_more,
  Moves, done, then_move,
}
use ascertainty_contracts.Shares.Kept.{still_free}
use ascertainty_contracts.Shares.Invariant.{Inv}
use ascertainty_contracts.Shares.Rewrite.{entitlements_of_none, entitlements-insert_fund}
use ascertainty_contracts.Shares.Preserve.Funds.{mul-div-le}
use ascertainty_contracts.Shares.Preserve.Positions.{
  entitlements-insert_position, fund_before, entitled_here, mul-sub_self, claim_less,
  settled_position,
}
use ascertainty_contracts.Shares.Preserve.Trades.{old', entitlements_others}
use ascertainty_contracts.Shares.Preserve.Purchases.{
  target_of_address, was_mine, bought-IsBought, Moves-Inv,
}
pub mod Upkeep

-- Every pool owes at most what was distributed to it, and `y`.
pub record IsCovered (y : Pubkey → ℕ) (d : Accounts) : Type 0 where
  pub covered :
      (k : Pubkey) (a : Account) (f : Fund)
      → lookup k d ≡ some a
      → fund_of a ≡ some f
      → is_pool a ≡ true
      → entitlements k f.per_token d ≤ f.distributed * precision + y k

pub more-IsCovered :
    (y x : Pubkey → ℕ) (d : Accounts) → IsCovered y d → IsCovered (λ k. y k + x k) d
more-IsCovered y x d c = record { covered = λ k a f e fa p. omega (arith, c.covered k a f e fa p) }

-- A write of an account that is no position, over one that is none either.
pub write-IsCovered :
    (y : Pubkey → ℕ) (d : Accounts) (k : Pubkey) (v : Account)
    → ((w : Account) → lookup k d ≡ some w → is_position w ≡ false)
    → is_position v ≡ false
    → ((g : Fund)
        → fund_of v ≡ some g
        → is_pool v ≡ true
        → entitlements k g.per_token d ≤ g.distributed * precision + y k)
    → IsCovered y d
    → IsCovered y (insert k v d)
write-IsCovered y d k v plain vp mine c = record {
  covered = λ j b h e fb p.
      let same =
        sum_by-insert_zero (entitled j h.per_token) k v d
          (λ w x. entitled_of_other j h.per_token w (plain w x))
          (entitled_of_other j h.per_token v vp) in
      rw same (elim (lookup-insert_cases j k v b d e) [
        | inl (jk, bv) ↦ rw jk (mine h (cc (bv, fb)) (cc (bv, p)))
        | inr (ne, there) ↦ c.covered j b h there fb p
      ]);
}

pub raising-is_pool : (a : Account) → is_raising a ≡ true → is_pool a ≡ true → ⊥
raising-is_pool (pool_account p) r e = cc
raising-is_pool _ r e = cc

mul_spread : (a b c : ℕ) → (a + b) * c ≡ a * c + b * c
mul_spread a b c = grind arith

pub fund_plain :
    (d : Accounts) (k : Pubkey) (a : Account) {f : Fund}
    → lookup k d ≡ some a
    → fund_of a ≡ some f
    → (w : Account) → lookup k d ≡ some w
    → is_position w ≡ false
fund_plain d k a ka fa w e = let same : w ≡ a = cc (ka, e) in rw same (is_position_of_fund a fa)

-- Opening a position entitles to nothing, and `n` more tokens to their part of what the position has
-- not claimed.
opened-entitled :
    (k : Pubkey) (q : InvestorPosition) (investor c b : ℕ)
    → entitled k c (position_account (opened_position q investor k c b))
      ≤ entitled k c (position_account q)
opened-entitled k q investor c b = elim (Bool-cases (q.owner == 0)) [
  | inl e ↦ rw e (ground (arith, mul-sub_self q.tokens_held c))
  | inr e ↦ rw e (omega arith)
]

held-entitled :
    (k : Pubkey) (q : InvestorPosition) (c n : ℕ)
    → q.target ≡ k
    → entitled k c (position_account (record q { tokens_held = q.tokens_held + n }))
      ≡ entitled k c (position_account q) + n * (c - q.last_claimed_per_token)
held-entitled k q c n mine = omega (
  arith,
  entitled_here k c q mine,
  entitled_here k c (record q { tokens_held = q.tokens_held + n }) mine,
  mul_spread q.tokens_held n (c - q.last_claimed_per_token),
)

-- A purchase entitles at once to no more than its excess.
pub bought-entitled :
    (k : Pubkey) (q : InvestorPosition) (investor c b n x : ℕ)
    → (bought q investor k c b n).target ≡ k
    → n * (c - (opened_position q investor k c b).last_claimed_per_token) ≤ x
    → entitled k c (position_account (bought q investor k c b n))
      ≤ entitled k c (position_account q) + x
bought-entitled k q investor c b n x mine within = omega (
  arith,
  opened-entitled k q investor c b,
  held-entitled k (opened_position q investor k c b) c n mine,
  within,
)

-- What a fund owes when one of its positions is written with it.
module _ {L : Type 0} (rt : Runtime L) (y x : Pubkey → ℕ) (d : Accounts) (k : Pubkey)
    (a v : Account) (f g : Fund) (at : Pubkey) (q q' : InvestorPosition) where
  pub trade-IsCovered :
      lookup k d ≡ some a
      → fund_of a ≡ some f
      → fund_of v ≡ some g
      → is_pool v ≡ is_pool a
      → is_raising v ≡ is_raising a
      → g.per_token ≡ f.per_token
      → g.distributed ≡ f.distributed
      → g.sold ≤ g.target
      → NewOrOld at q d
      → q'.target ≡ k
      → (q ≡ blank_position) ⊎ (q.target ≡ k)
      → (is_pool a ≡ true
          → entitled k f.per_token (position_account q')
            ≤ entitled k f.per_token (position_account q) + x k)
      → IsCovered y d
      → IsCovered (λ j. y j + x j) (insert at (position_account q') (insert k v d))
  trade-IsCovered ka fa gv pools raising per_token distributed room old mine was less c = record {
    covered = λ j b h e fb p.
        elim (lookup-insert_cases j k v b d (fund_before (insert k v d) at q q' j b h e fb)) [
          | inl (jk, bv) ↦
              let hg : h ≡ g = cc (fb, gv, bv) in
              let pool : is_pool a ≡ true = cc (pools, bv, p) in
              let before =
                old' rt d k a v f g at q q' ka fa gv pools raising per_token distributed room old
                  mine was in
              rw (jk, hg, per_token, distributed)
                (omega (
                  arith,
                  c.covered k a f ka fa pool,
                  less pool,
                  entitlements-insert_position (insert k v d) at q q' k f.per_token before,
                  entitlements-insert_fund k a v d k f.per_token ka fa gv,
                ))
          | inr (ne, there) ↦
              rw
                (entitlements_others rt d k a v f g at q q' ka fa gv pools raising per_token
                  distributed room old mine was j h.per_token ne)
                (omega (arith, c.covered j b h there fb p))
        ];
  }
