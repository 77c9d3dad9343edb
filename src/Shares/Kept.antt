-- ===== src/Shares/Kept.antt =====
-- A kind of account and the relation between what stands at a key before and after.
use ascertainty_contracts.Base.{
  ◌<◌, ◌≢◌, none, ℕ, sym, ◌≡◌, refl, ap, ◌∙◌, ◌==◌, inl, inr, some, arith, Bool-cases, ==→eq,
}
use ascertainty_contracts.Base.Store.{lookup, insert, lookup-insert_self, lookup-insert_ne}
use ascertainty_contracts.Accounts.{
  Pubkey, Pool, InvestorPosition, Account, Accounts, position_account, default_key,
}
use ascertainty_contracts.Accounts.Evolve.{PositionEvolves, PoolEvolves, Evolves}
use ascertainty_contracts.Runtime.{NewOrOld}
use ascertainty_contracts.Shares.Move.{bought, one_more}
use ascertainty_contracts.Constants.{max_pool_projects_v1}

-- A kind of account, with the relation that its rewrites keep.
pub record Kind : Type 1 where
  pub Carrier : Type 0
  pub made : Carrier → Account
  pub Follows : Carrier → Carrier → Type 0
  pub follows_refl : (x : Carrier) → Follows x x
  pub follows_trans : (x y z : Carrier) → Follows x y → Follows y z → Follows x z
  pub follows_of :
      (x : Carrier) (v : Account) → Evolves (made x) v → (y : Carrier) × (v ≡ made y) × Follows x y

module _ (kind : Kind) where
  open kind use {Carrier, made, Follows, follows_refl, follows_trans, follows_of}

  abbrev pub Kept : Accounts → Accounts → Type 0
  Kept d e =
      (k : Pubkey) (x : Carrier)
      → lookup k d ≡ some (made x)
      → (y : Carrier) × (lookup k e ≡ some (made y)) × Follows x y

  pub Kept-refl : (d : Accounts) → Kept d d
  Kept-refl d k x there = (x, there, follows_refl x)

  pub Kept-trans : (d e e' : Accounts) → Kept d e → Kept e e' → Kept d e'
  Kept-trans d e e' a b k x there =
      let (y, at_y, xy) = a k x there in
      let (z, at_z, yz) = b k y at_y in (z, at_z, follows_trans x y z xy yz)

  -- A write that follows what stands at its key.
  pub Kept-insert :
      (j : Pubkey) (v : Account) (d : Accounts)
      → ((a : Account) → lookup j d ≡ some a → Evolves a v)
      → Kept d (insert j v d)
  Kept-insert j v d ev k x there = elim (Bool-cases (k == j)) [
    | inl e ↦ here (==→eq k j e)
    | inr e ↦ (x, lookup-insert_ne k j v d (ground arith) ∙ there, follows_refl x)
  ]
    where
      here : k ≡ j → (y : Carrier) × (lookup k (insert j v d) ≡ some (made y)) × Follows x y
      here kj =
          let (y, vy, xy) = follows_of x v (ev (made x) (ap (λ t. lookup t d) (sym kj) ∙ there)) in
          (y, ap (λ t. lookup t (insert j v d)) kj ∙ (lookup-insert_self j v d ∙ ap some vy), xy)

-- A position that is bought again, claimed from or withdrawn from.
pub bought-Evolves :
    (q : InvestorPosition) (investor k : Pubkey) (c b n : ℕ)
    → PositionEvolves q (bought q investor k c b n)
bought-Evolves q investor k c b n = elim (Bool-cases (q.owner == default_key)) [
  | inl e ↦ rw e (
      let blank : q.owner ≡ default_key = ==→eq _ _ e in
      record {
        owned = λ h. absurd (h blank);
        owner = λ h. absurd (h blank);
        target = λ h. absurd (h blank);
        total_claimed = λ h. absurd (h blank);
        last_claimed_per_token = λ h. absurd (h blank);
      })
  | inr e ↦ rw e (record {
    owned = λ h. h;
    owner = λ h. refl;
    target = λ h. refl;
    total_claimed = λ h. omega arith;
    last_claimed_per_token = λ h. omega arith;
  })
]

-- What is written over a new or old position follows it.
pub position_follows :
    (d : Accounts) (at : Pubkey) (q q' : InvestorPosition)
    → NewOrOld at q d
    → PositionEvolves q q'
    → (a : Account) → lookup at d ≡ some a
    → Evolves a (position_account q')
position_follows d at q q' (inl (free, _)) ev a e = cc (free, e)
position_follows d at q q' (inr there) ev a e =
    let same : a ≡ position_account q = cc (there, e) in rw same ev

pub fund_follows :
    (d : Accounts) (k : Pubkey) (a v : Account)
    → lookup k d ≡ some a
    → Evolves a v
    → (b : Account) → lookup k d ≡ some b
    → Evolves b v
fund_follows d k a v ka ev b e = let same : b ≡ a = cc (ka, e) in rw same ev

-- Two keys of which one is free and one is taken.
pub apart :
    {a : Account} (d : Accounts) (j k : Pubkey) → lookup j d ≡ none → lookup k d ≡ some a → j ≢ k
apart d j k free there e = cc (ap (λ t. lookup t d) e, free, there)

-- A free key stays free when a taken one is written.
pub still_free :
    {a : Account} (d : Accounts) (j k : Pubkey) (v : Account)
    → lookup j d ≡ none
    → lookup k d ≡ some a
    → lookup j (insert k v d) ≡ none
still_free d j k v free there = lookup-insert_ne j k v d (apart d j k free there) ∙ free

-- A pool that counts one project more.
pub linked-PoolEvolves :
    (p : Pool) → p.underlying_project_count < max_pool_projects_v1 → PoolEvolves p (one_more p)
linked-PoolEvolves p few = record {
  pool_id = refl;
  pool_token_mint = refl;
  usdc_vault = refl;
  target_amount = refl;
  status = refl;
  created_at = refl;
  bump = refl;
  tokens_sold = omega arith;
  total_distributed = omega arith;
  cumulative_usdc_per_token = omega arith;
  underlying_project_count = omega arith;
  few = λ h. omega arith;
}
