-- ===== src/Shares/Preserve/Positions.antt =====
-- What a write of a position does to the sums, and the move of a claim.
use ascertainty_contracts.Base.{
  ℕ, ◌+◌, ◌-◌, ◌*◌, ◌/◌, ◌≤◌, ◌≡◌, ◌≢◌, ap, ◌∙◌, inl, inr, some, arith, ◌==◌, Bool-cases, ==→eq,
}
use ascertainty_contracts.Base.Store.{
  lookup, insert, All, All-lookup, lookup-insert_cases, sum_by-insert_old, sum_by-insert_new,
}
use ascertainty_contracts.Constants.{precision}
use ascertainty_contracts.Accounts.{Pubkey, InvestorPosition, Account, Accounts, position_account}
use ascertainty_contracts.Runtime.{Runtime, NewOrOld, blank_position}
use ascertainty_contracts.Shares.Fund.{Fund, fund_of, held, entitled, shares, entitlements}
use ascertainty_contracts.Shares.Invariant.{Inv, IsPlaced, HasFund}
use ascertainty_contracts.Shares.Rewrite.{IsNoFundAt, HasFund-insert_off, IsPlaced-insert}

-- The weight of a blank position is zero.
held-blank : (j : Pubkey) → held j (position_account blank_position) ≡ 0
held-blank j = ground arith

entitled-blank : (j : Pubkey) (c : ℕ) → entitled j c (position_account blank_position) ≡ 0
entitled-blank j c = ground arith

module _ (d : Accounts) (at : Pubkey) (q q' : InvestorPosition) where
  pub shares-insert_position :
      (j : Pubkey)
      → NewOrOld at q d
      → shares j (insert at (position_account q') d) + held j (position_account q)
        ≡ shares j d + held j (position_account q')
  shares-insert_position j (inl (free, e)) =
      rw e (omega (arith, held-blank j, sum_by-insert_new (held j) at (position_account q') d free))
  shares-insert_position j (inr there) =
      sum_by-insert_old (held j) at (position_account q') (position_account q) d there

  pub entitlements-insert_position :
      (j : Pubkey) (c : ℕ)
      → NewOrOld at q d
      → entitlements j c (insert at (position_account q') d) + entitled j c (position_account q)
        ≡ entitlements j c d + entitled j c (position_account q')
  entitlements-insert_position j c (inl (free, e)) = rw e (
      omega (
        arith,
        entitled-blank j c,
        sum_by-insert_new (entitled j c) at (position_account q') d free,
      ))
  entitlements-insert_position j c (inr there) =
      sum_by-insert_old (entitled j c) at (position_account q') (position_account q) d there

  -- No fund stands where a position is or may be made.
  pub no_fund_at : NewOrOld at q d → IsNoFundAt at d
  no_fund_at (inl (free, _)) a e = cc (free, e)
  no_fund_at (inr there) a e = cc (there, e)

  -- A fund that is found after the write was there before.
  pub fund_before :
      (j : Pubkey) (a : Account) (f : Fund)
      → lookup j (insert at (position_account q') d) ≡ some a
      → fund_of a ≡ some f
      → lookup j d ≡ some a
  fund_before j a f e fa = elim (lookup-insert_cases j at (position_account q') a d e) [
    | inl (_, av) ↦ cc (av, fa)
    | inr (_, old) ↦ old
  ]

pub held_elsewhere :
    (j k : Pubkey) (q : InvestorPosition) → j ≢ k → q.target ≡ k → held j (position_account q) ≡ 0
held_elsewhere j k q ne e = ground arith

pub held_here :
    (k : Pubkey) (q : InvestorPosition) → q.target ≡ k → held k (position_account q) ≡ q.tokens_held
held_here k q e = ground arith

pub entitled_elsewhere :
    (j k : Pubkey) (c : ℕ) (q : InvestorPosition)
    → j ≢ k
    → q.target ≡ k
    → entitled j c (position_account q) ≡ 0
entitled_elsewhere j k c q ne e = ground arith

pub entitled_here :
    (k : Pubkey) (c : ℕ) (q : InvestorPosition)
    → q.target ≡ k
    → entitled k c (position_account q)
      ≡ q.total_claimed * precision + q.tokens_held * (c - q.last_claimed_per_token)
entitled_here k c q e = ground arith

pub mul-sub_self : (t c : ℕ) → t * (c - c) ≡ 0
mul-sub_self t c = let z : c - c ≡ 0 = omega arith in rw z (omega arith)

-- A position that is found names its fund and stands at its address.
pub position-IsPlaced :
    {L : Type 0} (rt : Runtime L) (d : Accounts) (at : Pubkey) (q : InvestorPosition)
    → All (IsPlaced rt d) d
    → lookup at d ≡ some (position_account q)
    → IsPlaced rt d at (position_account q)
position-IsPlaced rt d at q all e = All-lookup (IsPlaced rt d) at (position_account q) d all e

-- The position after a claim of `owed`.
abbrev pub settled_position : InvestorPosition → Fund → ℕ → InvestorPosition
settled_position q f owed = record q {
  last_claimed_per_token = f.per_token;
  total_claimed = q.total_claimed + owed;
}

-- A claim adds no more to what is claimed than it takes off what can be claimed.
pub claim_less :
    (d : Accounts) (k : Pubkey) (a : Account) (f : Fund) (at : Pubkey) (q : InvestorPosition)
    → (owed : ℕ) → lookup k d ≡ some a
    → fund_of a ≡ some f
    → q.target ≡ k
    → owed ≡ q.tokens_held * (f.per_token - q.last_claimed_per_token) / precision
    → (j : Pubkey) (b : Account) (g : Fund) → lookup j d ≡ some b
    → fund_of b ≡ some g
    → entitled j g.per_token (position_account (settled_position q f owed))
      ≤ entitled j g.per_token (position_account q)
claim_less d k a f at q owed ka fa mine owes j b g e fb =
    let q' = settled_position q f owed in
    elim (Bool-cases (j == k)) [
      | inl jk ↦
          let same : j ≡ k = ==→eq j k jk in
          let gf : g ≡ f = cc (ap (λ t. lookup t d) same, e, ka, fb, fa) in
          rw (same, gf)
            (omega (
              arith,
              entitled_here k f.per_token q mine,
              entitled_here k f.per_token q' mine,
              owes,
              mul-sub_self q.tokens_held f.per_token,
            ))
      | inr jk ↦
          let ne : j ≢ k = ground arith in
          omega (
            arith,
            entitled_elsewhere j k g.per_token q ne mine,
            entitled_elsewhere j k g.per_token q' ne mine,
          )
    ]

module _ {L : Type 0} (rt : Runtime L) where
  pub claim-Inv :
      (d : Accounts) (k : Pubkey) (a : Account) (f : Fund) (at : Pubkey) (q : InvestorPosition)
      → (owed : ℕ) → lookup k d ≡ some a
      → fund_of a ≡ some f
      → lookup at d ≡ some (position_account q)
      → q.target ≡ k
      → owed ≡ q.tokens_held * (f.per_token - q.last_claimed_per_token) / precision
      → Inv rt d
      → Inv rt (
          insert at
            (position_account (record q {
              last_claimed_per_token = f.per_token;
              total_claimed = q.total_claimed + owed;
            }))
            d)
  claim-Inv d k a f at q owed ka fa there mine owes i = record {
    placed =
        IsPlaced-insert rt at (position_account q') d
          (λ r h. HasFund-insert_off at (position_account q') d r off h)
          (spot.0, HasFund-insert_off at (position_account q') d q' off fund') i.placed;
    supply = λ j b g e fb.
        let old = i.supply j b g (fund_before d at q q' j b g e fb) fb in
        (omega (arith, shares-insert_position d at q q' j (inr there), old.0), old.1);
    quiet = λ j b g e fb. i.quiet j b g (fund_before d at q q' j b g e fb) fb;
    solvent = λ j b g e fb p.
        let before = fund_before d at q q' j b g e fb in
        omega (
          arith,
          entitlements-insert_position d at q q' j g.per_token (inr there),
          i.solvent j b g before fb p,
          claim_less d k a f at q owed ka fa mine owes j b g before fb,
        );
  }
    where
      q' : InvestorPosition
      q' = record q { last_claimed_per_token = f.per_token; total_claimed = q.total_claimed + owed }

      off : IsNoFundAt at d
      off = no_fund_at d at q q' (inr there)

      spot : IsPlaced rt d at (position_account q)
      spot = position-IsPlaced rt d at q i.placed there

      fund' : HasFund d q'
      fund' = record {
        account = a;
        fund = f;
        found = ap (λ t. lookup t d) mine ∙ ka;
        is_fund = fa;
        settled = omega arith;
      }
