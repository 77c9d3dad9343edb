-- ===== src/Shares/Preserve/Trades.antt =====
-- The moves that write a position and its fund: a purchase and a withdrawal.
use ascertainty_contracts.Base.{
  ℕ, ◌+◌, ◌≤◌, ◌≡◌, ◌≢◌, ap, ◌∙◌, ◌⊎◌, inl, inr, false, none, some, arith,
}
use ascertainty_contracts.Base.Store.{
  lookup, insert, All, lookup-insert_cases, lookup-insert_ne, lookup-insert_self,
}
use ascertainty_contracts.Accounts.{Pubkey, InvestorPosition, Account, Accounts, position_account}
use ascertainty_contracts.Runtime.{Runtime, NewOrOld, blank_position, position_seeds}
use ascertainty_contracts.Shares.Fund.{
  Fund, fund_of, is_pool, is_raising, held, entitled, shares, entitlements, is_position_of_fund,
}
use ascertainty_contracts.Shares.Invariant.{Inv, IsPlaced, HasFund}
use ascertainty_contracts.Shares.Rewrite.{
  HasFund-insert_off, HasFund-insert_fund, IsPlaced-other, IsPlaced-insert, shares-insert_fund,
  entitlements-insert_fund,
}
use ascertainty_contracts.Shares.Preserve.Positions.{
  shares-insert_position, entitlements-insert_position, no_fund_at, fund_before, held_elsewhere,
  held_here, entitled_elsewhere,
}

-- A position is not where a fund is.
pub at-ne-fund :
    (d : Accounts) (k at : Pubkey) (a : Account) (f : Fund) (q : InvestorPosition)
    → lookup k d ≡ some a
    → fund_of a ≡ some f
    → NewOrOld at q d
    → at ≢ k
at-ne-fund d k at a f q ka fa (inl (free, _)) e = cc (ap (λ t. lookup t d) e, free, ka)
at-ne-fund d k at a f q ka fa (inr there) e = cc (ap (λ t. lookup t d) e, there, ka, fa)

pub NewOrOld-insert :
    (d : Accounts) (k at : Pubkey) (v : Account) (q : InvestorPosition)
    → at ≢ k
    → NewOrOld at q d
    → NewOrOld at q (insert k v d)
NewOrOld-insert d k at v q ne (inl (free, e)) = inl (lookup-insert_ne at k v d ne ∙ free, e)
NewOrOld-insert d k at v q ne (inr there) = inr (lookup-insert_ne at k v d ne ∙ there)

-- The sums lose nothing else when a fund and one of its positions are written together: `q` and
-- `q'` weigh the same in every other fund, and `q'` claims no more of this one.
module _ {L : Type 0} (rt : Runtime L) (d : Accounts) (k : Pubkey) (a v : Account) (f g : Fund)
    (at : Pubkey) (q q' : InvestorPosition) (ka : lookup k d ≡ some a) (fa : fund_of a ≡ some f)
    (gv : fund_of v ≡ some g) (pools : is_pool v ≡ is_pool a)
    (raising : is_raising v ≡ is_raising a) (per_token : g.per_token ≡ f.per_token)
    (distributed : g.distributed ≡ f.distributed) (room : g.sold ≤ g.target) (old : NewOrOld at q d)
    (mine : q'.target ≡ k) (was : (q ≡ blank_position) ⊎ (q.target ≡ k)) where
  abbrev pub d' : Accounts
  d' = insert k v d

  abbrev pub d'' : Accounts
  d'' = insert at (position_account q') d'

  apart : at ≢ k
  apart = at-ne-fund d k at a f q ka fa old

  pub old' : NewOrOld at q d'
  old' = NewOrOld-insert d k at v q apart old

  held_before : (j : Pubkey) → j ≢ k → held j (position_account q) ≡ 0
  held_before j ne = elim was [ inl e ↦ rw e (ground arith) | inr e ↦ held_elsewhere j k q ne e ]

  entitled_before : (j : Pubkey) (c : ℕ) → j ≢ k → entitled j c (position_account q) ≡ 0
  entitled_before j c ne = elim was [
    | inl e ↦ rw e (ground arith)
    | inr e ↦ entitled_elsewhere j k c q ne e
  ]

  shares_others : (j : Pubkey) → j ≢ k → shares j d'' ≡ shares j d
  shares_others j ne = omega (
    arith,
    shares-insert_position d' at q q' j old',
    held_before j ne,
    held_elsewhere j k q' ne mine,
    shares-insert_fund k a v d j ka fa gv,
  )

  shares_mine : shares k d'' + held k (position_account q) ≡ shares k d + q'.tokens_held
  shares_mine = omega (
    arith,
    shares-insert_position d' at q q' k old',
    held_here k q' mine,
    shares-insert_fund k a v d k ka fa gv,
  )

  pub entitlements_others : (j : Pubkey) (c : ℕ) → j ≢ k → entitlements j c d'' ≡ entitlements j c d
  entitlements_others j c ne = omega (
    arith,
    entitlements-insert_position d' at q q' j c old',
    entitled_before j c ne,
    entitled_elsewhere j k c q' ne mine,
    entitlements-insert_fund k a v d j c ka fa gv,
  )

  pub trade-Inv :
      Inv rt d
      → at ≡ rt.create_program_address (position_seeds k q'.owner) q'.bump
      → q'.last_claimed_per_token ≤ f.per_token
      → g.sold + held k (position_account q) ≡ f.sold + q'.tokens_held
      → (is_pool a ≡ false
          → entitled k f.per_token (position_account q')
            ≤ entitled k f.per_token (position_account q))
      → Inv rt d''
  trade-Inv i spot settled sells less = record {
    placed =
        IsPlaced-insert rt at (position_account q') d'
          (λ r h. HasFund-insert_off at (position_account q') d' r off h)
          (rw mine spot, HasFund-insert_off at (position_account q') d' q' off fund') placed';
    supply = λ j b h e fb.
        elim (lookup-insert_cases j k v b d (fund_before d' at q q' j b h e fb)) [
          | inl (jk, bv) ↦
              let hg : h ≡ g = cc (fb, gv, bv) in
              rw (jk, hg) (omega (arith, shares_mine, (i.supply k a f ka fa).0, sells), room)
          | inr (ne, there) ↦ rw (shares_others j ne) (i.supply j b h there fb)
        ];
    quiet = λ j b h e fb r.
        elim (lookup-insert_cases j k v b d (fund_before d' at q q' j b h e fb)) [
          | inl (jk, bv) ↦
              let hg : h ≡ g = cc (fb, gv, bv) in
              rw (hg, per_token) (i.quiet k a f ka fa (cc (raising, bv, r)))
          | inr (ne, there) ↦ i.quiet j b h there fb r
        ];
    solvent = λ j b h e fb p.
        elim (lookup-insert_cases j k v b d (fund_before d' at q q' j b h e fb)) [
          | inl (jk, bv) ↦
              let hg : h ≡ g = cc (fb, gv, bv) in
              let np : is_pool a ≡ false = cc (pools, bv, p) in
              rw (jk, hg, per_token, distributed)
                (omega (
                  arith,
                  i.solvent k a f ka fa np,
                  less np,
                  entitlements-insert_position d' at q q' k f.per_token old',
                  entitlements-insert_fund k a v d k f.per_token ka fa gv,
                ))
          | inr (ne, there) ↦ rw (entitlements_others j h.per_token ne) (i.solvent j b h there fb p)
        ];
  }
    where
      off : (b : Account) → lookup at d' ≡ some b → fund_of b ≡ none
      off = no_fund_at d' at q q' old'

      grows : f.per_token ≤ g.per_token
      grows = omega arith

      placed' : All (IsPlaced rt d') d'
      placed' =
          IsPlaced-insert rt k v d (λ r h. HasFund-insert_fund k a v f g d r ka fa gv grows h)
            (IsPlaced-other rt _ k v (is_position_of_fund v gv)) i.placed

      fund' : HasFund d' q'
      fund' = record {
        account = v;
        fund = g;
        found = ap (λ t. lookup t d') mine ∙ lookup-insert_self k v d;
        is_fund = gv;
        settled = omega arith;
      }
