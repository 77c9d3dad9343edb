-- ===== src/Shares/Rewrite.antt =====
-- What a write of one account leaves of the invariant's parts.
use ascertainty_contracts.Base.{
  ℕ, ◌≤◌, ◌≡◌, ◌≢◌, refl, ap, sym, ◌∙◌, inl, inr, false, none, some, arith, ◌==◌, Bool-cases, ==→eq,
}
use ascertainty_contracts.Base.Store.{
  lookup, insert, All, All-insert, All-mono, lookup-insert_self, lookup-insert_ne, sum_by_zero,
  sum_by-insert_zero,
}
use ascertainty_contracts.Accounts.{Pubkey, InvestorPosition, Account, Accounts, position_account}
use ascertainty_contracts.Runtime.{Runtime}
use ascertainty_contracts.Shares.Fund.{
  Fund, fund_of, is_position, held, shares, entitlements, entitled, held_of_fund, entitled_of_fund,
}
use ascertainty_contracts.Shares.Invariant.{HasFund, IsPlaced}

-- Nothing at `k` that is a fund.
abbrev pub IsNoFundAt : Pubkey → Accounts → Type 0
IsNoFundAt k d = (a : Account) → lookup k d ≡ some a → fund_of a ≡ none

pub HasFund-insert_off :
    (k : Pubkey) (v : Account) (d : Accounts) (q : InvestorPosition)
    → IsNoFundAt k d
    → HasFund d q
    → HasFund (insert k v d) q
HasFund-insert_off k v d q off h = record {
  account = h.account;
  fund = h.fund;
  found = lookup-insert_ne q.target k v d elsewhere ∙ h.found;
  is_fund = h.is_fund;
  settled = h.settled;
}
  where
    elsewhere : q.target ≢ k
    elsewhere e = cc (off h.account (rw e at h.found), h.is_fund)

pub HasFund-insert_fund :
    (k : Pubkey) (a v : Account) (f g : Fund) (d : Accounts) (q : InvestorPosition)
    → lookup k d ≡ some a
    → fund_of a ≡ some f
    → fund_of v ≡ some g
    → f.per_token ≤ g.per_token
    → HasFund d q
    → HasFund (insert k v d) q
HasFund-insert_fund k a v f g d q ka fa gv grows h = elim (Bool-cases (q.target == k)) [
  | inl e ↦ here (==→eq _ _ e)
  | inr e ↦ there (ground arith)
]
  where
    here : q.target ≡ k → HasFund (insert k v d) q
    here e =
        let same : some h.account ≡ some a = sym h.found ∙ (ap (λ j. lookup j d) e ∙ ka) in
        let same_fund : some h.fund ≡ some f = cc in
        record {
          account = v;
          fund = g;
          found = ap (λ j. lookup j (insert k v d)) e ∙ lookup-insert_self k v d;
          is_fund = gv;
          settled = grind (arith, h.settled, same_fund);
        }

    there : q.target ≢ k → HasFund (insert k v d) q
    there e = record {
      account = h.account;
      fund = h.fund;
      found = lookup-insert_ne q.target k v d e ∙ h.found;
      is_fund = h.is_fund;
      settled = h.settled;
    }

module _ {L : Type 0} (rt : Runtime L) where
  IsPlaced-mono :
      (d e : Accounts)
      → ((q : InvestorPosition) → HasFund d q → HasFund e q)
      → (j : Pubkey) (v : Account) → IsPlaced rt d j v
      → IsPlaced rt e j v
  IsPlaced-mono d e f j (position_account q) p = (p.0, f q p.1)
  IsPlaced-mono d e f j _ p = tt

  pub IsPlaced-other :
      (d : Accounts) (j : Pubkey) (v : Account) → is_position v ≡ false → IsPlaced rt d j v
  IsPlaced-other d j (position_account q) e = cc
  IsPlaced-other d j _ e = tt

  -- A write that keeps every position's fund, and puts a well placed account.
  pub IsPlaced-insert :
      (k : Pubkey) (v : Account) (d : Accounts)
      → ((q : InvestorPosition) → HasFund d q → HasFund (insert k v d) q)
      → IsPlaced rt (insert k v d) k v
      → All (IsPlaced rt d) d
      → All (IsPlaced rt (insert k v d)) (insert k v d)
  IsPlaced-insert k v d f p all =
      All-insert (IsPlaced rt (insert k v d)) k v d
        (All-mono (IsPlaced rt d) (IsPlaced rt (insert k v d)) d (IsPlaced-mono d (insert k v d) f)
          all)
        p

  unheld :
      (k : Pubkey) (d : Accounts)
      → lookup k d ≡ none
      → (j : Pubkey) (v : Account) → IsPlaced rt d j v
      → held k v ≡ 0
  unheld k d free j (position_account q) p = elim (Bool-cases (q.target == k)) [
    | inl e ↦ cc (p.1.found, ap (λ t. lookup t d) (==→eq _ _ e), free)
    | inr e ↦ rw e
  ]
  unheld k d free j _ p = refl

  unentitled :
      (k : Pubkey) (c : ℕ) (d : Accounts)
      → lookup k d ≡ none
      → (j : Pubkey) (v : Account) → IsPlaced rt d j v
      → entitled k c v ≡ 0
  unentitled k c d free j (position_account q) p = elim (Bool-cases (q.target == k)) [
    | inl e ↦ cc (p.1.found, ap (λ t. lookup t d) (==→eq _ _ e), free)
    | inr e ↦ rw e
  ]
  unentitled k c d free j _ p = refl

  -- Nobody holds shares of a fund that is not there.
  pub shares_of_none :
      (k : Pubkey) (d : Accounts) → lookup k d ≡ none → All (IsPlaced rt d) d → shares k d ≡ 0
  shares_of_none k d free all =
      sum_by_zero (held k) d
        (All-mono (IsPlaced rt d) (λ j v. held k v ≡ 0) d (unheld k d free) all)

  pub entitlements_of_none :
      (k : Pubkey) (c : ℕ) (d : Accounts)
      → lookup k d ≡ none
      → All (IsPlaced rt d) d
      → entitlements k c d ≡ 0
  entitlements_of_none k c d free all =
      sum_by_zero (entitled k c) d
        (All-mono (IsPlaced rt d) (λ j v. entitled k c v ≡ 0) d (unentitled k c d free) all)

-- A fund that is written over a fund moves no shares.
module _ (k : Pubkey) (a v : Account) {f g : Fund} (d : Accounts) (j : Pubkey) where
  pub shares-insert_fund :
      lookup k d ≡ some a
      → fund_of a ≡ some f
      → fund_of v ≡ some g
      → shares j (insert k v d) ≡ shares j d
  shares-insert_fund ka fa gv =
      sum_by-insert_zero (held j) k v d (λ w e. held_of_fund j w {f = f} (cc (ka, e, fa)))
        (held_of_fund j v gv)

  pub entitlements-insert_fund :
      (c : ℕ)
      → lookup k d ≡ some a
      → fund_of a ≡ some f
      → fund_of v ≡ some g
      → entitlements j c (insert k v d) ≡ entitlements j c d
  entitlements-insert_fund c ka fa gv =
      sum_by-insert_zero (entitled j c) k v d
        (λ w e. entitled_of_fund j c w {f = f} (cc (ka, e, fa))) (entitled_of_fund j c v gv)
