-- ===== src/Shares/Rules.antt =====
-- The rules of the books, and the moves: fees, the admission of projects and pools, and the size of
-- totals.
use ascertainty_contracts.Base.{
  ℕ, ◌≢◌, ◌∙◌, ◌+◌, ◌<◌, ◌≡◌, refl, [], u64_positive, inl, inr, some, arith, u64_size,
}
use ascertainty_contracts.Base.Store.{lookup, insert, lookup-insert_cases}
use ascertainty_contracts.Accounts.{
  ProjectStatus, Pubkey, InvestorPosition, Account, Accounts, platform_account, project_account,
  pool_account, position_account, link_account,
}
use ascertainty_contracts.Accounts.Evolve.{
  Evolves, StatusPath, stays, goes, activates, repays, closes,
}
use ascertainty_contracts.Runtime.{Runtime}
use ascertainty_contracts.Shares.Fund.{pool_fund, Fund, fund_of}
use ascertainty_contracts.Shares.Move.{
  IsAdmitted, IsSound, Move, put, create, govern, distribute, buy, claim, withdraw, link, one_more,
  Moves, done, then_move,
}
use ascertainty_contracts.Shares.Kept.{Kept}
use ascertainty_contracts.Shares.Kinds.{mrv_kind}
use ascertainty_contracts.Shares.Persist.{Move-Kept}
use ascertainty_contracts.Shares.Origin.{Move-Origin}

pub record Rules (d : Accounts) : Type 0 where
  pub sound : (k : Pubkey) (v : Account) → lookup k d ≡ some v → IsSound v
  pub gated : (k : Pubkey) (v : Account) → lookup k d ≡ some v → IsAdmitted d v
  pub fits :
      (k : Pubkey) (v : Account) (f : Fund)
      → lookup k d ≡ some v
      → fund_of v ≡ some f
      → f.distributed < u64_size

IsSound-Evolves : (a v : Account) → Evolves a v → IsSound a → IsSound v
IsSound-Evolves (platform_account t) (platform_account t') ev s = ground arith
IsSound-Evolves (platform_account t) _ ev s = cc
IsSound-Evolves a (platform_account t') ev s = cc
IsSound-Evolves a v ev s = tt

still_live :
    (a b : ProjectStatus)
    → a ≢ ProjectStatus.cancelled
    → StatusPath a b
    → b ≢ ProjectStatus.cancelled
still_live a b live stays x = live x
still_live a b live (goes path (activates before after)) x = cc (after, x)
still_live a b live (goes path (repays before after)) x = cc (after, x)
still_live a b live (goes path (closes before after)) x = cc (after, x)

IsAdmitted-Evolves : (d : Accounts) (a v : Account) → Evolves a v → IsAdmitted d a → IsAdmitted d v
IsAdmitted-Evolves d (project_account p) (project_account p') ev (m, target, least, most, live) =
    rw (ev.mrv_project, ev.target_amount, ev.term_months)
      (m, target, least, most, still_live p.status p'.status live ev.status)
IsAdmitted-Evolves d (pool_account p) (pool_account p') ev (target, raising, few) =
    rw ev.target_amount (target, ev.status ∙ raising, ev.few few)
IsAdmitted-Evolves d _ (pool_account p') ev g = cc
IsAdmitted-Evolves d _ (project_account p') ev g = cc
IsAdmitted-Evolves d a v ev g = tt

IsAdmitted-Kept :
    (d e : Accounts) (v : Account) → Kept mrv_kind d e → IsAdmitted d v → IsAdmitted e v
IsAdmitted-Kept d e (project_account p) kept ((m, there, b), target, least, most, live) =
    let (m', there', ev) = kept p.mrv_project m there in
    ((m', there', ev.baseline_submitted b), target, least, most, live)
IsAdmitted-Kept d e (pool_account p) kept g = g
IsAdmitted-Kept d e _ kept g = tt

-- A write where the fund, if there is one, fits.
fits-insert :
    (d : Accounts) (k : Pubkey) (v : Account)
    → ((g : Fund) → fund_of v ≡ some g → g.distributed < u64_size)
    → Rules d
    → (j : Pubkey) (b : Account) (f : Fund) → lookup j (insert k v d) ≡ some b
    → fund_of b ≡ some f
    → f.distributed < u64_size
fits-insert d k v h r j b f e fb = elim (lookup-insert_cases j k v b d e) [
  | inl (jk, bv) ↦ h f (cc (bv, fb))
  | inr (ne, there) ↦ r.fits j b f there fb
]

-- The fund `f` that was at `k`, with other shares or another price, and a position.
fits-trade :
    (d : Accounts) (k at : Pubkey) (a v : Account) (q : InvestorPosition) (f g : Fund)
    → lookup k d ≡ some a
    → fund_of a ≡ some f
    → fund_of v ≡ some g
    → g.distributed ≡ f.distributed
    → Rules d
    → (j : Pubkey) (b : Account) (h : Fund)
    → lookup j (insert at (position_account q) (insert k v d)) ≡ some b
    → fund_of b ≡ some h
    → h.distributed < u64_size
fits-trade d k at a v q f g ka fa gv same r j b h e hb =
    elim (lookup-insert_cases j at (position_account q) b (insert k v d) e) [
      | inl (jk, bv) ↦ cc (bv, hb)
      | inr (ne, there) ↦
          fits-insert d k v
            (λ g' e'. let is_g : g' ≡ g = cc (e', gv) in rw (is_g, same) (r.fits k a f ka fa)) r j b
            h there hb
    ]

module _ {L : Type 0} (rt : Runtime L) where
  Move-fits :
      {x : Pubkey → ℕ} (d e : Accounts)
      → Move rt x d e
      → Rules d
      → (j : Pubkey) (b : Account) (f : Fund) → lookup j e ≡ some b
      → fund_of b ≡ some f
      → f.distributed < u64_size
  Move-fits d e (put k v vf vp plain sound to) r j b g x fb =
      fits-insert d k v (λ g' e'. cc (e', vf)) r j b g (rw to at x) fb
  Move-fits d e (create k v target free vf gated to) r j b g x fb =
      fits-insert d k v
        (λ g' e'. let none_yet : g'.distributed ≡ 0 = cc (e', vf) in rw none_yet u64_positive) r j b
        g (rw to at x) fb
  Move-fits d e (govern k a v f ka fa fv pools ev raising to) r j b g x fb =
      fits-insert d k v (λ g' e'. let same : g' ≡ f = cc (e', fv) in rw same (r.fits k a f ka fa)) r
        j b g (rw to at x) fb
  Move-fits d e (distribute k a v f n ka fa gv pools ev still sold fits to) r j b g x fb =
      fits-insert d k v
        (λ g' e'. let same : g'.distributed ≡ f.distributed + n = cc (e', gv) in rw same fits) r j b
        g (rw to at x) fb
  Move-fits d e (buy k a v f at q investor n ka fa gv pools ev raising open_to room spot old to) r j
        b g x fb =
      fits-trade d k at a v _ f _ ka fa gv refl r j b g (rw to at x) fb
  Move-fits d e (claim k a f at q owed ka fa there mine settled owes due to) r j b g x fb =
      fits-insert d at (position_account _) (λ g' e'. cc e') r j b g (rw to at x) fb
  Move-fits d e (withdraw k a v f at q ka fa gv pools ev raising there spot enough some_held to) r j
        b g x fb =
      fits-trade d k at a v _ f _ ka fa gv refl r j b g (rw to at x) fb
  Move-fits d e (link k p at l ka free mine few home to) r j b g x fb =
      elim (lookup-insert_cases j at (link_account l) b (insert k (pool_account (one_more p)) d)
        (rw to at x)) [
          | inl (jk, bv) ↦ cc (bv, fb)
          | inr (ne, there) ↦
              fits-insert d k (pool_account (one_more p))
                (λ g' e'.
                  let same : g' ≡ pool_fund p = cc e' in
                  rw same (r.fits k (pool_account p) (pool_fund p) ka refl))
                r j b g there fb
        ]

  Move-Rules : {x : Pubkey → ℕ} (d e : Accounts) → Move rt x d e → Rules d → Rules e
  Move-Rules d e m r = record {
    sound = λ k v x. elim (Move-Origin rt d e m k v x) [
      | inl (s, g, h) ↦ s
      | inr (a, there, ev) ↦ IsSound-Evolves a v ev (r.sound k a there)
    ];
    gated = λ k v x.
        IsAdmitted-Kept d e v (Move-Kept rt mrv_kind d e m) (elim (Move-Origin rt d e m k v x) [
          | inl (s, g, h) ↦ g
          | inr (a, there, ev) ↦ IsAdmitted-Evolves d a v ev (r.gated k a there)
        ]);
    fits = Move-fits d e m r;
  }

  pub Moves-Rules :
      (d : Accounts) {x : Pubkey → ℕ} (e : Accounts) → Moves rt d x e → Rules d → Rules e
  Moves-Rules d e done r = r
  Moves-Rules d e' (then_move {e = e} ms m) r = Move-Rules e e' m (Moves-Rules d e ms r)

-- The books are empty at first.
pub Rules-fresh : Rules []
unfolding lookup
Rules-fresh = record { sound = λ k v e. cc e; gated = λ k v e. cc e; fits = λ k v f e fv. cc e }
