-- ===== src/Shares/Origin.antt =====
-- Where an account after a move comes from: it follows the one before, or it is new.
use ascertainty_contracts.Base.{ℕ, ◌≡◌, ◌⊎◌, refl, inl, inr, none, some}
use ascertainty_contracts.Base.Store.{lookup, insert, lookup-insert_cases}
use ascertainty_contracts.Accounts.{
  Pubkey, InvestorPosition, Account, Accounts, platform_account, project_account, pool_account,
  link_account, position_account, mrv_account, baseline_account, verification_account,
  auditor_account,
}
use ascertainty_contracts.Accounts.Evolve.{
  ProjectEvolves-refl, PoolEvolves-refl, PlatformEvolves-refl, MrvEvolves-refl,
  VerificationEvolves-refl, PositionEvolves-refl, Evolves,
}
use ascertainty_contracts.Runtime.{Runtime}
use ascertainty_contracts.Shares.Home.{IsHome}
use ascertainty_contracts.Shares.Kept.{linked-PoolEvolves}
use ascertainty_contracts.Shares.Fund.{Fund, fund_of}
use ascertainty_contracts.Shares.Move.{
  IsAdmitted, IsSound, Move, put, create, govern, distribute, buy, claim, withdraw, link, one_more,
}

pub Evolves-refl : (a : Account) → Evolves a a
Evolves-refl (platform_account t) = PlatformEvolves-refl t
Evolves-refl (project_account t) = ProjectEvolves-refl t
Evolves-refl (pool_account t) = PoolEvolves-refl t
Evolves-refl (link_account t) = refl
Evolves-refl (position_account t) = PositionEvolves-refl t
Evolves-refl (mrv_account t) = MrvEvolves-refl t
Evolves-refl (baseline_account t) = refl
Evolves-refl (verification_account t) = VerificationEvolves-refl t
Evolves-refl (auditor_account t) = refl

IsAdmitted-plain : (d : Accounts) (v : Account) → fund_of v ≡ none → IsAdmitted d v
IsAdmitted-plain d (project_account p) e = cc
IsAdmitted-plain d (pool_account p) e = cc
IsAdmitted-plain d _ e = tt

IsSound-fund : (v : Account) {f : Fund} → fund_of v ≡ some f → IsSound v
IsSound-fund (platform_account p) e = cc
IsSound-fund _ e = tt

module _ {L : Type 0} (rt : Runtime L) where
  -- Nothing was at the key, and the new account is sound, admitted and at its address; or it follows
  -- what was there.
  data Origin (d : Accounts) (k : Pubkey) : Account → Type 0 where
    fresh : {v : Account} → IsSound v → IsAdmitted d v → IsHome rt k v → Origin d k v
    follows : {a v : Account} → lookup k d ≡ some a → Evolves a v → Origin d k v

  Origin-insert :
      (d : Accounts) (k j : Pubkey) (v b : Account)
      → Origin d k v
      → lookup j (insert k v d) ≡ some b
      → Origin d j b
  Origin-insert d k j v b o e = elim (lookup-insert_cases j k v b d e) [
    | inl (jk, bv) ↦ rw (jk, bv) o
    | inr (ne, there) ↦ follows there (Evolves-refl b)
  ]

  Origin-trade :
      (d : Accounts) (k at j : Pubkey) (q : InvestorPosition) (v b : Account)
      → Origin d k v
      → lookup j (insert at (position_account q) (insert k v d)) ≡ some b
      → Origin d j b
  Origin-trade d k at j q v b o e =
      elim (lookup-insert_cases j at (position_account q) b (insert k v d) e) [
        | inl (jk, bv) ↦ rw bv (fresh tt tt tt)
        | inr (ne, there) ↦ Origin-insert d k j v b o there
      ]

  -- Two writes, of which the second is of a new account.
  Origin-two :
      (d : Accounts) (k at j : Pubkey) (w v b : Account)
      → Origin d k v
      → Origin d at w
      → lookup j (insert at w (insert k v d)) ≡ some b
      → Origin d j b
  Origin-two d k at j w v b o o' e = elim (lookup-insert_cases j at w b (insert k v d) e) [
    | inl (jk, bw) ↦ rw (jk, bw) o'
    | inr (ne, there) ↦ Origin-insert d k j v b o there
  ]

  Origin-put :
      (d : Accounts) (k : Pubkey) (v : Account)
      → fund_of v ≡ none
      → ((a : Account) → lookup k d ≡ some a → Evolves a v)
      → (IsSound v × IsHome rt k v) ⊎ ((a : Account) × (lookup k d ≡ some a))
      → Origin d k v
  Origin-put d k v vf ev (inl (sound, home)) = fresh sound (IsAdmitted-plain d v vf) home
  Origin-put d k v vf ev (inr (a, there)) = follows there (ev a there)

  -- What stands anywhere after a move is new and obeys the rules, or follows what stood there.
  pub Move-Origin :
      {x : Pubkey → ℕ} (d e : Accounts)
      → Move rt x d e
      → (j : Pubkey) (b : Account) → lookup j e ≡ some b
      → (IsSound b × IsAdmitted d b × IsHome rt j b)
        ⊎ ((a : Account) × (lookup j d ≡ some a) × Evolves a b)
  Move-Origin d e m j b x = read (go m)
    where
      read :
          Origin d j b
          → (IsSound b × IsAdmitted d b × IsHome rt j b)
            ⊎ ((a : Account) × (lookup j d ≡ some a) × Evolves a b)
      read (fresh s g h) = inl (s, g, h)
      read (follows there ev) = inr (_, there, ev)

      go : {y : Pubkey → ℕ} → Move rt y d e → Origin d j b
      go (put k v vf vp plain sound to) =
          Origin-insert d k j v b (Origin-put d k v vf (λ a y. (plain a y).2) sound) (rw to at x)
      go (create k v target free vf (gated, home, _) to) =
          Origin-insert d k j v b (fresh (IsSound-fund v vf) gated home) (rw to at x)
      go (govern k a v f ka fa fv pools ev raising to) =
          Origin-insert d k j v b (follows ka ev) (rw to at x)
      go (distribute k a v f n ka fa gv pools ev still sold fits to) =
          Origin-insert d k j v b (follows ka ev) (rw to at x)
      go (buy k a v f at q investor n ka fa gv pools ev raising open_to room spot old to) =
          Origin-trade d k at j _ v b (follows ka ev) (rw to at x)
      go (claim k a f at q owed ka fa there mine settled owes due to) =
          Origin-insert d at j (position_account _) b (fresh tt tt tt) (rw to at x)
      go (withdraw k a v f at q ka fa gv pools ev raising there spot enough some_held to) =
          Origin-trade d k at j _ v b (follows ka ev) (rw to at x)
      go (link k p at l ka free mine few home to) =
          Origin-two d k at j (link_account l) (pool_account (one_more p)) b
            (follows ka (linked-PoolEvolves p few)) (fresh tt tt home) (rw to at x)
