-- ===== src/Shares/Kinds.antt =====
-- The kinds of account that are rewritten, with how they evolve.
use ascertainty_contracts.Base.{◌≡◌, ◌∙◌, refl}
use ascertainty_contracts.Accounts.{
  Platform, Project, Pool, InvestorPosition, MrvProject, Verification, Account, platform_account,
  project_account, pool_account, position_account, mrv_account, verification_account,
}
use ascertainty_contracts.Accounts.Evolve.{
  ProjectEvolves, ProjectEvolves-refl, ProjectEvolves-trans, PoolEvolves, PoolEvolves-refl,
  PoolEvolves-trans, PlatformEvolves, PlatformEvolves-refl, PlatformEvolves-trans, MrvEvolves,
  MrvEvolves-refl, MrvEvolves-trans, VerificationEvolves, VerificationEvolves-refl,
  VerificationEvolves-trans, PositionEvolves, PositionEvolves-refl, PositionEvolves-trans, Evolves,
}
use ascertainty_contracts.Shares.Kept.{Kind}

pub platform_after :
    (x : Platform) (v : Account)
    → Evolves (platform_account x) v
    → (y : Platform) × (v ≡ platform_account y) × PlatformEvolves x y
platform_after x (platform_account y) ev = (y, refl, ev)
platform_after x _ ev = cc

abbrev pub platform_kind : Kind
platform_kind = record {
  Carrier = Platform;
  made = platform_account;
  Follows = PlatformEvolves;
  follows_refl = PlatformEvolves-refl;
  follows_trans = PlatformEvolves-trans;
  follows_of = platform_after;
}

pub project_after :
    (x : Project) (v : Account)
    → Evolves (project_account x) v
    → (y : Project) × (v ≡ project_account y) × ProjectEvolves x y
project_after x (project_account y) ev = (y, refl, ev)
project_after x _ ev = cc

abbrev pub project_kind : Kind
project_kind = record {
  Carrier = Project;
  made = project_account;
  Follows = ProjectEvolves;
  follows_refl = ProjectEvolves-refl;
  follows_trans = ProjectEvolves-trans;
  follows_of = project_after;
}

pub pool_after :
    (x : Pool) (v : Account)
    → Evolves (pool_account x) v
    → (y : Pool) × (v ≡ pool_account y) × PoolEvolves x y
pool_after x (pool_account y) ev = (y, refl, ev)
pool_after x _ ev = cc

abbrev pub pool_kind : Kind
pool_kind = record {
  Carrier = Pool;
  made = pool_account;
  Follows = PoolEvolves;
  follows_refl = PoolEvolves-refl;
  follows_trans = PoolEvolves-trans;
  follows_of = pool_after;
}

pub position_after :
    (x : InvestorPosition) (v : Account)
    → Evolves (position_account x) v
    → (y : InvestorPosition) × (v ≡ position_account y) × PositionEvolves x y
position_after x (position_account y) ev = (y, refl, ev)
position_after x _ ev = cc

abbrev pub position_kind : Kind
position_kind = record {
  Carrier = InvestorPosition;
  made = position_account;
  Follows = PositionEvolves;
  follows_refl = PositionEvolves-refl;
  follows_trans = PositionEvolves-trans;
  follows_of = position_after;
}

pub mrv_after :
    (x : MrvProject) (v : Account)
    → Evolves (mrv_account x) v
    → (y : MrvProject) × (v ≡ mrv_account y) × MrvEvolves x y
mrv_after x (mrv_account y) ev = (y, refl, ev)
mrv_after x _ ev = cc

abbrev pub mrv_kind : Kind
mrv_kind = record {
  Carrier = MrvProject;
  made = mrv_account;
  Follows = MrvEvolves;
  follows_refl = MrvEvolves-refl;
  follows_trans = MrvEvolves-trans;
  follows_of = mrv_after;
}

pub verification_after :
    (x : Verification) (v : Account)
    → Evolves (verification_account x) v
    → (y : Verification) × (v ≡ verification_account y) × VerificationEvolves x y
verification_after x (verification_account y) ev = (y, refl, ev)
verification_after x _ ev = cc

abbrev pub verification_kind : Kind
verification_kind = record {
  Carrier = Verification;
  made = verification_account;
  Follows = VerificationEvolves;
  follows_refl = VerificationEvolves-refl;
  follows_trans = VerificationEvolves-trans;
  follows_of = verification_after;
}

-- A kind of account that is never rewritten.
abbrev pub written_once :
    (A : Type 0) (made : A → Account)
    → ((x : A) (v : Account) → Evolves (made x) v → v ≡ made x)
    → Kind
written_once A made same = record {
  Carrier = A;
  made = made;
  Follows = λ x y. y ≡ x;
  follows_refl = λ x. refl;
  follows_trans = λ x y z xy yz. yz ∙ xy;
  follows_of = λ x v ev. (x, same x v ev, refl);
}
