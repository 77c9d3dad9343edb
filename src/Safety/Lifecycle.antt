-- ===== src/Safety/Lifecycle.antt =====
-- How each account changes along a chain of instructions, from whatever state.
use ascertainty_contracts.Base.{◌≡◌, ◌∙◌, ap, some, Bool, true, false}
use ascertainty_contracts.Base.Store.{lookup}
use ascertainty_contracts.Accounts.{
  Pubkey, ProjectStatus, Platform, Project, Pool, InvestorPosition, MrvProject, Verification,
  platform_account, project_account, pool_account, position_account, mrv_account,
  verification_account, Account, Accounts, PoolProjectLink, Baseline, Auditor, link_account,
  baseline_account, auditor_account,
}
use ascertainty_contracts.Accounts.Evolve.{
  StatusPath, stays, goes, activates, repays, closes, PlatformEvolves, ProjectEvolves, PoolEvolves,
  MrvEvolves, VerificationEvolves, PositionEvolves,
}
use ascertainty_contracts.Runtime.{Runtime, State}
use ascertainty_contracts.Program.{Reach}
use ascertainty_contracts.Shares.Kinds.{
  platform_kind, project_kind, pool_kind, position_kind, mrv_kind, verification_kind, written_once,
}
use ascertainty_contracts.Refine.Program.{Reach-Kept}

completed_stays :
    (a b : ProjectStatus)
    → a ≡ ProjectStatus.completed
    → StatusPath a b
    → b ≡ ProjectStatus.completed
completed_stays a b done stays = done
completed_stays a b done (goes path (activates before after)) =
    cc (completed_stays a _ done path, before)
completed_stays a b done (goes path (repays before after)) =
    cc (completed_stays a _ done path, before)
completed_stays a b done (goes path (closes before after)) = after

-- The accounts that no instruction rewrites: pool links, baselines and auditors.
abbrev pub is_written_once : Account → Bool
is_written_once (link_account x) = true
is_written_once (baseline_account x) = true
is_written_once (auditor_account x) = true
is_written_once _ = false

kept :
    {A : Type 0} (made : A → Account) (k : Pubkey) (d : Accounts) {x : A}
    → (y : A) × (lookup k d ≡ some (made y)) × (y ≡ x)
    → lookup k d ≡ some (made x)
kept made k d (y, there, same) = there ∙ ap (λ z. some (made z)) same

module _ {L : Type 0} {rt : Runtime L} where
  -- Whatever instructions run, a project stays at its key with its terms (id, MRV project, mint,
  -- vault, target, term, creation time, bump) unchanged; its status only takes the transitions of
  -- StatusEdge, and its total and its accumulator never fall.
  pub Reach-ProjectEvolves :
      (s t : State L) (k : Pubkey) (p : Project)
      → Reach rt s t
      → lookup k s.accounts ≡ some (project_account p)
      → (p' : Project) × (lookup k t.accounts ≡ some (project_account p')) × ProjectEvolves p p'
  Reach-ProjectEvolves s t k p r e = Reach-Kept rt project_kind r k p e

  -- A project that is completed stays completed, whatever instructions run.
  pub Reach-completed :
      (s t : State L) (k : Pubkey) (p : Project)
      → Reach rt s t
      → lookup k s.accounts ≡ some (project_account p)
      → p.status ≡ ProjectStatus.completed
      → (p' : Project) × (lookup k t.accounts ≡ some (project_account p'))
        × (p'.status ≡ ProjectStatus.completed)
  Reach-completed s t k p r e done =
      let (p', there, ev) = Reach-ProjectEvolves s t k p r e in
      (p', there, completed_stays p.status p'.status done ev.status)

  -- Whatever instructions run, a pool stays at its key with its terms and its status unchanged, and
  -- its sales, its total, its accumulator and its count of projects never fall.
  pub Reach-PoolEvolves :
      (s t : State L) (k : Pubkey) (p : Pool)
      → Reach rt s t
      → lookup k s.accounts ≡ some (pool_account p)
      → (p' : Pool) × (lookup k t.accounts ≡ some (pool_account p')) × PoolEvolves p p'
  Reach-PoolEvolves s t k p r e = Reach-Kept rt pool_kind r k p e

  -- Whatever instructions run, the platform keeps its admin, treasury, mint and fees.
  pub Reach-PlatformEvolves :
      (s t : State L) (k : Pubkey) (p : Platform)
      → Reach rt s t
      → lookup k s.accounts ≡ some (platform_account p)
      → (p' : Platform) × (lookup k t.accounts ≡ some (platform_account p')) × PlatformEvolves p p'
  Reach-PlatformEvolves s t k p r e = Reach-Kept rt platform_kind r k p e

  -- Whatever instructions run, a position that has an owner keeps its owner and its target, and its
  -- `total_claimed` and `last_claimed_per_token` never fall.
  pub Reach-PositionEvolves :
      (s t : State L) (k : Pubkey) (q : InvestorPosition)
      → Reach rt s t
      → lookup k s.accounts ≡ some (position_account q)
      → (q' : InvestorPosition) × (lookup k t.accounts ≡ some (position_account q'))
        × PositionEvolves q q'
  Reach-PositionEvolves s t k q r e = Reach-Kept rt position_kind r k q e

  -- Whatever instructions run, an MRV project keeps its identity and texts, and a submitted baseline
  -- stays submitted.
  pub Reach-MrvEvolves :
      (s t : State L) (k : Pubkey) (m : MrvProject)
      → Reach rt s t
      → lookup k s.accounts ≡ some (mrv_account m)
      → (m' : MrvProject) × (lookup k t.accounts ≡ some (mrv_account m')) × MrvEvolves m m'
  Reach-MrvEvolves s t k m r e = Reach-Kept rt mrv_kind r k m e

  -- Whatever instructions run, a verification report stays as submitted, and once attested it stays
  -- attested.
  pub Reach-VerificationEvolves :
      (s t : State L) (k : Pubkey) (v : Verification)
      → Reach rt s t
      → lookup k s.accounts ≡ some (verification_account v)
      → (v' : Verification) × (lookup k t.accounts ≡ some (verification_account v'))
        × VerificationEvolves v v'
  Reach-VerificationEvolves s t k v r e = Reach-Kept rt verification_kind r k v e

  -- Whatever instructions run, the link of a project to a pool, a baseline and an auditor stay exactly
  -- as they are.
  pub Reach-written_once :
      (s t : State L) (k : Pubkey) (v : Account)
      → Reach rt s t
      → is_written_once v ≡ true
      → lookup k s.accounts ≡ some v
      → lookup k t.accounts ≡ some v
  Reach-written_once s t k (link_account x) r once there =
      kept link_account k t.accounts
        (Reach-Kept rt (written_once PoolProjectLink link_account λ y v ev. ev) r k x there)
  Reach-written_once s t k (baseline_account x) r once there =
      kept baseline_account k t.accounts
        (Reach-Kept rt (written_once Baseline baseline_account λ y v ev. ev) r k x there)
  Reach-written_once s t k (auditor_account x) r once there =
      kept auditor_account k t.accounts
        (Reach-Kept rt (written_once Auditor auditor_account λ y v ev. ev) r k x there)
  Reach-written_once s t k _ r once there = cc
