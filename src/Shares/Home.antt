-- ===== src/Shares/Home.antt =====
-- The program-derived address of each account: the `seeds = [...]` of its `init`, filled in from the
-- fields that the account itself keeps, and the bump that it stores.
use ascertainty_contracts.Base.{ℕ, ◌≡◌, refl, ap, List}
use ascertainty_contracts.Accounts.{
  Verification, Pubkey, Account, platform_account, project_account, pool_account, link_account,
  position_account, mrv_account, baseline_account, verification_account, auditor_account,
}
use ascertainty_contracts.Accounts.Evolve.{Evolves}
use ascertainty_contracts.Runtime.{Seed, Runtime, position_seeds}
use ascertainty_contracts.Admin.Platforms.{platform_seeds}
use ascertainty_contracts.Admin.Projects.{project_seeds}
use ascertainty_contracts.Admin.Pools.{pool_seeds, pool_link_seeds}
use ascertainty_contracts.Mrv.Registry.{mrv_project_seeds, auditor_seeds}
use ascertainty_contracts.Mrv.Reports.{baseline_seeds, verification_seeds}

abbrev pub seeds_of : Account → List Seed
seeds_of (platform_account t) = platform_seeds
seeds_of (project_account p) = project_seeds p.project_id
seeds_of (pool_account p) = pool_seeds p.pool_id
seeds_of (link_account l) = pool_link_seeds l.pool l.project
seeds_of (position_account q) = position_seeds q.target q.owner
seeds_of (mrv_account m) = mrv_project_seeds m.project_id
seeds_of (baseline_account b) = baseline_seeds b.mrv_project
seeds_of (verification_account v) = verification_seeds v.mrv_project v.index
seeds_of (auditor_account a) = auditor_seeds a.wallet

abbrev pub bump_of : Account → ℕ
bump_of (platform_account t) = t.bump
bump_of (project_account p) = p.bump
bump_of (pool_account p) = p.bump
bump_of (link_account l) = l.bump
bump_of (position_account q) = q.bump
bump_of (mrv_account m) = m.bump
bump_of (baseline_account b) = b.bump
bump_of (verification_account v) = v.bump
bump_of (auditor_account a) = a.bump

-- An account that is no position stands at the address that is found for its seeds, and stores the
-- bump that was found.
abbrev pub IsHome : {L : Type 0} → Runtime L → Pubkey → Account → Type 0
IsHome rt k (position_account q) = Unit
IsHome rt k v =
    (k ≡ (rt.find_program_address (seeds_of v)).0)
    × (bump_of v ≡ (rt.find_program_address (seeds_of v)).1)

IsHome-same :
    {L : Type 0} (rt : Runtime L) (k b b' : ℕ) (seeds seeds' : List Seed)
    → seeds' ≡ seeds
    → b' ≡ b
    → (k ≡ (rt.find_program_address seeds).0) × (b ≡ (rt.find_program_address seeds).1)
    → (k ≡ (rt.find_program_address seeds').0) × (b' ≡ (rt.find_program_address seeds').1)
IsHome-same rt k b b' seeds seeds' es eb h = rw (es, eb) h

-- An account that follows another one has its seeds and its bump.
pub IsHome-Evolves :
    {L : Type 0} (rt : Runtime L) (k : Pubkey) (a v : Account)
    → Evolves a v
    → IsHome rt k a
    → IsHome rt k v
IsHome-Evolves rt k (platform_account t) (platform_account t') ev h =
    IsHome-same rt k _ _ _ platform_seeds refl ev.bump h
IsHome-Evolves rt k (project_account p) (project_account p') ev h =
    IsHome-same rt k _ _ _ _ (ap project_seeds ev.project_id) ev.bump h
IsHome-Evolves rt k (pool_account p) (pool_account p') ev h =
    IsHome-same rt k _ _ _ _ (ap pool_seeds ev.pool_id) ev.bump h
IsHome-Evolves rt k (mrv_account m) (mrv_account m') ev h =
    IsHome-same rt k _ _ _ _ (ap mrv_project_seeds ev.project_id) ev.bump h
IsHome-Evolves rt k (verification_account w) (verification_account w') ev h =
    IsHome-same rt k _ _ _ _
      (ap (λ (x : Verification). verification_seeds x.mrv_project x.index) ev.report)
      (ap (λ (x : Verification). x.bump) ev.report) h
IsHome-Evolves rt k (link_account l) v ev h = rw ev h
IsHome-Evolves rt k (baseline_account b) v ev h = rw ev h
IsHome-Evolves rt k (auditor_account b) v ev h = rw ev h
IsHome-Evolves rt k (position_account q) (position_account q') ev h = tt
IsHome-Evolves rt k a v ev h = cc
