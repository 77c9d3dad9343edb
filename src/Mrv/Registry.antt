-- ===== src/Mrv/Registry.antt =====
-- programs/exira/src/instructions/mrv: register_project.rs, add_auditor.rs.
use ascertainty_contracts.Base.{ℕ, true, false, List, [], ◌∷◌}
use ascertainty_contracts.Constants.{
  mrv_project_seed, auditor_seed, msme_name_len, sector_len, location_len, upgrade_type_len,
  auditor_name_len, certification_len,
}
use ascertainty_contracts.Errors.{string_too_long}
use ascertainty_contracts.Accounts.{Pubkey, MrvProjectStatus, mrv_account, auditor_account}
use ascertainty_contracts.Runtime.{
  Seed, tag, le_bytes, key, Runtime, M, ◌>>=◌, ok_or, clock, save, init,
}
use ascertainty_contracts.Admin.Platforms.{load_platform_of}
use ascertainty_contracts.Mrv.Text.{pad_into}

abbrev pub mrv_project_seeds : ℕ → List Seed
mrv_project_seeds id = tag mrv_project_seed ∷ le_bytes id ∷ []

abbrev pub auditor_seeds : Pubkey → List Seed
auditor_seeds wallet = tag auditor_seed ∷ key wallet ∷ []

pub record RegisterMrvProject : Type 0 where
  pub platform : Pubkey
  pub admin : Pubkey
  pub mrv_project : Pubkey

pub record AddAuditor : Type 0 where
  pub platform : Pubkey
  pub admin : Pubkey
  pub auditor_wallet : Pubkey
  pub auditor : Pubkey

module _ {L : Type 0} (rt : Runtime L) where
  unfoldable pub register_mrv_project :
      RegisterMrvProject → ℕ → List ℕ → List ℕ → List ℕ → List ℕ → M L (Unit {0})
  register_mrv_project ctx project_id msme_name sector location upgrade_type = do
    platform ← load_platform_of rt ctx.platform ctx.admin
    bump ← init rt ctx.mrv_project (mrv_project_seeds project_id)
    now ← clock
    name ← ok_or (pad_into msme_name_len msme_name) string_too_long
    sector' ← ok_or (pad_into sector_len sector) string_too_long
    location' ← ok_or (pad_into location_len location) string_too_long
    upgrade ← ok_or (pad_into upgrade_type_len upgrade_type) string_too_long
    save ctx.mrv_project (
        mrv_account (record {
          project_id = project_id;
          msme_name = name;
          sector = sector';
          location = location';
          upgrade_type = upgrade;
          status = MrvProjectStatus.registered;
          baseline_submitted = false;
          verification_count = 0;
          created_at = now;
          bump = bump;
        }))

  unfoldable pub add_auditor : AddAuditor → List ℕ → List ℕ → M L (Unit {0})
  add_auditor ctx name certification = do
    platform ← load_platform_of rt ctx.platform ctx.admin
    bump ← init rt ctx.auditor (auditor_seeds ctx.auditor_wallet)
    now ← clock
    name' ← ok_or (pad_into auditor_name_len name) string_too_long
    certification' ← ok_or (pad_into certification_len certification) string_too_long
    save ctx.auditor (
        auditor_account (record {
          wallet = ctx.auditor_wallet;
          name = name';
          certification = certification';
          is_active = true;
          projects_audited = 0;
          added_at = now;
          bump = bump;
        }))
