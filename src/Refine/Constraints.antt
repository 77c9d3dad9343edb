-- ===== src/Refine/Constraints.antt =====
-- The rules for the account tests that several instructions share.
use ascertainty_contracts.Base.{
  ℕ, ◌+◌, ◌*◌, ◌/◌, ◌<◌, ◌≡◌, ◌∙◌, ap, arith, true, false, none, some, checked_add, checked_mul,
  checked_div, checked_add-eq-some, checked_mul-eq-some, checked_div-eq-some, checked_sub,
  checked_sub-eq-some, try_from, try_from-eq-some, leb, leb→le, ◌-◌, ◌≤◌, u64_size, u128_size,
}
use ascertainty_contracts.Base.Store.{lookup}
use ascertainty_contracts.Base.{ltb, ltb→lt, saturating_add, u16_size}
use ascertainty_contracts.Constants.{precision, max_pool_projects_v1}
use ascertainty_contracts.Accounts.{
  Pubkey, Platform, Auditor, Account, Accounts, platform_account, auditor_account,
}
use ascertainty_contracts.Accounts.Evolve.{Evolves}
use ascertainty_contracts.Shares.Fund.{fund_of, is_position}
use ascertainty_contracts.Shares.Move.{IsPlainAt}
use ascertainty_contracts.Runtime.{
  Runtime, State, M, ◌>>=◌, Ensures, on_pure, on_bind, on_key, on_require, on_platform, on_auditor,
}
use ascertainty_contracts.Admin.Platforms.{load_platform_of, load_platform_usdc}
use ascertainty_contracts.Mrv.Reports.{load_auditor_of}

module _ {L B : Type 0} {Q : B → State L → Type 0} (rt : Runtime L) where
  pub on_platform_of :
      (k admin : Pubkey) {f : Platform → M L B} {s : State L}
      → ((t : Platform)
          → lookup k s.accounts ≡ some (platform_account t)
          → t.admin ≡ admin
          → Ensures Q (f t) s)
      → Ensures Q (load_platform_of rt k admin >>= f) s
  unfolding load_platform_of
  on_platform_of k admin h =
      on_bind (load_platform_of rt k admin) (
        on_platform k λ t there. on_key _ λ _ at. on_key _ λ _ signed. on_pure t (h t there signed))

  pub on_auditor_of :
      (k signer : Pubkey) {f : Auditor → M L B} {s : State L}
      → ((t : Auditor)
          → lookup k s.accounts ≡ some (auditor_account t)
          → t.is_active ≡ true
          → t.wallet ≡ signer
          → Ensures Q (f t) s)
      → Ensures Q (load_auditor_of rt k signer >>= f) s
  unfolding load_auditor_of
  on_auditor_of k signer h = on_bind (load_auditor_of rt k signer) (
      on_auditor k λ t there.
        on_key _
          λ _ at. on_require _ λ _ live. on_key _ λ _ signed. on_pure t (h t there live signed))

module _ {L B : Type 0} {Q : B → State L → Type 0} (rt : Runtime L) where
  pub on_platform_usdc :
      (k admin usdc_mint : Pubkey) {f : Platform → M L B} {s : State L}
      → ((t : Platform)
          → lookup k s.accounts ≡ some (platform_account t)
          → t.admin ≡ admin
          → t.usdc_mint ≡ usdc_mint
          → Ensures Q (f t) s)
      → Ensures Q (load_platform_usdc rt k admin usdc_mint >>= f) s
  unfolding load_platform_usdc
  on_platform_usdc k admin usdc_mint h = on_bind (load_platform_usdc rt k admin usdc_mint) (
      on_platform_of rt k admin
        λ t there signed. on_key _ λ _ usdc. on_pure t (h t there signed usdc))

-- The accumulator and the total after a distribution, from the checked operations of the code.
pub accrual :
    (amount sold per_token total scaled delta per_token' total' : ℕ)
    → checked_mul u128_size amount precision ≡ some scaled
    → checked_div scaled sold ≡ some delta
    → checked_add u128_size per_token delta ≡ some per_token'
    → checked_add u64_size total amount ≡ some total'
    → (per_token' ≡ per_token + amount * precision / sold)
      × (total' ≡ total + amount)
      × (total + amount < u64_size)
accrual amount sold per_token total scaled delta per_token' total' sc dl cm ds =
    let m = checked_mul-eq-some u128_size amount precision scaled sc in
    let q = checked_div-eq-some scaled sold delta dl in
    let c = checked_add-eq-some u128_size per_token delta per_token' cm in
    let t = checked_add-eq-some u64_size total amount total' ds in
    (c.0 ∙ ap (λ x. per_token + x) (q.0 ∙ ap (λ x. x / sold) m.0), t.0, omega (arith, t.0, t.1))

-- A purchase that fits into what remains of the target.
pub room_of :
    (target sold amount remaining : ℕ)
    → checked_sub target sold ≡ some remaining
    → leb amount remaining ≡ true
    → sold + amount ≤ target
room_of target sold amount remaining rm fits =
    omega (arith, checked_sub-eq-some target sold remaining rm, leb→le amount remaining fits)

-- What a claim pays, from the checked operations of the code.
pub owed_of :
    (per_token last held total delta scaled owed total' : ℕ)
    → checked_sub per_token last ≡ some delta
    → checked_mul u128_size held delta ≡ some scaled
    → try_from u64_size (scaled / precision) ≡ some owed
    → checked_add u64_size total owed ≡ some total'
    → (owed ≡ held * (per_token - last) / precision) × (total' ≡ total + owed) × (last ≤ per_token)
owed_of per_token last held total delta scaled owed total' dl sc ow cl =
    let d = checked_sub-eq-some per_token last delta dl in
    let m = checked_mul-eq-some u128_size held delta scaled sc in
    let t = try_from-eq-some u64_size (scaled / precision) owed ow in
    let c = checked_add-eq-some u64_size total owed total' cl in
    (t.0 ∙ ap (λ x. x / precision) (m.0 ∙ ap (λ x. held * x) d.0), c.0, d.1)

-- A write over an account that follows it, and a write at a free key.
pub plain_at :
    (k : Pubkey) (a v : Account) (d : Accounts)
    → lookup k d ≡ some a
    → fund_of a ≡ none
    → is_position a ≡ false
    → Evolves a v
    → IsPlainAt k v d
plain_at k a v d there fa pa ev b e = let same : b ≡ a = cc (there, e) in rw same (fa, pa, ev)

pub plain_free : (k : Pubkey) (v : Account) (d : Accounts) → lookup k d ≡ none → IsPlainAt k v d
plain_free k v d free a e = cc (free, e)

-- The count of a pool's projects has room for one more, so that it does not saturate.
pub one_link_more :
    (n : ℕ) → ltb n max_pool_projects_v1 ≡ true → saturating_add u16_size n 1 ≡ n + 1
unfolding saturating_add
one_link_more n few = ground (arith, ltb→lt n max_pool_projects_v1 few)
