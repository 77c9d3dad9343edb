-- ===== src/Runtime/Machine.antt =====
-- The state, the instruction monad, and the account constraints that the instructions use
-- (`Account<'info, T>`, `has_one`, `constraint`, `seeds`/`bump`, `init`, `init_if_needed`,
-- `token::mint`/`token::authority`, `associated_token::*`), read by their documented meaning.
use ascertainty_contracts.Base.{ℕ, ◌≡◌, Bool, true, false, ◌==◌, Option, none, some, List, [], ◌∷◌}
use ascertainty_contracts.Base.Int.{ℤ}
use ascertainty_contracts.Base.Store.{lookup, insert}
use ascertainty_contracts.Constants.{position_seed}
use ascertainty_contracts.Errors.{
  ExiraError, AnchorError, Error, exira, anchor, Result, ok, err, account_not_initialized,
  account_already_in_use, account_discriminator_mismatch, constraint_seeds, constraint_token_mint,
  constraint_token_owner, constraint_associated,
}
use ascertainty_contracts.Accounts.{
  Pubkey, Platform, Project, Pool, InvestorPosition, MrvProject, Verification, Auditor, Account,
  platform_account, project_account, pool_account, position_account, mrv_account,
  verification_account, auditor_account, Accounts,
}

-- One entry of a `seeds = [...]` list: a literal, `n.to_le_bytes()`, `key.as_ref()`, `&[index]`.
pub data Seed : Type 0 where
  tag : List ℕ → Seed
  le_bytes : ℕ → Seed
  key : Pubkey → Seed
  byte : ℕ → Seed

-- A token account as `Account<'info, TokenAccount>` reads it.
pub record TokenAccount : Type 0 where
  pub mint : Pubkey
  pub owner : Pubkey
  pub amount : ℕ

-- `L` is the state of the token program.
pub record Runtime (L : Type 0) : Type 0 where
  pub find_program_address : List Seed → Pubkey × ℕ
  pub create_program_address : List Seed → ℕ → Pubkey
  pub get_associated_token_address : Pubkey → Pubkey → Pubkey
  pub token_account : L → Pubkey → Option TokenAccount
  pub is_mint : L → Pubkey → Bool
  pub init_mint : Pubkey → ℕ → Pubkey → Pubkey → L → Result L
  pub create_associated : Pubkey → Pubkey → L → Result L
  pub transfer : Pubkey → Pubkey → Pubkey → ℕ → L → Result L
  pub mint_to : Pubkey → Pubkey → Pubkey → ℕ → L → Result L
  pub burn : Pubkey → Pubkey → Pubkey → ℕ → L → Result L

abbrev pub position_seeds : Pubkey → Pubkey → List Seed
position_seeds target owner = tag position_seed ∷ key target ∷ key owner ∷ []

-- The addresses of positions are collision free in the target, and the address that is found is the
-- one that the found bump creates.
pub record RuntimeLaws {L : Type 0} (rt : Runtime L) : Type 0 where
  pub position_address_injective :
      (t o t' o' : Pubkey) (b b' : ℕ)
      → rt.create_program_address (position_seeds t o) b
        ≡ rt.create_program_address (position_seeds t' o') b'
      → t ≡ t'
  pub find_creates :
      (seeds : List Seed)
      → (rt.find_program_address seeds).0
        ≡ rt.create_program_address seeds (rt.find_program_address seeds).1

pub record State (L : Type 0) : Type 0 where
  pub accounts : Accounts
  pub tokens : L
  pub unix_timestamp : ℤ

abbrev pub M : Type 0 → Type 0 → Type 0
M L A = State L → Result (A × State L)

infixl 5 ◌>>=◌ ◌>>◌
unfoldable pub ◌>>=◌ : {L A B : Type 0} → M L A → (A → M L B) → M L B
◌>>=◌ m f s = elim (m s) [ ok (a, s') ↦ f a s' | err e ↦ err e ]

abbrev pub ◌>>◌ : {L B : Type 0} → M L (Unit {0}) → M L B → M L B
m >> k = m >>= λ _. k

module _ {L : Type 0} where
  unfoldable pub pure : {A : Type 0} → A → M L A
  pure a s = ok (a, s)

  unfoldable pub require_or : Bool → Error → M L (Unit {0})
  require_or true e s = ok (tt, s)
  require_or false e s = err e

  -- `require!(test, error)`, and `has_one`/`constraint` with `@ error`.
  abbrev pub require : Bool → ExiraError → M L (Unit {0})
  require b e = require_or b (exira e)

  -- A constraint with an error of the framework.
  abbrev pub constrain : Bool → AnchorError → M L (Unit {0})
  constrain b e = require_or b (anchor e)

  -- `.ok_or(error)?`
  unfoldable pub ok_or : {A : Type 0} → Option A → ExiraError → M L A
  ok_or (some a) e s = ok (a, s)
  ok_or none e s = err (exira e)

  unfoldable pub get_accounts : M L Accounts
  get_accounts s = ok (s.accounts, s)

  unfoldable pub get_tokens : M L L
  get_tokens s = ok (s.tokens, s)

  -- `Clock::get()?.unix_timestamp`
  unfoldable pub clock : M L ℤ
  clock s = ok (s.unix_timestamp, s)

  -- A call of the token program.
  unfoldable pub invoke : (L → Result L) → M L (Unit {0})
  invoke f s = elim (f s.tokens) [ ok l ↦ ok (tt, record s { tokens = l }) | err e ↦ err e ]

  -- The write back of an account when the instruction exits.
  unfoldable pub save : Pubkey → Account → M L (Unit {0})
  save k a s = ok (tt, record s { accounts = insert k a s.accounts })

  -- `Account<'info, T>`: the account is there and has the discriminator of T, which `read` tests.
  unfoldable pub load : {A : Type 0} → (Account → Option A) → Pubkey → M L A
  load read k s = elim (lookup k s.accounts) [
    | none ↦ err (anchor account_not_initialized)
    | some a ↦ elim (read a) [
      | none ↦ err (anchor account_discriminator_mismatch)
      | some t ↦ ok (t, s)
    ]
  ]

  -- `init`: the account must not exist yet.
  unfoldable pub init_vacant : Pubkey → M L (Unit {0})
  init_vacant k s = elim (lookup k s.accounts) [
    | none ↦ ok (tt, s)
    | some _ ↦ err (anchor account_already_in_use)
  ]

abbrev pub as_platform : Account → Option Platform
as_platform (platform_account a) = some a
as_platform _ = none

abbrev pub as_project : Account → Option Project
as_project (project_account a) = some a
as_project _ = none

abbrev pub as_pool : Account → Option Pool
as_pool (pool_account a) = some a
as_pool _ = none

abbrev pub as_position : Account → Option InvestorPosition
as_position (position_account a) = some a
as_position _ = none

abbrev pub as_mrv_project : Account → Option MrvProject
as_mrv_project (mrv_account a) = some a
as_mrv_project _ = none

abbrev pub as_verification : Account → Option Verification
as_verification (verification_account a) = some a
as_verification _ = none

abbrev pub as_auditor : Account → Option Auditor
as_auditor (auditor_account a) = some a
as_auditor _ = none

-- A zeroed account, as `init_if_needed` creates it.
abbrev pub blank_position : InvestorPosition
blank_position = record {
  owner = 0;
  target = 0;
  tokens_held = 0;
  last_claimed_per_token = 0;
  total_claimed = 0;
  bump = 0;
}

module _ {L : Type 0} (rt : Runtime L) where
  -- `seeds = [...], bump = stored`
  abbrev pub check_address : Pubkey → List Seed → ℕ → M L (Unit {0})
  check_address k seeds bump =
      constrain (k == rt.create_program_address seeds bump) constraint_seeds

  -- `init, seeds = [...], bump`: the bump that was found.
  unfoldable pub init : Pubkey → List Seed → M L ℕ
  init k seeds = do
    constrain (k == (rt.find_program_address seeds).0) constraint_seeds
    init_vacant k
    pure (rt.find_program_address seeds).1

  unfoldable pub load_position_if_any : Pubkey → M L InvestorPosition
  load_position_if_any k s = elim (lookup k s.accounts) [
    | none ↦ ok (blank_position, s)
    | some a ↦ elim (as_position a) [
      | none ↦ err (anchor account_discriminator_mismatch)
      | some t ↦ ok (t, s)
    ]
  ]

  -- `init_if_needed, seeds = [...], bump` of a position.
  unfoldable pub init_position_if_needed : Pubkey → List Seed → M L (InvestorPosition × ℕ)
  init_position_if_needed k seeds = do
    constrain (k == (rt.find_program_address seeds).0) constraint_seeds
    position ← load_position_if_any k
    pure (position, (rt.find_program_address seeds).1)

  -- `Account<'info, TokenAccount>`
  unfoldable pub load_token : Pubkey → M L TokenAccount
  load_token k s = elim (rt.token_account s.tokens k) [
    | none ↦ err (anchor account_not_initialized)
    | some t ↦ ok (t, s)
  ]

  -- `Account<'info, Mint>`
  unfoldable pub load_mint : Pubkey → M L (Unit {0})
  load_mint k = do tokens ← get_tokens; constrain (rt.is_mint tokens k) account_not_initialized

  -- `token::mint = mint, token::authority = authority`
  unfoldable pub load_token_of : Pubkey → Pubkey → Pubkey → M L TokenAccount
  load_token_of k mint authority = do
    account ← load_token k
    constrain (account.mint == mint) constraint_token_mint
    constrain (account.owner == authority) constraint_token_owner
    pure account

  -- `init, associated_token::mint = mint, associated_token::authority = authority`
  unfoldable pub init_associated : Pubkey → Pubkey → Pubkey → M L (Unit {0})
  init_associated k mint authority = do
    constrain (k == rt.get_associated_token_address authority mint) constraint_associated
    invoke (rt.create_associated mint authority)

  -- The creation step of `init_if_needed`: an account that is there is only checked.
  unfoldable pub create_associated_if_needed :
      Option TokenAccount → Pubkey → Pubkey → M L (Unit {0})
  create_associated_if_needed (some account) mint authority = do
    constrain (account.mint == mint) constraint_token_mint
    constrain (account.owner == authority) constraint_token_owner
  create_associated_if_needed none mint authority = invoke (rt.create_associated mint authority)

  -- `init_if_needed, associated_token::mint = mint, associated_token::authority = authority`
  unfoldable pub init_associated_if_needed : Pubkey → Pubkey → Pubkey → M L (Unit {0})
  init_associated_if_needed k mint authority = do
    constrain (k == rt.get_associated_token_address authority mint) constraint_associated
    tokens ← get_tokens
    create_associated_if_needed (rt.token_account tokens k) mint authority
