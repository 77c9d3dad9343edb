-- ===== src/Shares/Homes.antt =====
-- Every account at the address that its seeds give, along the moves.
use ascertainty_contracts.Base.{ℕ, ◌≡◌, inl, inr, some, []}
use ascertainty_contracts.Base.Store.{lookup}
use ascertainty_contracts.Accounts.{Pubkey, Account, Accounts}
use ascertainty_contracts.Runtime.{Runtime}
use ascertainty_contracts.Shares.Home.{IsHome, IsHome-Evolves}
use ascertainty_contracts.Shares.Move.{Move, Moves, done, then_move}
use ascertainty_contracts.Shares.Origin.{Move-Origin}

module _ {L : Type 0} (rt : Runtime L) where
  abbrev pub Homes : Accounts → Type 0
  Homes d = (k : Pubkey) (v : Account) → lookup k d ≡ some v → IsHome rt k v

  Move-Homes : {x : Pubkey → ℕ} (d e : Accounts) → Move rt x d e → Homes d → Homes e
  Move-Homes d e m homes k v x = elim (Move-Origin rt d e m k v x) [
    | inl (s, g, h) ↦ h
    | inr (a, there, ev) ↦ IsHome-Evolves rt k a v ev (homes k a there)
  ]

  pub Moves-Homes :
      (d : Accounts) {x : Pubkey → ℕ} (e : Accounts) → Moves rt d x e → Homes d → Homes e
  Moves-Homes d e done h = h
  Moves-Homes d e' (then_move {e = e} ms m) h = Move-Homes e e' m (Moves-Homes d e ms h)

  pub Homes-fresh : Homes []
  unfolding lookup
  Homes-fresh k v e = cc
