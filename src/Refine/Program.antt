-- ===== src/Refine/Program.antt =====
-- The dispatch of programs/exira/src/lib.rs and chains of instructions as moves of the abstract view.
use ascertainty_contracts.Base.{◌≡◌, sym, subst}
use ascertainty_contracts.Base.Store.{lookup}
use ascertainty_contracts.Errors.{ok}
use ascertainty_contracts.Runtime.{Runtime, RuntimeLaws, State, Ensures, ensures-ok}
use ascertainty_contracts.Program.{
  Instruction, initialize_platform, create_project, activate_project, distribute_repayment,
  close_project, create_pool, add_project_to_pool, distribute_pool_returns, withdraw_project_funds,
  buy_project_tokens, claim_project_returns, withdraw_investment, buy_pool_tokens,
  claim_pool_returns, register_mrv_project, add_auditor, submit_baseline, submit_verification,
  attest_verification, execute, Step, runs, elsewhere, Reach, here, next, IsFresh,
}
use ascertainty_contracts.Shares.Excess.{excess_of, step_excess}
use ascertainty_contracts.Shares.Move.{nothing, Moves, done}
use ascertainty_contracts.Shares.Kept.{Kind, Kept, Kept-refl, Kept-trans}
use ascertainty_contracts.Shares.Persist.{Moves-Kept}
use ascertainty_contracts.Shares.Rules.{Rules, Rules-fresh, Moves-Rules}
use ascertainty_contracts.Shares.Invariant.{Inv}
use ascertainty_contracts.Shares.Preserve.Purchases.{Moves-Inv}
use ascertainty_contracts.Refine.Admin.{
  initialize_platform-Moves, create_project-Moves, activate_project-Moves, close_project-Moves,
  distribute_repayment-Moves, withdraw_project_funds-Moves,
}
use ascertainty_contracts.Refine.Pools.{
  create_pool-Moves, add_project_to_pool-Moves, distribute_pool_returns-Moves,
  buy_pool_tokens-Moves, claim_pool_returns-Moves,
}
use ascertainty_contracts.Refine.Investor.{
  buy_project_tokens-Moves, claim_project_returns-Moves, withdraw_investment-Moves,
}
use ascertainty_contracts.Refine.Mrv.{
  register_mrv_project-Moves, add_auditor-Moves, submit_baseline-Moves, submit_verification-Moves,
  attest_verification-Moves,
}

module _ {L : Type 0} (rt : Runtime L) where
  execute-Moves :
      (i : Instruction) (s : State L)
      → Ensures (λ _ e. Moves rt s.accounts (excess_of i s.accounts) e.accounts) (execute rt i) s
  unfolding execute
  execute-Moves (initialize_platform ctx o p h) s = initialize_platform-Moves rt ctx o p h s
  execute-Moves (create_project ctx id target term) s = create_project-Moves rt ctx id target term s
  execute-Moves (activate_project ctx) s = activate_project-Moves rt ctx s
  execute-Moves (distribute_repayment ctx n) s = distribute_repayment-Moves rt ctx n s
  execute-Moves (close_project ctx) s = close_project-Moves rt ctx s
  execute-Moves (create_pool ctx id target) s = create_pool-Moves rt ctx id target s
  execute-Moves (add_project_to_pool ctx) s = add_project_to_pool-Moves rt ctx s
  execute-Moves (distribute_pool_returns ctx n) s = distribute_pool_returns-Moves rt ctx n s
  execute-Moves (withdraw_project_funds ctx n) s = withdraw_project_funds-Moves rt ctx n s
  execute-Moves (buy_project_tokens ctx n) s = buy_project_tokens-Moves rt ctx n s
  execute-Moves (claim_project_returns ctx) s = claim_project_returns-Moves rt ctx s
  execute-Moves (withdraw_investment ctx) s = withdraw_investment-Moves rt ctx s
  execute-Moves (buy_pool_tokens ctx n) s = buy_pool_tokens-Moves rt ctx n s
  execute-Moves (claim_pool_returns ctx) s = claim_pool_returns-Moves rt ctx s
  execute-Moves (register_mrv_project ctx id a b c d) s =
      register_mrv_project-Moves rt ctx id a b c d s
  execute-Moves (add_auditor ctx name certification) s =
      add_auditor-Moves rt ctx name certification s
  execute-Moves (submit_baseline ctx report) s = submit_baseline-Moves rt ctx report s
  execute-Moves (submit_verification ctx index report) s =
      submit_verification-Moves rt ctx index report s
  execute-Moves (attest_verification ctx) s = attest_verification-Moves rt ctx s

  -- An instruction that succeeds refines the abstract view: it changes the accounts by moves.
  pub execute-refines :
      (i : Instruction) (s s' : State L)
      → execute rt i s ≡ ok (tt, s')
      → Moves rt s.accounts (excess_of i s.accounts) s'.accounts
  execute-refines i s s' e = ensures-ok tt s' (execute-Moves i s) e

module _ {L : Type 0} {rt : Runtime L} (laws : RuntimeLaws rt) where
  pub Step-Inv : (s s' : State L) → Step rt s s' → Inv rt s.accounts → Inv rt s'.accounts
  Step-Inv s s' (runs i e) inv = Moves-Inv laws (execute-refines rt i s s' e) inv
  Step-Inv s s' (elsewhere tokens now e) inv = rw e inv

  Reach-keeps : {s t : State L} → Reach rt s t → Inv rt s.accounts → Inv rt t.accounts
  Reach-keeps here inv = inv
  Reach-keeps (next r st) inv = Step-Inv _ _ st (Reach-keeps r inv)

  Inv-fresh : (s : State L) → IsFresh rt s → Inv rt s.accounts
  unfolding lookup
  Inv-fresh s fresh = rw fresh (record {
    placed = tt;
    supply = λ k a f e fa. cc e;
    quiet = λ k a f e fa r. cc e;
    solvent = λ k a f e fa p. cc e;
  })

  -- From a state in which the program owns no account, the invariant holds wherever it gets.
  pub Reach-Inv : (s t : State L) → IsFresh rt s → Reach rt s t → Inv rt t.accounts
  Reach-Inv s t fresh r = Reach-keeps r (Inv-fresh s fresh)

module _ {L : Type 0} (rt : Runtime L) where
  -- A step changes the accounts by moves.
  pub Step-Moves :
      (s s' : State L) (st : Step rt s s') → Moves rt s.accounts (step_excess rt st) s'.accounts
  Step-Moves s s' (runs i e) = execute-refines rt i s s' e
  Step-Moves s s' (elsewhere tokens now e) =
      subst (λ t. Moves rt s.accounts nothing t.accounts) (sym e) done

  Reach-keeps_Rules : {s t : State L} → Reach rt s t → Rules s.accounts → Rules t.accounts
  Reach-keeps_Rules here r = r
  Reach-keeps_Rules (next r st) rules =
      Moves-Rules rt _ _ (Step-Moves _ _ st) (Reach-keeps_Rules r rules)

  pub Reach-Rules : (s t : State L) → IsFresh rt s → Reach rt s t → Rules t.accounts
  Reach-Rules s t fresh r = Reach-keeps_Rules r (rw fresh Rules-fresh)

  pub Reach-Kept : (kind : Kind) {s t : State L} → Reach rt s t → Kept kind s.accounts t.accounts
  Reach-Kept kind {s} here = Kept-refl kind s.accounts
  Reach-Kept kind (next r st) =
      Kept-trans kind _ _ _ (Reach-Kept kind r) (Moves-Kept rt kind _ _ (Step-Moves _ _ st))
