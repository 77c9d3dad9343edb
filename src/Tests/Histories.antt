-- ===== src/Tests/Histories.antt =====
-- The states of Tests/Chain.antt as chains of instructions.
use ascertainty_contracts.Program.{Reach, here}
use ascertainty_contracts.Tests.Small.{small_runtime}
use ascertainty_contracts.Tests.Chain.{start, funding, running, ending, run_all-Reach}
use ascertainty_contracts.Tests.States.{funded, repaid, ended, pool_bought}
use ascertainty_contracts.Tests.Facts.{computed}

pub Reach-funded : Reach small_runtime start funded
Reach-funded = run_all-Reach funding start start funded here computed.funding_runs

pub Reach-from_funded : Reach small_runtime funded ended
Reach-from_funded =
    run_all-Reach ending funded repaid ended
      (run_all-Reach running funded funded repaid here computed.running_runs) computed.ending_runs

pub Reach-repaid : Reach small_runtime start repaid
Reach-repaid = run_all-Reach running start funded repaid Reach-funded computed.running_runs

pub Reach-ended : Reach small_runtime start ended
Reach-ended = run_all-Reach ending start repaid ended Reach-repaid computed.ending_runs

pub Reach-bought : Reach small_runtime start pool_bought
Reach-bought = run_all-Reach _ start funded pool_bought Reach-funded computed.purchase_alone
