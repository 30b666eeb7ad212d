-- ===== src/Loop/Execution/Run/Unroll.antt =====
-- One round of the loop at a time.
use orca_ts.Model.{RuntimeError}
use orca_ts.Loop.Execution.Run.{
  done, again, LoopExecutionSummary, round, LoopState, run_rounds, LoopExecutionOptions,
}
use orca_ts.Base.{◌≡◌, Result, ℕ, some, suc, refl}

module _ {State Action W : Type 0} (options : LoopExecutionOptions State Action W) where
  pub run_rounds-again :
      (fuel started : ℕ) (s s' : LoopState W)
      → round options started s ≡ again s'
      → run_rounds options (suc fuel) started s ≡ run_rounds options fuel started s'
  unfolding run_rounds
  run_rounds-again fuel started s s' e = rw (e, run_rounds) refl

  pub run_rounds-done :
      (fuel started : ℕ) (s s' : LoopState W) (r : Result (LoopExecutionSummary State) RuntimeError)
      → round options started s ≡ done s' r
      → run_rounds options (suc fuel) started s ≡ some (s', r)
  unfolding run_rounds
  run_rounds-done fuel started s s' r e = rw (e, run_rounds) refl
