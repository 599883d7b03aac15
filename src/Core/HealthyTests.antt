-- ===== src/Core/HealthyTests.antt =====
-- A command on a healthy server, at concrete input.
use hermitdb.Prelude.{arith, bytes_eq, refl, [], ◌∷◌, codes}
use hermitdb.Prelude.Int.{pos}
use hermitdb.Prelude.Map.{find, put}
use hermitdb.Core.Db.{str}
use hermitdb.Core.Expiry.{empty, expiry_at}
use hermitdb.Core.Expiry.Consistent.{empty-IsConsistent}
use hermitdb.Core.Dispatch.{execute}
use hermitdb.Core.Healthy.{IsHealthy, put-IsHealthy, arm-IsHealthy}
use hermitdb.Core.Healthy.Steps.{Healthy, Safe}
use hermitdb.Core.Server.Cycle.{active_cycle}
use hermitdb.Core.Healthy.Cycle.{Draws, Ends, active_cycle_lem}
use hermitdb.Core.Healthy.Whole.{execute_lem}
use hermitdb.Core.ServerTests.{still, still-Answers, serving}

empty-IsHealthy : IsHealthy [] empty
unfolding find
empty-IsHealthy = record {
  full = λ key h. cc;
  consistent = empty-IsConsistent;
  covered = λ j h. unfold expiry_at in refl;
}

serving-Healthy : Healthy serving
unfolding put find bytes_eq
serving-Healthy =
    arm-IsHealthy (put-IsHealthy empty-IsHealthy (codes "k") (str (codes "old")) (λ h. cc))
      (codes "k") (pos 50) (λ h. cc)

execute_lem_example : Safe (execute (codes "LPUSH" ∷ codes "k" ∷ codes "v" ∷ []) serving)
execute_lem_example =
    execute_lem still-Answers (codes "LPUSH" ∷ codes "k" ∷ codes "v" ∷ []) serving serving-Healthy

still-Draws : Draws still
still-Draws = λ i last. omega arith

active_cycle_lem_example : Ends (active_cycle (pos 1000) serving)
active_cycle_lem_example =
    active_cycle_lem still-Answers still-Draws (pos 1000) serving serving-Healthy
