-- ===== src/RoundRobin/Turns.antt =====
-- Every thread of Asmt_3/uthread.c gets the processor.
use cs.Prelude.{ℕ, zero, suc}
use cs.Exec.{Exec, done, ◌>>=◌}
use cs.RoundRobin.{System, uthread_yield}

-- One thread after the other yields.
unfoldable pub yields : ℕ → System → Exec System
yields zero s = done s
yields (suc n) s = uthread_yield s >>= (λ r. yields n r.0)
