-- ===== src/CircuitBreaker/Invariant.antt =====
-- The invariant of the breaker of internal/circuitbreaker.
use symkernel.Base.{◌≡◌, List, [], ◌∷◌, true, false, arith, length}
use symkernel.Base.Int.{ℤ, pos, ◌<ℤ◌}
use symkernel.CircuitBreaker.{
  State, closed, open_circuit, half_open, Config, CircuitBreaker, Call, allows, times_out, succeeds,
  new, allow, record_timeout, record_success, step, run,
}

pub record IsPositive (c : Config) : Type 0 where
  pub timeout : pos 0 <ℤ c.timeout_threshold
  pub window : pos 0 <ℤ c.window_duration
  pub failures : pos 0 <ℤ c.failure_threshold
  pub cool_down : pos 0 <ℤ c.open_duration

-- Below the threshold while closed, no stamps otherwise, and a probe only while half-open.
abbrev pub StateInv : State → CircuitBreaker → Type 0
StateInv closed cb =
    (pos (length cb.timeout_stamps) <ℤ cb.cfg.failure_threshold) × (cb.probe_in_flight ≡ false)
StateInv open_circuit cb = (cb.timeout_stamps ≡ []) × (cb.probe_in_flight ≡ false)
StateInv half_open cb = (cb.timeout_stamps ≡ []) × (cb.probe_in_flight ≡ true)

pub record Inv (cb : CircuitBreaker) : Type 0 where
  pub positive : IsPositive cb.cfg
  pub at_state : StateInv cb.state cb

pub new-Inv : (c : Config) → Inv (new c)
unfolding new
new-Inv c = ground arith

allow-Inv : (cb : CircuitBreaker) (now : ℤ) → Inv cb → Inv (allow cb now).0
unfolding allow
allow-Inv cb now v = ground arith

record_timeout-Inv :
    (cb : CircuitBreaker) (elapsed now : ℤ) → Inv cb → Inv (record_timeout cb elapsed now)
unfolding record_timeout
record_timeout-Inv cb elapsed now v = ground arith

record_success-Inv : (cb : CircuitBreaker) → Inv cb → Inv (record_success cb)
unfolding record_success
record_success-Inv cb v = ground arith

pub step-Inv : (cb : CircuitBreaker) (c : Call) → Inv cb → Inv (step cb c)
unfolding step
step-Inv cb (allows now) v = allow-Inv cb now v
step-Inv cb (times_out elapsed now) v = record_timeout-Inv cb elapsed now v
step-Inv cb succeeds v = record_success-Inv cb v

pub run-Inv : (cb : CircuitBreaker) (cs : List Call) → Inv cb → Inv (run cb cs)
unfolding run
run-Inv cb [] v = v
run-Inv cb (c ∷ cs) v = run-Inv (step cb c) cs (step-Inv cb c v)
