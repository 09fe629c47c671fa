-- ===== src/CircuitBreaker/Tests.antt =====
-- Runs of the breaker of internal/circuitbreaker, and the theorems about it at them.
use symkernel.Base.{◌≤◌, ◌+◌, true, ◌≡◌, refl, ◌↔◌, [], ◌∷◌, ◌++◌, false, arith}
use symkernel.Base.Int.{pos, ◌≤ℤ◌, ◌-ℤ◌}
use symkernel.CircuitBreaker.{
  closed, open_circuit, half_open, Config, CircuitBreaker, allows, times_out, succeeds, new, allow,
  record_timeout, record_success, step, run, drop_before,
}
use symkernel.CircuitBreaker.Invariant.{Inv, new-Inv, run-Inv}
use symkernel.CircuitBreaker.Trips.{run_cooling, burst_opens, recent, timeouts}
use symkernel.CircuitBreaker.Probe.{admitted, one_probe, probe_pending, probe_decides}

abbrev small : Config
small = record {
  timeout_threshold = pos 3;
  window_duration = pos 60;
  failure_threshold = pos 2;
  open_duration = pos 90;
}

abbrev tripped : CircuitBreaker
tripped = record {
  cfg = small;
  state = open_circuit;
  timeout_stamps = [];
  opened_at = pos 50;
  probe_in_flight = false;
}

abbrev probing : CircuitBreaker
probing = (record tripped { state = half_open; probe_in_flight = true })

program : Unit {0}
unfolding new allow record_timeout record_success step run ◌-ℤ◌ drop_before timeouts admitted
program = tt

trips : run (new small) (timeouts (pos 3) (pos 10 ∷ pos 50 ∷ [])) ≡ tripped
unfolding program
trips = refl

window_slides : (run (new small) (timeouts (pos 3) (pos 10 ∷ pos 80 ∷ []))).state ≡ closed
unfolding program
window_slides = refl

tripped-Inv : Inv tripped
tripped-Inv = ground arith

run-Inv_example : Inv (run (new small) (times_out (pos 3) (pos 10) ∷ allows (pos 11) ∷ []))
run-Inv_example =
    run-Inv (new small) (times_out (pos 3) (pos 10) ∷ allows (pos 11) ∷ []) (new-Inv small)

run_cooling_example :
    (run tripped (succeeds ∷ times_out (pos 9) (pos 60) ∷ []) ≡ tripped)
    × (allow (run tripped (succeeds ∷ times_out (pos 9) (pos 60) ∷ [])) (pos 139)
        ≡ (tripped, false))
unfolding ◌-ℤ◌
run_cooling_example =
    run_cooling tripped (succeeds ∷ times_out (pos 9) (pos 60) ∷ []) (pos 139) refl (tt, (tt, tt))
      (omega arith)

abbrev fresh : CircuitBreaker
fresh = record tripped { state = closed }

fresh-Inv : Inv fresh
fresh-Inv = ground arith

burst_opens_example :
    (run fresh (timeouts (pos 3) ((pos 10 ∷ []) ++ pos 50 ∷ []))).state ≡ open_circuit
    ↔ (pos 2 ≤ℤ pos (recent (pos 50 -ℤ pos 60) (pos 10 ∷ []) + 1))
unfolding program
burst_opens_example =
    burst_opens fresh (pos 3) (pos 0) (pos 50) (pos 10 ∷ []) fresh-Inv refl refl (omega arith)
      (omega arith) refl

one_probe_example : admitted tripped (pos 140 ∷ pos 141 ∷ []) ≤ 1
one_probe_example = one_probe tripped (pos 140 ∷ pos 141 ∷ []) tripped-Inv (λ e. cc)

probe_pending_example :
    (run probing (times_out (pos 1) (pos 200) ∷ []) ≡ probing)
    × (allow (run probing (times_out (pos 1) (pos 200) ∷ [])) (pos 900) ≡ (probing, false))
probe_pending_example =
    probe_pending probing (times_out (pos 1) (pos 200) ∷ []) (pos 900) refl refl (omega arith, tt)

probe_decides_example : (allow tripped (pos 140)).1 ≡ true
unfolding ◌-ℤ◌
probe_decides_example =
    (probe_decides tripped (pos 140) (pos 3) (pos 150) refl (omega arith) (omega arith)).0
