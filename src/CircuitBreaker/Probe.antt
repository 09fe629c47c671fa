-- ===== src/CircuitBreaker/Probe.antt =====
-- The half-open state of internal/circuitbreaker: one probe, and what its outcome does.
use symkernel.Base.{
  ℕ, ◌+◌, ◌≤◌, ◌≡◌, refl, ◌≢◌, List, [], ◌∷◌, true, false, arith, All, if◌then◌else◌,
}
use symkernel.Base.Int.{ℤ, ◌≤ℤ◌, ◌<ℤ◌, ◌-ℤ◌}
use symkernel.CircuitBreaker.{
  closed, open_circuit, half_open, CircuitBreaker, Call, allows, times_out, succeeds, allow,
  record_timeout, record_success, step, run,
}
use symkernel.CircuitBreaker.Invariant.{Inv}

-- How many of a sequence of `Allow` calls let a request through.
unfoldable pub admitted : CircuitBreaker → List ℤ → ℕ
admitted cb [] = 0
admitted cb (now ∷ later) =
    let (cb', through) = allow cb now in (if through then 1 else 0) + admitted cb' later

admitted_half_open :
    (cb : CircuitBreaker) (nows : List ℤ)
    → cb.state ≡ half_open
    → cb.probe_in_flight ≡ true
    → admitted cb nows ≡ 0
unfolding admitted allow
admitted_half_open cb [] e p = refl
admitted_half_open cb (now ∷ later) e p = ground (arith, admitted_half_open cb later e p)

-- Until an outcome is recorded, a breaker that has left the closed state lets at most one of
-- any sequence of requests through, whatever the clock reads.
pub one_probe :
    (cb : CircuitBreaker) (nows : List ℤ) → Inv cb → cb.state ≢ closed → admitted cb nows ≤ 1
unfolding admitted allow
one_probe cb [] v h = omega arith
one_probe cb (now ∷ later) v h =
    ground (arith, one_probe cb later v h, admitted_half_open (allow cb now).0 later)

-- A call that brings no outcome of the probe: `Allow`, or a timeout below the threshold.
abbrev pub NoOutcome : CircuitBreaker → Call → Type 0
NoOutcome cb (allows now) = Unit
NoOutcome cb (times_out elapsed now) = elapsed <ℤ cb.cfg.timeout_threshold
NoOutcome cb succeeds = ⊥

step-NoOutcome :
    (cb : CircuitBreaker) (c : Call)
    → cb.state ≡ half_open
    → cb.probe_in_flight ≡ true
    → NoOutcome cb c
    → step cb c ≡ cb
unfolding step
step-NoOutcome cb (allows now) e p h = ground arith
step-NoOutcome cb (times_out elapsed now) e p h = ground arith
step-NoOutcome cb succeeds e p h = absurd h

-- While a probe is in flight, timeouts shorter than the threshold and further calls of `Allow`
-- change nothing: the breaker refuses every request, at any later reading of the clock.
pub probe_pending :
    (cb : CircuitBreaker) (cs : List Call) (now : ℤ)
    → cb.state ≡ half_open
    → cb.probe_in_flight ≡ true
    → All (NoOutcome cb) cs
    → (run cb cs ≡ cb) × (allow (run cb cs) now ≡ (cb, false))
unfolding run allow
probe_pending cb [] now e p h = (refl, ground arith)
probe_pending cb (c ∷ cs) now e p h =
    ground (arith, step-NoOutcome cb c e p h.0, probe_pending cb cs now e p h.1)

-- Once the cool-down is over, an open breaker lets a probe through. If it succeeds the breaker
-- is closed with no timeouts; if it times out, at least as long as the threshold, the breaker
-- is open from then on, for a full cool-down.
pub probe_decides :
    (cb : CircuitBreaker) (now elapsed later : ℤ)
    → cb.state ≡ open_circuit
    → cb.cfg.open_duration ≤ℤ now -ℤ cb.opened_at
    → cb.cfg.timeout_threshold ≤ℤ elapsed
    → let probing = (allow cb now).0 in
      let healed = record_success probing in
      let failed = record_timeout probing elapsed later in
      ((allow cb now).1 ≡ true)
      × (healed.state ≡ closed)
      × (healed.timeout_stamps ≡ [])
      × (healed.probe_in_flight ≡ false)
      × (failed.state ≡ open_circuit)
      × (failed.opened_at ≡ later)
      × (failed.probe_in_flight ≡ false)
unfolding allow record_success record_timeout
probe_decides cb now elapsed later e h long = ground arith
