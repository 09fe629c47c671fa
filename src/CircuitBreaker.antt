-- ===== src/CircuitBreaker.antt =====
-- internal/circuitbreaker/circuitbreaker.go: the three-state breaker that guards Z3 calls.
-- A method takes the reading of the clock as an argument and returns the new breaker; instants
-- and durations are nanoseconds in ℤ, and do not overflow. The mutex makes each method one step.
pub mod Invariant
pub mod Trips
pub mod Probe
mod Tests
use symkernel.Base.{ℕ, ◌≡◌, List, [], ◌∷◌, ◌++◌, Bool, true, false, if◌then◌else◌, leb, length}
use symkernel.Base.Int.{ℤ, pos, leb_ℤ, ltb_ℤ, ◌-ℤ◌}

pub data State : Type 0 where
  closed open_circuit half_open : State

pub record Config : Type 0 where
  pub timeout_threshold : ℤ
  pub window_duration : ℤ
  pub failure_threshold : ℤ
  pub open_duration : ℤ

abbrev pub default_config : Config
default_config = record {
  timeout_threshold = pos 30_000_000_000;
  window_duration = pos 60_000_000_000;
  failure_threshold = pos 3;
  open_duration = pos 90_000_000_000;
}

pub record CircuitBreaker : Type 0 where
  pub cfg : Config
  pub state : State
  pub timeout_stamps : List ℤ
  pub opened_at : ℤ
  pub probe_in_flight : Bool

abbrev or_default : ℤ → ℤ → ℤ
or_default x d = if leb_ℤ x (pos 0) then d else x

-- `opened_at` is the zero `time.Time`, which nothing reads before `trip` sets it.
pub new : Config → CircuitBreaker
new c = record {
  cfg = record {
    timeout_threshold = or_default c.timeout_threshold default_config.timeout_threshold;
    window_duration = or_default c.window_duration default_config.window_duration;
    failure_threshold = or_default c.failure_threshold default_config.failure_threshold;
    open_duration = or_default c.open_duration default_config.open_duration;
  };
  state = closed;
  timeout_stamps = [];
  opened_at = pos 0;
  probe_in_flight = false;
}

-- The whole of `Allow`, dispatched on the state.
allow_in : State → CircuitBreaker → ℤ → CircuitBreaker × Bool
allow_in closed cb now = (cb, true)
allow_in open_circuit cb now =
    if leb_ℤ cb.cfg.open_duration (now -ℤ cb.opened_at)
    then (record cb { state = half_open; probe_in_flight = true }, true)
    else (cb, false)
allow_in half_open cb now =
    if cb.probe_in_flight then (cb, false) else (record cb { probe_in_flight = true }, true)

pub allow : CircuitBreaker → ℤ → CircuitBreaker × Bool
unfolding allow_in
allow cb now = allow_in cb.state cb now

trip : CircuitBreaker → ℤ → CircuitBreaker
trip cb now = record cb {
  state = open_circuit;
  opened_at = now;
  probe_in_flight = false;
  timeout_stamps = [];
}

-- The loop of `pruneStamps`: it drops stamps from the front while they lie before the cutoff.
drop_before : ℤ → List ℤ → List ℤ
drop_before cutoff [] = []
drop_before cutoff (t ∷ ts) = if ltb_ℤ t cutoff then drop_before cutoff ts else t ∷ ts

prune_stamps : CircuitBreaker → ℤ → CircuitBreaker
prune_stamps cb now = record cb {
  timeout_stamps = drop_before (now -ℤ cb.cfg.window_duration) cb.timeout_stamps;
}

-- The body of the `Closed` case, after pruning.
add_stamp : CircuitBreaker → ℤ → CircuitBreaker
unfolding trip
add_stamp cb now =
    let stamps = cb.timeout_stamps ++ now ∷ [] in
    let cb' : CircuitBreaker = record cb { timeout_stamps = stamps } in
    if leb_ℤ cb.cfg.failure_threshold (pos (length stamps)) then trip cb' now else cb'

record_in : State → CircuitBreaker → ℤ → CircuitBreaker
unfolding add_stamp prune_stamps trip
record_in closed cb now = add_stamp (prune_stamps cb now) now
record_in half_open cb now = trip cb now
record_in open_circuit cb now = cb

pub record_timeout : CircuitBreaker → ℤ → ℤ → CircuitBreaker
unfolding record_in
record_timeout cb elapsed now =
    if ltb_ℤ elapsed cb.cfg.timeout_threshold then cb else record_in cb.state cb now

success_in : State → CircuitBreaker → CircuitBreaker
success_in half_open cb = record cb { state = closed; timeout_stamps = []; probe_in_flight = false }
success_in closed cb = record cb { timeout_stamps = [] }
success_in open_circuit cb = cb

pub record_success : CircuitBreaker → CircuitBreaker
unfolding success_in
record_success cb = success_in cb.state cb

-- One call of the interface, at a reading of the clock.
pub data Call : Type 0 where
  allows : ℤ → Call
  times_out : ℤ → ℤ → Call
  succeeds : Call

pub step : CircuitBreaker → Call → CircuitBreaker
unfolding allow record_timeout record_success
step cb (allows now) = (allow cb now).0
step cb (times_out elapsed now) = record_timeout cb elapsed now
step cb succeeds = record_success cb

pub run : CircuitBreaker → List Call → CircuitBreaker
run cb [] = cb
run cb (c ∷ cs) = run (step cb c) cs
