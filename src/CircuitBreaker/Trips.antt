-- ===== src/CircuitBreaker/Trips.antt =====
-- When the breaker of internal/circuitbreaker opens, and for how long.
use symkernel.Base.{
  ℕ, ◌+◌, ◌≡◌, refl, ◌↔◌, ◌⊎◌, inl, inr, List, [], ◌∷◌, ◌++◌, false, arith, length, length-append,
  count_if, All,
}
use symkernel.Base.Int.{ℤ, pos, ◌≤ℤ◌, ◌<ℤ◌, ◌-ℤ◌, leb_ℤ, -ℤ_parts, int_laws}
use symkernel.CircuitBreaker.{
  closed, open_circuit, Config, CircuitBreaker, Call, allows, times_out, succeeds, allow,
  drop_before, record_timeout, step, run,
}
use mathlib.Core.List.{append-nil, append_assoc}
use symkernel.CircuitBreaker.Invariant.{Inv}

-- A reading of the clock before the cool-down of `cb` is over.
abbrev pub CoolingDown : CircuitBreaker → Call → Type 0
CoolingDown cb (allows now) = now -ℤ cb.opened_at <ℤ cb.cfg.open_duration
CoolingDown cb (times_out elapsed now) = Unit
CoolingDown cb succeeds = Unit

step_cooling :
    (cb : CircuitBreaker) (c : Call) → cb.state ≡ open_circuit → CoolingDown cb c → step cb c ≡ cb
unfolding step
step_cooling cb (allows now) e h = ground arith
step_cooling cb (times_out elapsed now) e h = ground arith
step_cooling cb succeeds e h = ground arith

-- An open breaker stays exactly as it is under any sequence of recorded timeouts, recorded
-- successes and calls of `Allow` before the cool-down is over, and then `Allow` still refuses.
pub run_cooling :
    (cb : CircuitBreaker) (cs : List Call) (now : ℤ)
    → cb.state ≡ open_circuit
    → All (CoolingDown cb) cs
    → CoolingDown cb (allows now)
    → (run cb cs ≡ cb) × (allow (run cb cs) now ≡ (cb, false))
unfolding run allow
run_cooling cb [] now e h hn = (refl, ground arith)
run_cooling cb (c ∷ cs) now e h hn =
    let rest = run_cooling cb cs now e h.1 hn in ground (arith, step_cooling cb c e h.0, rest)

-- Instants in order, none after `now`.
abbrev pub Ascending : ℤ → List ℤ → ℤ → Type 0
Ascending from [] now = from ≤ℤ now
Ascending from (t ∷ ts) now = (from ≤ℤ t) × Ascending t ts now

-- Timeouts of one length, recorded at the given instants.
unfoldable pub timeouts : ℤ → List ℤ → List Call
timeouts elapsed [] = []
timeouts elapsed (t ∷ ts) = times_out elapsed t ∷ timeouts elapsed ts

drop_before-nil : (c : ℤ) → [] ≡ drop_before c []
unfolding drop_before
drop_before-nil c = refl

drop_before_twice :
    (c d : ℤ) (ts : List ℤ) → c ≤ℤ d → drop_before d (drop_before c ts) ≡ drop_before d ts
unfolding drop_before
drop_before_twice c d [] h = refl
drop_before_twice c d (t ∷ ts) h = ground (arith, drop_before_twice c d ts h)

drop_before-append :
    (c t : ℤ) (ts : List ℤ) → c ≤ℤ t → drop_before c (ts ++ t ∷ []) ≡ drop_before c ts ++ t ∷ []
unfolding drop_before
drop_before-append c t [] h = ground arith
drop_before-append c t (s ∷ ts) h = ground (arith, drop_before-append c t ts h)

-- On instants in order the loop keeps exactly those that are not before the cutoff.
abbrev pub recent : ℤ → List ℤ → ℕ
recent cutoff ts = count_if (λ t. leb_ℤ cutoff t) ts

recent_all :
    (c from now : ℤ) (ts : List ℤ)
    → Ascending from ts now
    → c ≤ℤ from
    → count_if (λ t. leb_ℤ c t) ts ≡ length ts
unfolding count_if
recent_all c from now [] a h = refl
recent_all c from now (t ∷ ts) a h = ground (arith, recent_all c t now ts a.1)

length-drop_before :
    (c from now : ℤ) (ts : List ℤ) → Ascending from ts now → length (drop_before c ts) ≡ recent c ts
unfolding drop_before count_if
length-drop_before c from now [] a = refl
length-drop_before c from now (t ∷ ts) a =
    ground (arith, length-drop_before c t now ts a.1, recent_all c t now ts a.1)

module _ (cb : CircuitBreaker) (elapsed t : ℤ) where
  record_open :
      cb.state ≡ closed
      → cb.cfg.timeout_threshold ≤ℤ elapsed
      → (record_timeout cb elapsed t).state ≡ open_circuit ↔ (
          cb.cfg.failure_threshold
          ≤ℤ pos (length (drop_before (t -ℤ cb.cfg.window_duration) cb.timeout_stamps ++ t ∷ [])))
  unfolding record_timeout
  record_open e h = ground arith

  record_stays :
      cb.state ≡ closed
      → cb.cfg.timeout_threshold ≤ℤ elapsed
      → ((record_timeout cb elapsed t).state ≡ open_circuit)
        ⊎ ((record_timeout cb elapsed t).state ≡ closed)
          × ((record_timeout cb elapsed t).cfg ≡ cb.cfg)
          × ((record_timeout cb elapsed t).timeout_stamps
              ≡ drop_before (t -ℤ cb.cfg.window_duration) cb.timeout_stamps ++ t ∷ [])
  unfolding record_timeout
  record_stays e h = ground arith

timeouts_while_open :
    (cb : CircuitBreaker) (elapsed : ℤ) (ts : List ℤ)
    → cb.state ≡ open_circuit
    → (run cb (timeouts elapsed ts)).state ≡ open_circuit
unfolding run timeouts step
timeouts_while_open cb elapsed [] e = e
timeouts_while_open cb elapsed (t ∷ ts) e =
    timeouts_while_open (record_timeout cb elapsed t) elapsed ts
      (ground (arith, step_cooling cb (times_out elapsed t) e))

-- `h` holds the instants recorded so far, and `c` the last cutoff.
record Tracks (cb : CircuitBreaker) (g : Config) (h : List ℤ) (c : ℤ) : Type 0 where
  at_state : cb.state ≡ closed
  config : cb.cfg ≡ g
  stamps : cb.timeout_stamps ≡ drop_before c h

module _ (g : Config) (elapsed : ℤ) (window : pos 0 <ℤ g.window_duration)
    (long : g.timeout_threshold ≤ℤ elapsed) where
  Tracks-record :
      (cb : CircuitBreaker) (h : List ℤ) (c t : ℤ)
      → Tracks cb g h c
      → c ≤ℤ t -ℤ g.window_duration
      → (record_timeout cb elapsed t).state ≡ closed
      → Tracks (record_timeout cb elapsed t) g (h ++ t ∷ []) (t -ℤ g.window_duration)
  Tracks-record cb h c t k le e = ground (
    arith,
    record_stays cb elapsed t k.at_state,
    drop_before_twice c (t -ℤ g.window_duration) h,
    drop_before-append (t -ℤ g.window_duration) t h,
    -ℤ_parts t g.window_duration,
  )

  -- After timeouts in order that leave the breaker closed, the next one opens it exactly if
  -- enough of them are recent.
  opens_from :
      (cb : CircuitBreaker) (h : List ℤ) (c from now : ℤ) (ts : List ℤ)
      → Tracks cb g h c
      → c ≤ℤ from -ℤ g.window_duration
      → Ascending from ts now
      → (run cb (timeouts elapsed ts)).state ≡ closed
      → (run cb (timeouts elapsed (ts ++ now ∷ []))).state ≡ open_circuit ↔ (
          g.failure_threshold
          ≤ℤ pos (length (drop_before (now -ℤ g.window_duration) (h ++ ts) ++ now ∷ [])))
  unfolding run timeouts step
  opens_from cb h c from now [] k le a e = ground (
    arith,
    append-nil h,
    record_open cb elapsed now k.at_state,
    drop_before_twice c (now -ℤ g.window_duration) h,
    -ℤ_parts now g.window_duration,
    -ℤ_parts from g.window_duration,
  )
  opens_from cb h c from now (t ∷ ts) k le a e =
      elim (record_stays cb elapsed t k.at_state (rw k.config long)) [
        | inl tripped ↦
            absurd (cc (timeouts_while_open (record_timeout cb elapsed t) elapsed ts tripped))
        | inr (still, _, _) ↦ rw (← append_assoc h (t ∷ []) ts) (
            opens_from (record_timeout cb elapsed t) (h ++ t ∷ []) (t -ℤ g.window_duration) t now ts
              (Tracks-record cb h c t k (omega int_laws) still) (omega arith) a.1 e)
      ]

-- Let a closed breaker with no recorded timeouts, as after `New` or `RecordSuccess`, record
-- timeouts at instants in order, each at least as long as the timeout threshold, and let it
-- still be closed. One more such timeout opens it exactly if, with those recorded within the
-- window before it, there are at least as many as the failure threshold.
pub burst_opens :
    (cb : CircuitBreaker) (elapsed from now : ℤ) (ts : List ℤ)
    → Inv cb
    → cb.state ≡ closed
    → cb.timeout_stamps ≡ []
    → cb.cfg.timeout_threshold ≤ℤ elapsed
    → Ascending from ts now
    → (run cb (timeouts elapsed ts)).state ≡ closed
    → (run cb (timeouts elapsed (ts ++ now ∷ []))).state ≡ open_circuit
      ↔ (cb.cfg.failure_threshold ≤ℤ pos (recent (now -ℤ cb.cfg.window_duration) ts + 1))
burst_opens cb elapsed from now ts v e s long a still =
    let c = from -ℤ cb.cfg.window_duration in
    rw (← length-drop_before (now -ℤ cb.cfg.window_duration) from now ts a) (
      rw (← length-append (drop_before (now -ℤ cb.cfg.window_duration) ts) (now ∷ [])) (
        opens_from cb.cfg elapsed v.positive.window long cb [] c from now ts
          (record { at_state = e; config = refl; stamps = rw s (drop_before-nil c) }) (omega arith)
          a still))
