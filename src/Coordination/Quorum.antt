-- ===== src/Coordination/Quorum.antt =====
-- How a leader of internal/distributed/coordination gives up without a quorum, and what it may
-- do with its vote then.
use symkernel.Base.{
  ℕ, ◌+◌, ◌≤◌, ◌<◌, ◌≡◌, refl, ◌∙◌, ap, List, [], ◌∷◌, ◌++◌, true, false, String, none, arith,
  length, All, str_dec,
}
use symkernel.Base.Dict.{lookup}
use symkernel.Coordination.Node.{follower, leader, Message, Node, send, send_each, wrap64}
use symkernel.Coordination.Receive.{
  vote_reply, handle_request_vote, heartbeat, broadcast_heartbeat, fresh_peers, has_quorum, beat,
  check_quorum, step_timers, step_timers_as, drain_inbox, handle_all, run_tick,
}

-- No peer is on record as having acknowledged the leader.
abbrev pub Unheard : Node → Type 0
Unheard n = All (λ p. lookup str_dec p n.acks ≡ none) n.peers

fresh_peers_unheard :
    (n : Node) (ps : List String)
    → All (λ p. lookup str_dec p n.acks ≡ none) ps
    → fresh_peers n ps ≡ 0
unfolding fresh_peers
fresh_peers_unheard n [] h = refl
fresh_peers_unheard n (p ∷ ps) h = rw (h.0, fresh_peers) (fresh_peers_unheard n ps h.1)

-- What a broadcast leaves alone.
record Same (n n' : Node) : Type 0 where
  role : n'.role ≡ n.role
  timing : n'.timing ≡ n.timing
  peers : n'.peers ≡ n.peers
  members : n'.members ≡ n.members
  acks : n'.acks ≡ n.acks
  inbox : n'.inbox ≡ n.inbox
  missed : n'.quorum_miss_ticks ≡ n.quorum_miss_ticks

send_each-Same :
    (make : String → Message) (ps : List String) (n : Node) → Same n (send_each make ps n)
unfolding send_each
send_each-Same make [] n = ground arith
send_each-Same make (p ∷ ps) n = ground (arith, send_each-Same make ps (send n (make p)))

beat-Same : (n : Node) → Same n (beat n)
unfolding beat broadcast_heartbeat
beat-Same n =
    let n' : Node = record n { heartbeat_elapsed = n.heartbeat_elapsed + 1 } in
    ground (arith, send_each-Same (heartbeat n') n.peers n')

-- A leader of at least two members whom no peer acknowledged.
pub record IsAlone (n : Node) : Type 0 where
  pub leads : n.role ≡ leader
  pub quiet : n.inbox ≡ []
  pub several : 2 ≤ length n.members
  pub unheard : Unheard n

no_quorum : (n : Node) → 2 ≤ length n.members → Unheard n → has_quorum n ≡ false
unfolding has_quorum
no_quorum n two u = ground (arith, fresh_peers_unheard n n.peers u)

-- A row of ticks, with the draw of each, in which no message arrives.
unfoldable pub run_ticks : Node → List ℕ → Node
unfolding run_tick
run_ticks n [] = n
run_ticks n (draw ∷ draws) = run_ticks (run_tick n draw).0 draws

-- One more missed tick of a lonely leader, before the last.
record Misses (n n' : Node) : Type 0 where
  lonely : IsAlone n'
  counted : n'.quorum_miss_ticks ≡ n.quorum_miss_ticks + 1
  timing : n'.timing ≡ n.timing

IsAlone-Same : (n n' : Node) → Same n n' → IsAlone n → IsAlone n'
IsAlone-Same n n' s l = record {
  leads = s.role ∙ l.leads;
  quiet = s.inbox ∙ l.quiet;
  several = rw s.members l.several;
  unheard = rw (s.peers, s.acks) l.unheard;
}

drained : Node → Node
drained n = record n { tick = wrap64 (n.tick + 1); inbox = [] }

drain_inbox_quiet : (n : Node) → n.inbox ≡ [] → drain_inbox n ≡ drained n
unfolding drain_inbox drained handle_all
drain_inbox_quiet n e = rw (e, handle_all)

-- What a missed tick leaves of a leader that stays one.
abbrev missed_tick : Node → Node
missed_tick n = record n { quorum_miss_ticks = n.quorum_miss_ticks + 1 }

check_lonely :
    (n : Node)
    → IsAlone n
    → (n.quorum_miss_ticks + 1 < n.timing.quorum_loss → check_quorum n ≡ missed_tick n)
      × (n.timing.quorum_loss ≤ n.quorum_miss_ticks + 1 → (check_quorum n).role ≡ follower)
unfolding check_quorum
check_lonely n l = ground (arith, no_quorum n l.several l.unheard)

step_timers_leader :
    (n : Node) (draw : ℕ) → n.role ≡ leader → step_timers n draw ≡ check_quorum (beat n)
unfolding step_timers
step_timers_leader n draw e = ap (λ r. step_timers_as r n draw) e

-- The tick of a lonely leader, up to the emptying of its outbox.
timers_of_lonely :
    (n : Node) (draw : ℕ)
    → IsAlone n
    → IsAlone (beat (drained n))
      × Same n (beat (drained n))
      × (step_timers (drain_inbox n) draw ≡ check_quorum (beat (drained n)))
unfolding drained
timers_of_lonely n draw l =
    let same : Same n (drained n) = ground arith in
    let both : Same n (beat (drained n)) = ground (arith, beat-Same (drained n), same) in
    (
      IsAlone-Same n (beat (drained n)) both l,
      both,
      rw (drain_inbox_quiet n l.quiet) (step_timers_leader (drained n) draw l.leads),
    )

tick_lonely :
    (n : Node) (draw : ℕ)
    → IsAlone n
    → (n.quorum_miss_ticks + 1 < n.timing.quorum_loss → Misses n (run_tick n draw).0)
      × (n.timing.quorum_loss ≤ n.quorum_miss_ticks + 1 → (run_tick n draw).0.role ≡ follower)
unfolding run_tick
tick_lonely n draw l =
    let (lonely, same, e) = timers_of_lonely n draw l in
    let (early, last) = check_lonely (beat (drained n)) lonely in
    rw e (
      (λ h. rw (early (ground (arith, same, h))) (record {
        lonely = record {
          leads = lonely.leads;
          quiet = lonely.quiet;
          several = lonely.several;
          unheard = lonely.unheard;
        };
        counted = ground (arith, same);
        timing = same.timing;
      })),
      λ h. last (ground (arith, same, h)),
    )

-- A leader of at least two members, with no acknowledgement from any peer on record, to whom no
-- message arrives, leads on through its ticks until the missed ones reach the limit, and at
-- the tick that reaches it becomes a follower.
pub lonely_leader_steps_down :
    (n : Node) (draws : List ℕ)
    → IsAlone n
    → (n.quorum_miss_ticks + length draws < n.timing.quorum_loss
        → (run_ticks n draws).role ≡ leader)
      × (0 < length draws
          → n.quorum_miss_ticks + length draws ≡ n.timing.quorum_loss
          → (run_ticks n draws).role ≡ follower)
unfolding run_ticks
lonely_leader_steps_down n [] l = (λ _. l.leads, λ h. absurd (omega arith))
lonely_leader_steps_down n (draw ∷ []) l =
    let (early, last) = tick_lonely n draw l in
    (λ h. (early (omega arith)).lonely.leads, λ _ h. last (omega arith))
lonely_leader_steps_down n (draw ∷ next ∷ draws) l =
    let (early, last) = tick_lonely n draw l in
    (
      (λ h.
          let m = early (omega arith) in
          (lonely_leader_steps_down (run_tick n draw).0 (next ∷ draws) m.lonely).0
            (rw (m.counted, m.timing) (omega arith))),
      λ _ h.
          let m = early (omega arith) in
          (lonely_leader_steps_down (run_tick n draw).0 (next ∷ draws) m.lonely).1 (omega arith)
            (rw (m.counted, m.timing) (omega arith)),
    )

-- A leader that steps down for want of a quorum forgets that it has voted for itself: it then
-- grants its vote, in the very term that it led, to whichever named node asks for it next.
pub vote_after_step_down :
    (n : Node) (m : Message)
    → has_quorum n ≡ false
    → n.timing.quorum_loss ≤ n.quorum_miss_ticks + 1
    → m.term ≡ n.current_term
    → let n' = handle_request_vote (check_quorum n) m in
      (n'.current_term ≡ n.current_term)
      × (n'.voted_for ≡ m.from)
      × (n'.outbox ≡ n.outbox ++ vote_reply n m true ∷ [])
unfolding check_quorum handle_request_vote
vote_after_step_down n m lost limit same = ground arith
