-- ===== src/Coordination/Receive.antt =====
-- internal/distributed/coordination/coordination.go: the handlers of messages, the timers, `Tick`
-- and `Receive`.
use symkernel.Base.{
  ℕ, suc, ◌+◌, ◌-◌, List, [], ◌∷◌, ◌++◌, Bool, true, false, not, ◌&&◌, ◌||◌, String, none, some,
  ltb, leb, ◌==◌, if◌then◌else◌, length, str_dec, str_is,
}
use symkernel.Base.Dict.{lookup, insert}
use symkernel.Coordination.Node.{
  Role, follower, candidate, leader, MessageType, request_vote, request_vote_resp, append_entries,
  append_entries_resp, Message, Node, wrap64, majority_of, send, send_each, add_vote,
  become_follower, lead_if_elected, start_election,
}

abbrev pub is_candidate : Role → Bool
is_candidate candidate = true
is_candidate leader = false
is_candidate follower = false

abbrev pub is_leader : Role → Bool
is_leader leader = true
is_leader candidate = false
is_leader follower = false

-- `RequestVote` from a higher term: follow it, with the vote free.
unfoldable pub enter_term : Node → Message → Node
enter_term n m =
    if ltb n.current_term m.term
    then record n { current_term = m.term; role = follower; voted_for = ""; leader_id = "" }
    else n

unfoldable pub may_grant : Node → Message → Bool
may_grant n m = m.term == n.current_term && (str_is n.voted_for "" || str_is n.voted_for m.from)

unfoldable pub cast_vote : Node → Message → Node
cast_vote n m = record n { voted_for = m.from; leader_id = ""; election_elapsed = 0 }

abbrev pub vote_reply : Node → Message → Bool → Message
vote_reply n m granted = record {
  kind = request_vote_resp;
  term = n.current_term;
  from = n.id;
  to = m.from;
  vote_granted = granted;
  success = false;
  leader_id = "";
}

unfoldable pub reply_vote : Node → Message → Node
unfolding may_grant cast_vote
reply_vote n m =
    if may_grant n m
    then send (cast_vote n m) (vote_reply n m true)
    else send n (vote_reply n m false)

unfoldable pub handle_request_vote : Node → Message → Node
unfolding enter_term reply_vote
handle_request_vote n m = reply_vote (enter_term n m) m

unfoldable pub record_vote : Node → Message → Node
unfolding add_vote lead_if_elected
record_vote n m = lead_if_elected (record n { votes = add_vote m.from n.votes })

unfoldable pub handle_request_vote_resp : Node → Message → Node
unfolding become_follower record_vote
handle_request_vote_resp n m =
    if ltb n.current_term m.term
    then become_follower n m.term
    else if not (is_candidate n.role) || not (m.term == n.current_term) || not m.vote_granted
    then n
    else record_vote n m

abbrev pub heartbeat_reply : Node → String → Bool → Message
heartbeat_reply n to accepted = record {
  kind = append_entries_resp;
  term = n.current_term;
  from = n.id;
  to = to;
  vote_granted = false;
  success = accepted;
  leader_id = "";
}

-- A heartbeat of this term or a later one: follow its sender.
unfoldable pub follow_leader : Node → Message → Node
follow_leader n m = record n {
  current_term = m.term;
  voted_for = if ltb n.current_term m.term then "" else n.voted_for;
  role = follower;
  leader_id = m.leader_id;
  election_elapsed = 0;
}

unfoldable pub handle_append_entries : Node → Message → Node
unfolding follow_leader
handle_append_entries n m =
    if ltb m.term n.current_term
    then send n (heartbeat_reply n m.from false)
    else let n' = follow_leader n m in send n' (heartbeat_reply n' m.leader_id true)

unfoldable pub handle_append_entries_resp : Node → Message → Node
unfolding become_follower
handle_append_entries_resp n m =
    if ltb n.current_term m.term
    then become_follower n m.term
    else if not (is_leader n.role) || not (m.term == n.current_term)
    then n
    else if m.success
    then record n { acks = insert str_dec m.from n.tick n.acks }
    else n

-- `handleLocked`, dispatched on the type of the message.
unfoldable pub handle_as : MessageType → Node → Message → Node
handle_as request_vote n m = handle_request_vote n m
handle_as request_vote_resp n m = handle_request_vote_resp n m
handle_as append_entries n m = handle_append_entries n m
handle_as append_entries_resp n m = handle_append_entries_resp n m

unfoldable pub handle : Node → Message → Node
unfolding handle_as
handle n m = handle_as m.kind n m

abbrev pub heartbeat : Node → String → Message
heartbeat n peer = record {
  kind = append_entries;
  term = n.current_term;
  from = n.id;
  to = peer;
  vote_granted = false;
  success = false;
  leader_id = n.id;
}

unfoldable pub broadcast_heartbeat : Node → Node
unfolding send_each
broadcast_heartbeat n = send_each (heartbeat n) n.peers n

-- The loop of `hasQuorumLocked`: peers whose last acknowledgement is fresh.
unfoldable pub fresh_peers : Node → List String → ℕ
fresh_peers n [] = 0
fresh_peers n (p ∷ ps) =
    let rest = fresh_peers n ps in
    elim (lookup str_dec p n.acks) [
      | none ↦ rest
      | some t ↦
          if leb (wrap64 (n.tick + 18_446_744_073_709_551_616 - t)) n.timing.quorum_ack
          then suc rest
          else rest
    ]

unfoldable pub has_quorum : Node → Bool
unfolding fresh_peers
has_quorum n = leb (majority_of (length n.members)) (1 + fresh_peers n n.peers)

-- The `Leader` case of `stepTimersLocked`: its heartbeat, then its quorum.
unfoldable pub beat : Node → Node
unfolding broadcast_heartbeat
beat n =
    let n' : Node = record n { heartbeat_elapsed = n.heartbeat_elapsed + 1 } in
    if leb n.timing.heartbeat n'.heartbeat_elapsed
    then record (broadcast_heartbeat n') { heartbeat_elapsed = 0 }
    else n'

unfoldable pub check_quorum : Node → Node
unfolding become_follower
check_quorum n =
    if has_quorum n
    then record n { quorum_miss_ticks = 0 }
    else let n' : Node = record n { quorum_miss_ticks = n.quorum_miss_ticks + 1 } in
      if leb n.timing.quorum_loss n'.quorum_miss_ticks
      then become_follower n' n'.current_term
      else n'

-- The other cases: the election timer.
unfoldable pub await_leader : Node → ℕ → Node
unfolding start_election
await_leader n draw =
    let n' : Node = record n { election_elapsed = n.election_elapsed + 1 } in
    if leb n.election_timeout n'.election_elapsed then start_election n' draw else n'

unfoldable pub step_timers_as : Role → Node → ℕ → Node
unfolding check_quorum beat await_leader
step_timers_as leader n draw = check_quorum (beat n)
step_timers_as follower n draw = await_leader n draw
step_timers_as candidate n draw = await_leader n draw

unfoldable pub step_timers : Node → ℕ → Node
unfolding step_timers_as
step_timers n draw = step_timers_as n.role n draw

unfoldable pub handle_all : Node → List Message → Node
unfolding handle
handle_all n [] = n
handle_all n (m ∷ ms) = handle_all (handle n m) ms

-- The part of `Tick` before its timers.
unfoldable pub drain_inbox : Node → Node
unfolding handle_all
drain_inbox n = handle_all (record n { tick = wrap64 (n.tick + 1); inbox = [] }) n.inbox

-- `Tick`: the node afterwards, and the messages that it hands to the transport.
unfoldable pub run_tick : Node → ℕ → Node × List Message
unfolding drain_inbox step_timers
run_tick n draw =
    let n' = step_timers (drain_inbox n) draw in (record n' { outbox = [] }, n'.outbox)

unfoldable pub receive : Node → Message → Node
receive n m = record n { inbox = n.inbox ++ m ∷ [] }
