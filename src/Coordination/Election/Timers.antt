-- ===== src/Coordination/Election/Timers.antt =====
-- The timers, and so a whole tick, keep what holds in the middle of it.
use symkernel.Base.{
  ℕ, ◌+◌, ◌<◌, ◌≡◌, refl, ◌∙◌, sym, subst, ◌≢◌, List, [], ◌∷◌, String, arith, Elem, All,
}
use symkernel.Coordination.Node.{
  Role, follower, candidate, leader, Message, Node, wrap64, send, send_each, candidate_of,
  vote_request, start_election,
}
use symkernel.Coordination.Receive.{
  handle, heartbeat, broadcast_heartbeat, beat, check_quorum, await_leader, step_timers_as,
  step_timers, handle_all, drain_inbox,
}
use symkernel.Coordination.Election.During.{Accounted, During, During-quiet, During-send_each}
use symkernel.Coordination.Election.Handlers.{
  Heard, Accounted-same, During-same, During-lead_if_elected, During-become_follower, During-handle,
}

role-send_each :
    (make : String → Message) (ps : List String) (n : Node) → (send_each make ps n).role ≡ n.role
unfolding send_each
role-send_each make [] n = refl
role-send_each make (p ∷ ps) n = role-send_each make ps (send n (make p))

role-beat : (n : Node) → (beat n).role ≡ n.role
unfolding beat broadcast_heartbeat
role-beat n =
    let n' : Node = record n { heartbeat_elapsed = n.heartbeat_elapsed + 1 } in
    ground (arith, role-send_each (heartbeat n') n.peers n')

module _ {start n : Node} {net : List Message} (d : During start net n) where
  During-beat : During start net (beat n)
  unfolding beat broadcast_heartbeat
  During-beat = ground (arith, d', sent, ended)
    where
      n' : Node
      n' = record n { heartbeat_elapsed = n.heartbeat_elapsed + 1 }

      d' : During start net n'
      d' = During-same (ground arith) refl refl refl d

      sent : During start net (send_each (heartbeat n') n.peers n')
      sent = During-send_each (heartbeat n') n.peers (λ p e. refl) (λ p e. ground arith) d'

      ended :
          During start net (record (send_each (heartbeat n') n.peers n') { heartbeat_elapsed = 0 })
      ended = During-same (ground arith) refl refl refl sent

  During-check_quorum : n.role ≡ leader → During start net (check_quorum n)
  unfolding check_quorum
  During-check_quorum e = ground (arith, missed, met, During-become_follower missed n.current_term)
    where
      n' : Node
      n' = record n { quorum_miss_ticks = n.quorum_miss_ticks + 1 }

      missed : During start net n'
      missed = During-same (ground arith) refl refl refl d

      met : During start net (record n { quorum_miss_ticks = 0 })
      met = During-same (ground arith) refl refl refl d

-- What a node must satisfy for its tick to be sound: it has a name, which no peer bears.
pub record Named (n : Node) : Type 0 where
  pub real : n.id ≢ ""
  pub others : (p : String) → Elem p n.peers → p ≢ n.id

abbrev pub max_term : ℕ
max_term = 18_446_744_073_709_551_615

module _ {start n : Node} {net : List Message} (d : During start net n) (draw : ℕ) where
  During-start_election :
      Named n → n.current_term < max_term → During start net (start_election n draw)
  unfolding start_election candidate_of
  During-start_election named room =
      During-lead_if_elected {n = send_each (vote_request c) n.peers c}
        (During-send_each (vote_request c) n.peers (λ p e. refl)
          (λ p e. (refl, λ _. named.others p e, λ g. cc)) standing)
        (λ e. cc (role-send_each (vote_request c) n.peers c))
    where
      c : Node
      c = candidate_of n draw

      standing : During start net c
      standing =
          During-quiet (ground arith)
            (record {
              for_self = λ _. refl;
              votes = λ _ v e. ground arith;
              distinct = (λ e. e, tt);
              enough = λ e. cc;
            })
            d

module _ {start n : Node} {net : List Message} (d : During start net n) (draw : ℕ) where
  During-await_leader : Named n → n.current_term < max_term → During start net (await_leader n draw)
  unfolding await_leader
  During-await_leader named room = ground (arith, waiting, elected)
    where
      n' : Node
      n' = record n { election_elapsed = n.election_elapsed + 1 }

      waiting : During start net n'
      waiting = During-same (ground arith) refl refl refl d

      elected : During start net (start_election n' draw)
      elected =
          During-start_election {n = n'} waiting draw
            (record { real = named.real; others = named.others }) room

  During-step_timers_as :
      (r : Role)
      → n.role ≡ r
      → Named n
      → n.current_term < max_term
      → During start net (step_timers_as r n draw)
  unfolding step_timers_as
  During-step_timers_as leader e named room =
      During-check_quorum {n = beat n} (During-beat d) (role-beat n ∙ e)
  During-step_timers_as follower e named room = During-await_leader named room
  During-step_timers_as candidate e named room = During-await_leader named room

  During-step_timers : Named n → n.current_term < max_term → During start net (step_timers n draw)
  unfolding step_timers
  During-step_timers named room = During-step_timers_as n.role refl named room

-- Each message of the inbox in turn.
During-handle_all :
    (start n : Node) (net ms : List Message)
    → start.id ≢ ""
    → All (Heard net start.id) ms
    → During start net n
    → During start net (handle_all n ms)
unfolding handle_all
During-handle_all start n net [] named heard d = d
During-handle_all start n net (m ∷ ms) named heard d =
    During-handle_all start (handle n m) net ms named heard.1
      (During-handle m d (rw d.same_id named) here)
  where
    here : Heard net n.id m
    here = subst (λ i. Heard net i m) (sym d.same_id) heard.0

-- The whole of a tick, from a node that can account for its votes and has an empty outbox.
module _ (n : Node) (net : List Message) (draw : ℕ) (named : Named n) (account : Accounted net n)
    (idle : n.outbox ≡ []) (heard : All (Heard net n.id) n.inbox) where
  begun : During n net (record n { tick = wrap64 (n.tick + 1); inbox = [] })
  begun = record {
    same_id = refl;
    same_peers = refl;
    same_members = refl;
    drained = refl;
    keeps = ground arith;
    accounted = Accounted-same (ground arith) account;
    fair = λ g e. absurd (subst (Elem g) idle e);
    one_vote = λ g h e. absurd (subst (Elem g) idle e);
  }

  drained : During n net (drain_inbox n)
  unfolding drain_inbox
  drained = During-handle_all n _ net n.inbox named.real heard begun

  pub During-tick :
      (drain_inbox n).current_term < max_term → During n net (step_timers (drain_inbox n) draw)
  During-tick room =
      During-step_timers drained draw
        (record {
          real = rw drained.same_id named.real;
          others = λ p e. rw drained.same_id (named.others p (subst (Elem p) drained.same_peers e));
        })
        room
