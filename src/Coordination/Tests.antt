-- ===== src/Coordination/Tests.antt =====
-- Runs of a cluster of internal/distributed/coordination, and the theorems at them.
use symkernel.Base.{
  zero, ℕ, suc, ◌≡◌, refl, ◌≢◌, inl, inr, List, [], ◌∷◌, ◌++◌, true, false, String, some, arith,
  get_elem?, str_dec, Elem, All, keep_if, ltb, ltb→lt,
}
use text.Mathlib.TextEquality.{eq_iff}
use symkernel.Base.Dict.{lookup, insert}
use symkernel.Base.Sort.{str_leb, insert_string, sort_strings}
use symkernel.Coordination.Node.{
  follower, leader, request_vote, request_vote_resp, Message, Node, new_node, start_election,
}
use symkernel.Coordination.Receive.{
  handle_all, step_timers, run_tick, receive, drain_inbox, has_quorum, check_quorum,
  handle_request_vote, handle_request_vote_resp,
}
use symkernel.Coordination.Work.{to_member, assign}
use symkernel.Coordination.Cluster.{
  System, update, peers_of, new_cluster, arrives, ticks, Reach, start, later,
}
use symkernel.Coordination.Election.During.{Distinct}
use symkernel.Coordination.Election.Safety.{election_safety}
use symkernel.Coordination.Deal.{deal, assign_takes_turns}
use symkernel.Coordination.Quorum.{
  IsAlone, run_ticks, lonely_leader_steps_down, vote_after_step_down,
}

program : Unit {0}
unfolding lookup insert str_leb insert_string sort_strings keep_if str_dec new_node start_election
    handle_all step_timers run_tick receive drain_inbox has_quorum check_quorum handle_request_vote
    handle_request_vote_resp assign peers_of new_cluster deal run_ticks
program = tt

abbrev ids : List String
ids = "a" ∷ "b" ∷ "c" ∷ []

abbrev zeros : String → ℕ
zeros i = 0

abbrev tick_of : System → String → System
tick_of s i = record {
  nodes = update s.nodes i (run_tick (s.nodes i) 0).0;
  sent = s.sent ++ (run_tick (s.nodes i) 0).1;
}

abbrev arrival : System → Message → System
arrival s m = record s { nodes = update s.nodes m.to (receive (s.nodes m.to) m) }

abbrev waited : ℕ → System
waited zero = new_cluster ids zeros
waited (suc k) = tick_of (waited k) "a"

abbrev request : Message
request = record {
  kind = request_vote;
  term = 1;
  from = "a";
  to = "b";
  vote_granted = false;
  success = false;
  leader_id = "";
}

asked : (waited 8).sent ≡ request ∷ record request { to = "c" } ∷ []
unfolding program
asked = refl

abbrev grant : Message
grant = record {
  kind = request_vote_resp;
  term = 1;
  from = "b";
  to = "a";
  vote_granted = true;
  success = false;
  leader_id = "";
}

abbrev voted : System
voted = tick_of (arrival (waited 8) request) "b"

abbrev elected : System
elected = tick_of (arrival voted grant) "a"

tick-Reach :
    {s : System} (i : String)
    → Elem i ids
    → ltb (drain_inbox (s.nodes i)).current_term 18_446_744_073_709_551_615 ≡ true
    → Reach ids zeros s
    → Reach ids zeros (tick_of s i)
tick-Reach {s} i e room r = later r (ticks i 0 e (ltb→lt _ _ room))

waited-Reach : Reach ids zeros (waited 8)
unfolding program
waited-Reach = a (a (a (a (a (a (a (a start refl) refl) refl) refl) refl) refl) refl) refl
  where
    a :
        {s : System}
        → Reach ids zeros s
        → ltb (drain_inbox (s.nodes "a")).current_term 18_446_744_073_709_551_615 ≡ true
        → Reach ids zeros (tick_of s "a")
    a r room = tick-Reach "a" (inl refl) room r

elected-Reach : Reach ids zeros elected
unfolding program
elected-Reach = tick-Reach "a" (inl refl) refl (
    later (tick-Reach "b" (inr (inl refl)) refl (later waited-Reach (arrives request (inl refl))))
      (arrives grant (inr (inr (inl refl)))))

elected_leads : (elected.nodes "a").role ≡ leader
unfolding program
elected_leads = refl

ids-Distinct : Distinct ids
ids-Distinct = ground (arith, eq_iff "a" "b", eq_iff "a" "c", eq_iff "b" "c")

ids_real : All (λ i. i ≢ "") ids
ids_real = ground (arith, eq_iff "a" "", eq_iff "b" "", eq_iff "c" "")

election_safety_example : ◌≡◌ {A = String} "a" "a"
election_safety_example =
    election_safety ids zeros elected "a" "a" ids-Distinct ids_real elected-Reach (inl refl)
      (inl refl) elected_leads elected_leads refl

-- The leader just elected, before any acknowledgement.
abbrev lone : Node
lone = elected.nodes "a"

lone-IsAlone : IsAlone lone
unfolding program
lone-IsAlone = record {
  leads = refl;
  quiet = refl;
  several = omega arith;
  unheard = (refl, (refl, tt));
}

lonely_leader_steps_down_example : (run_ticks lone (0 ∷ 0 ∷ 0 ∷ 0 ∷ [])).role ≡ follower
unfolding program
lonely_leader_steps_down_example =
    (lonely_leader_steps_down lone (0 ∷ 0 ∷ 0 ∷ 0 ∷ []) lone-IsAlone).1 (omega arith) refl

abbrev late : Message
late = record request { from = "c"; to = "a" }

abbrev tired : Node
tired = run_ticks lone (0 ∷ 0 ∷ 0 ∷ [])

vote_after_step_down_example : (handle_request_vote (check_quorum tired) late).voted_for ≡ "c"
unfolding program
vote_after_step_down_example = (vote_after_step_down tired late refl (omega arith) refl).1

assign_takes_turns_example :
    (target : String) × (get_elem? lone.members 2 ≡ some target)
    × ((assign (deal 2 lone)).1 ≡ to_member target)
unfolding program
assign_takes_turns_example = assign_takes_turns 2 lone refl (omega arith)
