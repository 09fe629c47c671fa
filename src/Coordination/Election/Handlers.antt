-- ===== src/Coordination/Election/Handlers.antt =====
-- Every handler, and the timers, keep what holds in the middle of a tick.
use symkernel.Base.{
  ℕ, ◌<◌, ◌≡◌, refl, ◌∙◌, sym, subst, ◌≢◌, ◌⊎◌, inl, inr, List, [], ◌∷◌, true, false, String, arith,
  length, Elem, Bool-cases, leb, ltb, leb→le,
}
use symkernel.Coordination.Node.{
  follower, candidate, leader, MessageType, request_vote, request_vote_resp, append_entries,
  append_entries_resp, Message, Node, majority_of, add_vote, become_follower, lead_if_elected,
}
use symkernel.Coordination.Receive.{
  enter_term, may_grant, cast_vote, vote_reply, reply_vote, handle_request_vote, record_vote,
  handle_request_vote_resp, heartbeat_reply, follow_leader, handle_append_entries,
  handle_append_entries_resp, handle_as, handle,
}
use symkernel.Coordination.Election.During.{
  IsGrant, Distinct, Accounted, During, Quiet, During-quiet, During-send,
}

-- A message that reached the node: it was sent, to this node, and a request names another node.
pub record Heard (net : List Message) (i : String) (m : Message) : Type 0 where
  pub sent : Elem m net
  pub here : m.to ≡ i
  pub asks : m.kind ≡ request_vote → (m.from ≢ i) × (m.from ≢ "")

pub Elem-add_vote : (v x : String) (xs : List String) → Elem v (add_vote x xs) → (v ≡ x) ⊎ Elem v xs
unfolding add_vote
Elem-add_vote v x [] e = e
Elem-add_vote v x (y ∷ ys) e = ground (arith, Elem-add_vote v x ys)

Distinct-add_vote : (x : String) (xs : List String) → Distinct xs → Distinct (add_vote x xs)
unfolding add_vote
Distinct-add_vote x [] d = (λ e. e, tt)
Distinct-add_vote x (y ∷ ys) d = ground (arith, Distinct-add_vote x ys d.1, Elem-add_vote y x ys)

-- A follower has nothing to account for but its old set of votes.
Accounted-follower :
    {net : List Message} (n : Node) → n.role ≡ follower → Distinct n.votes → Accounted net n
Accounted-follower n e d = record {
  for_self = λ h. absurd (h e);
  votes = λ h. absurd (h e);
  distinct = d;
  enough = λ h. cc;
}

-- Nothing that the account speaks of differs.
pub record SameVote (n n' : Node) : Type 0 where
  pub role : n'.role ≡ n.role
  pub id : n'.id ≡ n.id
  pub voted_for : n'.voted_for ≡ n.voted_for
  pub votes : n'.votes ≡ n.votes
  pub term : n'.current_term ≡ n.current_term
  pub members : n'.members ≡ n.members

pub Accounted-same :
    {net : List Message} {n n' : Node} → SameVote n n' → Accounted net n → Accounted net n'
Accounted-same {n} {n'} s a = record {
  for_self = λ h. s.voted_for ∙ a.for_self (λ e. h (s.role ∙ e)) ∙ sym s.id;
  votes = λ h v e. rw (s.id, s.term) (a.votes (λ r. h (s.role ∙ r)) v (subst (Elem v) s.votes e));
  distinct = subst Distinct (sym s.votes) a.distinct;
  enough = λ h. rw (s.members, s.votes) (a.enough (sym s.role ∙ h));
}

-- A change of what neither the account nor the outbox speaks of.
pub During-same :
    {start n n' : Node} {net : List Message}
    → SameVote n n'
    → n'.peers ≡ n.peers
    → n'.inbox ≡ n.inbox
    → n'.outbox ≡ n.outbox
    → During start net n
    → During start net n'
During-same s p i o d = During-quiet (ground (arith, s)) (Accounted-same s d.accounted) d

Accounted-lead_if_elected :
    {net : List Message} (n : Node)
    → n.role ≢ follower
    → Accounted net n
    → Accounted net (lead_if_elected n)
unfolding lead_if_elected
Accounted-lead_if_elected n e a =
    elim (Bool-cases (leb (majority_of (length n.members)) (length n.votes))) [
      | inl won ↦ rw won (record {
        for_self = λ _. refl;
        votes = λ _. a.votes e;
        distinct = a.distinct;
        enough = λ _. leb→le _ _ won;
      })
      | inr lost ↦ rw lost a
    ]

Quiet-lead_if_elected : (n : Node) → n.role ≢ follower → Quiet n (lead_if_elected n)
unfolding lead_if_elected
Quiet-lead_if_elected n e = ground arith

module _ {start n : Node} {net : List Message} (d : During start net n) where
  pub During-lead_if_elected : n.role ≢ follower → During start net (lead_if_elected n)
  During-lead_if_elected e =
      During-quiet (Quiet-lead_if_elected n e) (Accounted-lead_if_elected n e d.accounted) d

  -- A higher term, or the step down of a leader.
  pub During-become_follower :
      (term : ℕ)
      → (n.current_term < term) ⊎ ((term ≡ n.current_term) × (n.role ≡ leader))
      → During start net (become_follower n term)
  unfolding become_follower
  During-become_follower term h =
      During-quiet {n' = become_follower n term} (ground arith)
        (Accounted-follower (become_follower n term) refl tt) d

  During-enter_term : (m : Message) → During start net (enter_term n m)
  unfolding enter_term
  During-enter_term m = elim (Bool-cases (ltb n.current_term m.term)) [
    | inl higher ↦
        rw higher (During-quiet (ground arith) (Accounted-follower _ refl d.accounted.distinct) d)
    | inr other ↦ rw other d
  ]

  During-cast_vote :
      (m : Message)
      → n.id ≢ ""
      → m.from ≢ n.id
      → may_grant n m ≡ true
      → (n.role ≡ follower) × During start net (cast_vote n m)
  unfolding may_grant cast_vote
  During-cast_vote m named other free =
      let e : n.role ≡ follower = ground (arith, d.accounted.for_self) in
      (e, During-quiet (ground arith) (Accounted-follower _ e d.accounted.distinct) d)

  During-reply_vote :
      (m : Message) → n.id ≢ "" → m.from ≢ n.id → m.from ≢ "" → During start net (reply_vote n m)
  unfolding reply_vote
  During-reply_vote m named other real = elim (Bool-cases (may_grant n m)) [
    | inl free ↦
        let (e, cast) = During-cast_vote m named other free in
        rw free (
          During-send (vote_reply n m true) (ground arith)
            (ground (arith, cast.keeps, cast.same_id)) cast)
    | inr taken ↦ rw taken (During-send (vote_reply n m false) refl (ground arith) d)
  ]

module _ {start n : Node} {net : List Message} (m : Message) (d : During start net n)
    (named : n.id ≢ "") (heard : Heard net n.id m) where
  During-handle_request_vote : m.kind ≡ request_vote → During start net (handle_request_vote n m)
  unfolding handle_request_vote enter_term
  During-handle_request_vote e =
      let (other, real) = heard.asks e in
      let same : (enter_term n m).id ≡ n.id = ground arith in
      During-reply_vote (During-enter_term d m) m (rw same named) (rw same other) real

  During-record_vote :
      n.role ≡ candidate → IsGrant m → m.term ≡ n.current_term → During start net (record_vote n m)
  unfolding record_vote
  During-record_vote e granted same =
      During-lead_if_elected {n = record n { votes = add_vote m.from n.votes }}
        (During-quiet (ground arith) accounted d) (λ f. cc)
    where
      accounted : Accounted net (record n { votes = add_vote m.from n.votes })
      accounted = record {
        for_self = d.accounted.for_self;
        votes = λ h v i. elim (Elem-add_vote v m.from n.votes i) [
          | inl new ↦ inr (m, heard.sent, granted, sym new, heard.here, same)
          | inr old ↦ d.accounted.votes h v old
        ];
        distinct = Distinct-add_vote m.from n.votes d.accounted.distinct;
        enough = λ h. cc;
      }

  During-handle_request_vote_resp :
      m.kind ≡ request_vote_resp → During start net (handle_request_vote_resp n m)
  unfolding handle_request_vote_resp
  During-handle_request_vote_resp e =
      ground (arith, During-become_follower d m.term, During-record_vote, d)

  During-handle_append_entries : During start net (handle_append_entries n m)
  unfolding handle_append_entries
  During-handle_append_entries = elim (Bool-cases (ltb m.term n.current_term)) [
    | inl stale ↦ rw stale (During-send (heartbeat_reply n m.from false) refl (ground arith) d)
    | inr current ↦ rw current (
        During-send (heartbeat_reply (follow_leader n m) m.leader_id true) refl (ground arith) (
          During-quiet (ground arith)
            (Accounted-follower (follow_leader n m) refl d.accounted.distinct) d))
  ]

  During-handle_append_entries_resp : During start net (handle_append_entries_resp n m)
  unfolding handle_append_entries_resp
  During-handle_append_entries_resp = ground (arith, During-become_follower d m.term, d, acked)
    where
      acked : (seen : List (String × ℕ)) → During start net (record n { acks = seen })
      acked seen = During-same (ground arith) refl refl refl d

  During-handle_as : (k : MessageType) → m.kind ≡ k → During start net (handle_as k n m)
  unfolding handle_as
  During-handle_as request_vote e = During-handle_request_vote e
  During-handle_as request_vote_resp e = During-handle_request_vote_resp e
  During-handle_as append_entries e = During-handle_append_entries
  During-handle_as append_entries_resp e = During-handle_append_entries_resp

  pub During-handle : During start net (handle n m)
  unfolding handle
  During-handle = During-handle_as m.kind refl
