-- ===== src/Coordination/Election/During.antt =====
-- What holds of a node in the middle of a tick, against the node that began the tick.
use symkernel.Base.{
  ℕ, ◌≤◌, ◌≡◌, refl, ◌∙◌, sym, ap, subst, ◌≢◌, ◌⊎◌, inl, inr, List, [], ◌∷◌, ◌++◌, true, String,
  arith, length, Elem-append_cases, Elem,
}
use symkernel.Coordination.Node.{
  follower, leader, request_vote, request_vote_resp, Message, Node, majority_of, send, send_each,
}

abbrev pub IsGrant : Message → Type 0
IsGrant m = (m.kind ≡ request_vote_resp) × (m.vote_granted ≡ true)

-- Some message of the net grants the vote of `v` to `c` in a term.
abbrev pub Granted : List Message → String → String → ℕ → Type 0
Granted net v c term =
    (m : Message) × Elem m net × IsGrant m × (m.from ≡ v) × (m.to ≡ c) × (m.term ≡ term)

abbrev pub Distinct : List String → Type 0
Distinct [] = Unit
Distinct (x ∷ xs) = (¬ Elem x xs) × Distinct xs

-- A candidate or leader has voted for itself, and can account for its votes.
pub record Accounted (net : List Message) (n : Node) : Type 0 where
  pub for_self : n.role ≢ follower → n.voted_for ≡ n.id
  pub votes :
      n.role ≢ follower
      → (v : String) → Elem v n.votes
      → (v ≡ n.id) ⊎ Granted net v n.id n.current_term
  pub distinct : Distinct n.votes
  pub enough : n.role ≡ leader → majority_of (length n.members) ≤ length n.votes

-- A message that the node has put out: its request, or its vote.
abbrev pub Fair : Node → Node → Message → Type 0
Fair start n g =
    (g.from ≡ n.id)
    × (g.kind ≡ request_vote → g.to ≢ n.id)
    × (IsGrant g
        → (g.to ≢ n.id)
          × (g.to ≢ "")
          × (g.term ≤ n.current_term)
          × (g.term ≡ n.current_term → (n.role ≡ follower) × (n.voted_for ≡ g.to))
          × (start.current_term ≤ g.term)
          × (start.current_term ≡ g.term
              → start.role ≡ follower
              → start.voted_for ≢ ""
              → start.voted_for ≡ g.to))

-- Within a term a follower stays one and keeps the vote that it has cast.
abbrev pub Keeps : Node → Node → Type 0
Keeps n n' =
    (n.current_term ≤ n'.current_term)
    × (n.current_term ≡ n'.current_term
        → n.role ≡ follower
        → (n'.role ≡ follower) × (n.voted_for ≢ "" → n'.voted_for ≡ n.voted_for))

pub record During (start : Node) (net : List Message) (n : Node) : Type 0 where
  pub same_id : n.id ≡ start.id
  pub same_peers : n.peers ≡ start.peers
  pub same_members : n.members ≡ start.members
  pub drained : n.inbox ≡ []
  pub keeps : Keeps start n
  pub accounted : Accounted net n
  pub fair : (g : Message) → Elem g n.outbox → Fair start n g
  pub one_vote :
      (g h : Message)
      → Elem g n.outbox
      → Elem h n.outbox
      → IsGrant g
      → IsGrant h
      → g.term ≡ h.term
      → g.to ≡ h.to

-- A change of state that puts out no message.
pub record Quiet (n n' : Node) : Type 0 where
  pub same_id : n'.id ≡ n.id
  pub same_peers : n'.peers ≡ n.peers
  pub same_members : n'.members ≡ n.members
  pub same_inbox : n'.inbox ≡ n.inbox
  pub same_outbox : n'.outbox ≡ n.outbox
  pub keeps : Keeps n n'

Fair-Quiet : (start n n' : Node) (g : Message) → Quiet n n' → Fair start n g → Fair start n' g
Fair-Quiet start n n' g q f = ground arith

pub During-quiet :
    {start n n' : Node} {net : List Message}
    → Quiet n n'
    → Accounted net n'
    → During start net n
    → During start net n'
During-quiet {start} {n} {n'} q a d = record {
  same_id = q.same_id ∙ d.same_id;
  same_peers = q.same_peers ∙ d.same_peers;
  same_members = q.same_members ∙ d.same_members;
  drained = q.same_inbox ∙ d.drained;
  keeps = ground (arith, q.keeps, d.keeps);
  accounted = a;
  fair = λ g e. Fair-Quiet start n n' g q (d.fair g (subst (Elem g) q.same_outbox e));
  one_vote = λ g h eg eh.
      d.one_vote g h (subst (Elem g) q.same_outbox eg) (subst (Elem h) q.same_outbox eh);
}

Accounted-send :
    {net : List Message} {n : Node} (m : Message) → Accounted net n → Accounted net (send n m)
Accounted-send m a = record {
  for_self = a.for_self;
  votes = a.votes;
  distinct = a.distinct;
  enough = a.enough;
}

-- A message of the current term that is fair joins the outbox.
pub During-send :
    {start n : Node} {net : List Message} (m : Message)
    → m.term ≡ n.current_term
    → Fair start n m
    → During start net n
    → During start net (send n m)
During-send {start} {n} m now fresh d = record {
  same_id = d.same_id;
  same_peers = d.same_peers;
  same_members = d.same_members;
  drained = d.drained;
  keeps = d.keeps;
  accounted = Accounted-send m d.accounted;
  fair = fair;
  one_vote = one_vote;
}
  where
    fair : (g : Message) → Elem g (n.outbox ++ m ∷ []) → Fair start n g
    fair g e = elim (Elem-append_cases g n.outbox (m ∷ []) e) [
      | inl old ↦ d.fair g old
      | inr (inl new) ↦ rw new fresh
      | inr (inr none) ↦ absurd none
    ]

    -- Two fair votes of the current term are both for the node that `n` has voted for.
    current :
        (g : Message) → Fair start n g → IsGrant g → g.term ≡ n.current_term → n.voted_for ≡ g.to
    current g f granted e = ground arith

    one_vote :
        (g h : Message)
        → Elem g (n.outbox ++ m ∷ [])
        → Elem h (n.outbox ++ m ∷ [])
        → IsGrant g
        → IsGrant h
        → g.term ≡ h.term
        → g.to ≡ h.to
    one_vote g h eg eh gg gh same = elim (Elem-append_cases g n.outbox (m ∷ []) eg) [
      | inl old ↦ elim (Elem-append_cases h n.outbox (m ∷ []) eh) [
        | inl old' ↦ d.one_vote g h old old' gg gh same
        | inr (inl new) ↦
            let e : g.term ≡ n.current_term = same ∙ ap (λ (x : Message). x.term) new ∙ now in
            sym (current g (fair g eg) gg e) ∙ current h (fair h eh) gh (sym same ∙ e)
        | inr (inr none) ↦ absurd none
      ]
      | inr (inl new) ↦
          let e : g.term ≡ n.current_term = ap (λ (x : Message). x.term) new ∙ now in
          sym (current g (fair g eg) gg e) ∙ current h (fair h eh) gh (sym same ∙ e)
      | inr (inr none) ↦ absurd none
    ]

pub During-send_each :
    {start n : Node} {net : List Message} (make : String → Message) (ps : List String)
    → ((p : String) → Elem p ps → (make p).term ≡ n.current_term)
    → ((p : String) → Elem p ps → Fair start n (make p))
    → During start net n
    → During start net (send_each make ps n)
unfolding send_each
During-send_each make [] now fresh d = d
During-send_each {start} {n} make (p ∷ ps) now fresh d =
    During-send_each {n = send n (make p)} make ps (λ q e. now q (inr e)) (λ q e. fresh q (inr e))
      (During-send (make p) (now p (inl refl)) (fresh p (inl refl)) d)
