-- ===== src/Coordination/Election/Steps.antt =====
-- Each step of a cluster keeps the invariant.
use symkernel.Base.{
  Elem-append_cases, ℕ, ◌+◌, ◌≡◌, refl, ◌∙◌, sym, subst, ◌≢◌, inl, inr, List, [], ◌∷◌, ◌++◌, ◌%◌,
  not, Bool-cases, Option-cases, get_elem?, String, arith, length, Elem, All, All-append, All-Elem,
  str_dec,
}
use symkernel.Coordination.Node.{Message, Node}
use symkernel.Coordination.Receive.{is_leader, receive, drain_inbox, step_timers, run_tick}
use symkernel.Coordination.Work.{assign, assign_to, load_of}
use symkernel.Base.Dict.{insert}
use symkernel.Coordination.Cluster.{System, update, Step, arrives, ticks, assigns}
use symkernel.Coordination.Election.During.{IsGrant, Fair, During}
use symkernel.Coordination.Election.Handlers.{Heard, Accounted-same}
use symkernel.Coordination.Election.Timers.{During-tick}
use symkernel.Coordination.Election.Invariant.{
  NodeInv, Recorded, Inv, update_cases, NodeInv-wider, Accounted-wider,
}

-- A change of one node that the invariant does not look at.
module _ {ids : List String} {s : System} (v : Inv ids s) (i : String) (n' : Node)
    (same : NodeInv ids s.sent i (s.nodes i) → NodeInv ids s.sent i n')
    (kept : (g : Message) → Recorded ids g (s.nodes i) → Recorded ids g n') where
  Inv-local : Inv ids (record s { nodes = update s.nodes i n' })
  Inv-local = record {
    node = λ j e.
        update_cases (NodeInv ids s.sent) s.nodes i n' j
          (λ p.
            subst (λ k. NodeInv ids s.sent k n') p
              (same (v.node i (subst (λ k. Elem k ids) (sym p) e))))
          (λ _. v.node j e);
    grants = λ g e granted.
        update_cases (λ _ n. Recorded ids g n) s.nodes i n' g.from
          (λ p. kept g (rw p (v.grants g e granted))) (λ _. v.grants g e granted);
    one_vote = v.one_vote;
    requests = v.requests;
  }

Inv-arrives :
    {ids : List String} {s : System} (m : Message)
    → Elem m s.sent
    → Inv ids s
    → Inv ids (record s { nodes = update s.nodes m.to (receive (s.nodes m.to) m) })
unfolding receive
Inv-arrives {ids} {s} m e v =
    Inv-local v m.to (receive (s.nodes m.to) m)
      (λ w. record {
        is_named = w.is_named;
        others = w.others;
        size = w.size;
        idle = w.idle;
        heard =
            All-append (Heard s.sent (s.nodes m.to).id) _ (m ∷ []) w.heard (heard w.is_named, tt);
        account = Accounted-same (ground arith) w.account;
      })
      (λ g r. record {
        member = r.member;
        other = r.other;
        real = r.real;
        reached = r.reached;
        holds = r.holds;
      })
  where
    heard : (s.nodes m.to).id ≡ m.to → Heard s.sent (s.nodes m.to).id m
    heard p = record {
      sent = e;
      here = sym p;
      asks = λ k. (λ q. (v.requests m e k).0 (q ∙ p), (v.requests m e k).1);
    }

-- Assigning work touches only the books of the work.
assign-form :
    (n : Node)
    → (i : ℕ) × (load : List (String × ℕ)) × ((assign n).0
        ≡ record n { rr_index = i; node_load = load })
unfolding assign
assign-form n = elim (Bool-cases (not (is_leader n.role))) [
  | inl other ↦ (n.rr_index, n.node_load, rw other)
  | inr leads ↦ elim (Option-cases (get_elem? n.members ((n.rr_index + 1) % length n.members))) [
    | inl missing ↦
        ((n.rr_index + 1) % length n.members, n.node_load, rw (leads, missing, assign_to))
    | inr (target, found) ↦ (
      (n.rr_index + 1) % length n.members,
      insert str_dec target (load_of n.node_load target + 1) n.node_load,
      rw (leads, found, assign_to),
    )
  ]
]

Inv-assigns :
    {ids : List String} {s : System} (i : String)
    → Inv ids s
    → Inv ids (record s { nodes = update s.nodes i (assign (s.nodes i)).0 })
Inv-assigns {ids} {s} i v =
    let (index, load, e) = assign-form (s.nodes i) in
    rw e (
      Inv-local v i (record (s.nodes i) { rr_index = index; node_load = load })
        (λ w. record {
          is_named = w.is_named;
          others = w.others;
          size = w.size;
          idle = w.idle;
          heard = w.heard;
          account = Accounted-same (ground arith) w.account;
        })
        (λ g r. record {
          member = r.member;
          other = r.other;
          real = r.real;
          reached = r.reached;
          holds = r.holds;
        }))

-- One tick of a node `n` that ends, before the outbox is emptied, as `n'`.
module _ {ids : List String} {s : System} (v : Inv ids s) (i : String) (e : Elem i ids)
    (real : i ≢ "") (n' : Node) (d : During (s.nodes i) s.sent n') where
  abbrev net : List Message
  net = s.sent ++ n'.outbox

  abbrev after : Node
  after = record n' { outbox = [] }

  own : NodeInv ids s.sent i (s.nodes i)
  own = v.node i e

  own_id : n'.id ≡ i
  own_id = d.same_id ∙ own.is_named

  ticked : NodeInv ids net i after
  ticked = record {
    is_named = own_id;
    others = λ p q. rw d.same_id (own.others p (subst (Elem p) d.same_peers q));
    size = rw d.same_members own.size;
    idle = refl;
    heard = rw d.drained tt;
    account = Accounted-wider n'.outbox (Accounted-same (ground arith) d.accounted);
  }

  -- An old vote of the node is still on record.
  old_vote : (g : Message) → Recorded ids g (s.nodes i) → Recorded ids g after
  old_vote g r = record {
    member = r.member;
    other = r.other;
    real = r.real;
    reached = ground (arith, r.reached, d.keeps);
    holds = λ same. ground (arith, r.reached, r.holds, r.real, d.keeps);
  }

  new_vote : (g : Message) → Elem g n'.outbox → IsGrant g → Recorded ids g after
  new_vote g q granted =
      let f : Fair (s.nodes i) n' g = d.fair g q in
      record {
        member = rw (f.0, own_id) e;
        other = λ p. (f.2 granted).0 (sym p ∙ f.0);
        real = (f.2 granted).1;
        reached = (f.2 granted).2;
        holds = (f.2 granted).3;
      }

  -- Votes of one giver and term, whether they were sent before or in this tick.
  mixed :
      (g h : Message)
      → Elem g s.sent
      → Elem h n'.outbox
      → IsGrant g
      → IsGrant h
      → g.from ≡ h.from
      → g.term ≡ h.term
      → g.to ≡ h.to
  mixed g h eg eh gg gh from term =
      let f : Fair (s.nodes i) n' h = d.fair h eh in
      let giver : g.from ≡ i = from ∙ f.0 ∙ own_id in
      let r : Recorded ids g (s.nodes i) =
        subst (λ k. Recorded ids g (s.nodes k)) giver (v.grants g eg gg) in
      let votes = f.2 gh in ground (arith, r.reached, r.holds, r.real, votes)

  Inv-tick : Inv ids (record { nodes = update s.nodes i after; sent = net })
  Inv-tick = record {
    node = λ j q.
        update_cases (NodeInv ids net) s.nodes i after j
          (λ p. subst (λ k. NodeInv ids net k after) p ticked)
          (λ _. NodeInv-wider n'.outbox (v.node j q));
    grants = λ g q granted. elim (Elem-append_cases g s.sent n'.outbox q) [
      | inl old ↦
          update_cases (λ _ n. Recorded ids g n) s.nodes i after g.from
            (λ p. old_vote g (rw p (v.grants g old granted))) (λ _. v.grants g old granted)
      | inr new ↦
          update_cases (λ _ n. Recorded ids g n) s.nodes i after g.from
            (λ _. new_vote g new granted)
            (λ other. absurd (other (sym ((d.fair g new).0 ∙ own_id))))
    ];
    one_vote = λ g h qg qh gg gh from term. elim (Elem-append_cases g s.sent n'.outbox qg) [
      | inl old ↦ elim (Elem-append_cases h s.sent n'.outbox qh) [
        | inl old' ↦ v.one_vote g h old old' gg gh from term
        | inr new ↦ mixed g h old new gg gh from term
      ]
      | inr new ↦ elim (Elem-append_cases h s.sent n'.outbox qh) [
        | inl old ↦ sym (mixed h g old new gh gg (sym from) (sym term))
        | inr new' ↦ d.one_vote g h new new' gg gh term
      ]
    ];
    requests = λ m q asks. elim (Elem-append_cases m s.sent n'.outbox q) [
      | inl old ↦ v.requests m old asks
      | inr new ↦
          let f : Fair (s.nodes i) n' m = d.fair m new in
          (λ p. f.1 asks (sym p ∙ f.0), λ p. real (sym own_id ∙ sym f.0 ∙ p))
    ];
  }

-- Every step keeps the invariant, where the names of the nodes are not empty.
pub Step-Inv :
    {ids : List String} {s t : System}
    → All (λ i. i ≢ "") ids
    → Step ids s t
    → Inv ids s
    → Inv ids t
Step-Inv {ids} {s} names (arrives m e) v = Inv-arrives m e v
Step-Inv names (assigns i) v = Inv-assigns i v
Step-Inv {ids} {s} names (ticks i draw e room) v =
    let w = v.node i e in
    let real : i ≢ "" = All-Elem (λ j. j ≢ "") i ids names e in
    unfold run_tick in
    Inv-tick v i e real (step_timers (drain_inbox (s.nodes i)) draw) (
      During-tick (s.nodes i) s.sent draw
        (record { real = λ p. real (sym w.is_named ∙ p); others = w.others }) w.account w.idle
        w.heard room)
