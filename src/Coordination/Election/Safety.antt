-- ===== src/Coordination/Election/Safety.antt =====
-- One leader in a term.
use symkernel.Base.{ℕ, ◌≡◌, ◌∙◌, sym, subst, ◌≢◌, ◌⊎◌, inl, inr, List, String, Elem, All}
use symkernel.Coordination.Node.{leader}
use symkernel.Coordination.Cluster.{System, Reach}
use symkernel.Coordination.Election.During.{Granted, Distinct}
use symkernel.Coordination.Election.Invariant.{Inv, Recorded}
use symkernel.Coordination.Election.Start.{Reach-Inv}
use symkernel.Coordination.Election.Majority.{majorities_meet}

module _ {ids : List String} {s : System} (v : Inv ids s) where
  -- The votes of a leader come from members, and make a majority.
  voters :
      (i : String)
      → Elem i ids
      → (s.nodes i).role ≡ leader
      → (x : String) → Elem x (s.nodes i).votes
      → (x ≡ i) ⊎ Granted s.sent x i (s.nodes i).current_term
  voters i e l x q =
      let w = v.node i e in
      elim (w.account.votes (λ f. cc) x q) [
        | inl self ↦ inl (self ∙ w.is_named)
        | inr granted ↦
            inr (subst (λ k. Granted s.sent x k (s.nodes i).current_term) w.is_named granted)
      ]

  voter_member :
      (i : String)
      → Elem i ids
      → (s.nodes i).role ≡ leader
      → (x : String) → Elem x (s.nodes i).votes
      → Elem x ids
  voter_member i e l x q = elim (voters i e l x q) [
    | inl self ↦ subst (λ k. Elem k ids) (sym self) e
    | inr (g, sent, granted, from, _, _) ↦
        subst (λ k. Elem k ids) from (v.grants g sent granted).member
  ]

  -- A node that gave its vote away in a term does not lead in that term.
  giver_follows :
      (i j : String) → (s.nodes i).role ≡ leader → ¬ Granted s.sent i j (s.nodes i).current_term
  giver_follows i j l (g, sent, granted, from, to, term) =
      let r = subst (λ k. Recorded ids g (s.nodes k)) from (v.grants g sent granted) in
      cc (r.holds term).0

  one_leader :
      (i j : String)
      → Elem i ids
      → Elem j ids
      → (s.nodes i).role ≡ leader
      → (s.nodes j).role ≡ leader
      → (s.nodes i).current_term ≡ (s.nodes j).current_term
      → i ≡ j
  one_leader i j ei ej li lj same =
      let wi = v.node i ei in
      let wj = v.node j ej in
      let (x, xi, xj) =
        majorities_meet ids (s.nodes i).votes (s.nodes j).votes wi.account.distinct
          wj.account.distinct (voter_member i ei li) (voter_member j ej lj)
          (rw (← wi.size) (wi.account.enough li)) (rw (← wj.size) (wj.account.enough lj)) in
      elim (voters i ei li x xi) [
        | inl at_i ↦ elim (voters j ej lj x xj) [
          | inl at_j ↦ sym at_i ∙ at_j
          | inr given ↦ absurd (
              giver_follows i j li
                (rw same (subst (λ k. Granted s.sent k j (s.nodes j).current_term) at_i given)))
        ]
        | inr (g, sent, grants, from, to, term) ↦ elim (voters j ej lj x xj) [
          | inl at_j ↦ absurd (
              giver_follows j i lj (
                rw (← same) (
                  subst (λ k. Granted s.sent k i (s.nodes i).current_term) at_j
                    (g, sent, grants, from, to, term))))
          | inr (h, sent', grants', from', to', term') ↦
              sym to
              ∙ v.one_vote g h sent sent' grants grants' (from ∙ sym from')
                  (term ∙ same ∙ sym term')
              ∙ to'
        ]
      ]

-- In every state that a cluster of distinct, non-empty names can reach, however messages are
-- delayed, lost, repeated or reordered and whatever timeouts the nodes draw, two nodes that lead
-- in the same term are one node. (No term counter wraps.)
pub election_safety :
    (ids : List String) (draws : String → ℕ) (s : System) (i j : String)
    → Distinct ids
    → All (λ k. k ≢ "") ids
    → Reach ids draws s
    → Elem i ids
    → Elem j ids
    → (s.nodes i).role ≡ leader
    → (s.nodes j).role ≡ leader
    → (s.nodes i).current_term ≡ (s.nodes j).current_term
    → i ≡ j
election_safety ids draws s i j distinct names r = one_leader (Reach-Inv distinct names r) i j
