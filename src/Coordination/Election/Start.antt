-- ===== src/Coordination/Election/Start.antt =====
-- The nodes that `NewCluster` makes satisfy the invariant.
use symkernel.Base.{
  ℕ, suc, ◌≡◌, refl, ◌∙◌, sym, ap, subst, ◌≢◌, ◌⊎◌, inl, inr, List, [], ◌∷◌, not, String, arith,
  length, Elem, All, str_dec, str_is, keep_if,
}
use symkernel.Base.Sort.{insert_string, sort_strings, length-sort_strings}
use symkernel.Coordination.Node.{new_node}
use symkernel.Coordination.Cluster.{
  System, Reach, start, later, peers_of, cluster_config, new_cluster,
}
use symkernel.Coordination.Election.During.{Distinct}
use symkernel.Coordination.Election.Invariant.{NodeInv, Inv}
use symkernel.Coordination.Election.Steps.{Step-Inv}

Elem-insert_string :
    (x s : String) (ts : List String) → Elem x (insert_string s ts) → (x ≡ s) ⊎ Elem x ts
unfolding insert_string
Elem-insert_string x s [] e = e
Elem-insert_string x s (t ∷ ts) e = ground (arith, Elem-insert_string x s ts)

Elem-sort_strings : (x : String) (ss : List String) → Elem x (sort_strings ss) → Elem x ss
unfolding sort_strings
Elem-sort_strings x [] e = e
Elem-sort_strings x (s ∷ ss) e = elim (Elem-insert_string x s (sort_strings ss) e) [
  | inl here ↦ inl here
  | inr rest ↦ inr (Elem-sort_strings x ss rest)
]

abbrev others : String → List String → List String
others i = keep_if (λ other. not (str_is other i))

Elem-others : (x i : String) (ids : List String) → Elem x (others i ids) → x ≢ i
unfolding keep_if
Elem-others x i [] e = absurd e
Elem-others x i (j ∷ ids) e = ground (arith, Elem-others x i ids)

length-others_absent :
    (i : String) (ids : List String) → ¬ Elem i ids → length (others i ids) ≡ length ids
unfolding keep_if
length-others_absent i [] h = refl
length-others_absent i (j ∷ ids) h = ground (arith, length-others_absent i ids)

length-others :
    (i : String) (ids : List String)
    → Distinct ids
    → Elem i ids
    → suc (length (others i ids)) ≡ length ids
unfolding keep_if
length-others i [] d e = absurd e
length-others i (j ∷ ids) d (inl e) =
    ground (arith, length-others_absent i ids (subst (λ k. ¬ Elem k ids) (sym e) d.0))
length-others i (j ∷ ids) d (inr e) = elim (str_dec j i) [
  | yes p ↦ absurd (d.0 (subst (λ k. Elem k ids) (sym p) e))
  | no p ↦ ground (arith, length-others i ids d.1 e)
]

NodeInv-new :
    (ids : List String) (i : String) (draw : ℕ)
    → Distinct ids
    → Elem i ids
    → NodeInv ids [] i (new_node (cluster_config ids i) draw)
unfolding new_node cluster_config
NodeInv-new ids i draw d e = record {
  is_named = refl;
  others = λ p q. Elem-others p i ids (Elem-sort_strings p (others i ids) q);
  size =
      length-sort_strings (i ∷ peers_of ids i)
      ∙ ap suc (length-sort_strings (others i ids))
      ∙ length-others i ids d e;
  idle = refl;
  heard = tt;
  account = record {
    for_self = λ h. absurd (h refl);
    votes = λ h. absurd (h refl);
    distinct = tt;
    enough = λ h. cc;
  };
}

-- The invariant holds in every state that a cluster reaches.
pub Reach-Inv :
    {ids : List String} {draws : String → ℕ} {s : System}
    → Distinct ids
    → All (λ i. i ≢ "") ids
    → Reach ids draws s
    → Inv ids s
unfolding new_cluster
Reach-Inv {ids} {draws} distinct names start = record {
  node = λ i e. NodeInv-new ids i (draws i) distinct e;
  grants = λ g e. absurd e;
  one_vote = λ g h e. absurd e;
  requests = λ m e. absurd e;
}
Reach-Inv distinct names (later r st) = Step-Inv names st (Reach-Inv distinct names r)
