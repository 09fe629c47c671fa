-- ===== src/Federation/Replicator/Kept.antt =====
-- internal/federation/replicator.go: every store stays a map from names to policies of that name.
use symkernel.Base.{
  ℕ, ◌≡◌, ◌≢◌, inl, inr, List, [], ◌∷◌, String, Option, none, some, str_dec, ℕ_discrete, arith,
  Option-cases, sym, subst,
}
use symkernel.Base.Dict.{lookup, erase}
use symkernel.Federation.Store.{Policy, MemoryStore, put, policies_of, list}
use symkernel.Federation.Transport.{
  Heap, LocalTransport, store_for, store_at, put_at, put_policy, list_policies, store_at-put_at,
}
use symkernel.Federation.Replicator.{
  Progress, Revision, older, same, newer, compare_revision, pull, push, skip, pushed_to, copy_newer,
  by_id, reconcile_policy, reconcile_locals, reconcile_remotes, reconcile_region, reconcile_listed,
}
use symkernel.Federation.Replicator.Keys.{IsKeyed, insert-IsKeyed}

abbrev pub AllKeyed : Heap → Type 0
AllKeyed h = (c : ℕ) → IsKeyed (store_at h c)

put-IsKeyed : (s : MemoryStore) (p : Policy) → IsKeyed s → IsKeyed (put s p)
unfolding put
put-IsKeyed s p v = insert-IsKeyed p s v

written :
    (h : Heap) (a c : ℕ) (p : Policy) → a ≡ c → store_at (put_at h a p) c ≡ put (store_at h a) p
written h a c p e = ground (arith, store_at-put_at h a c p)

unwritten : (h : Heap) (a c : ℕ) (p : Policy) → a ≢ c → store_at (put_at h a p) c ≡ store_at h c
unwritten h a c p ne = ground (arith, store_at-put_at h a c p)

pub put_at-AllKeyed : (h : Heap) (a : ℕ) (p : Policy) → AllKeyed h → AllKeyed (put_at h a p)
put_at-AllKeyed h a p v c = elim (ℕ_discrete a c) [
  | yes e ↦ subst IsKeyed (sym (written h a c p e)) (put-IsKeyed (store_at h a) p (v a))
  | no ne ↦ subst IsKeyed (sym (unwritten h a c p ne)) (v c)
]

push-AllKeyed :
    (t : LocalTransport) (region : String) (g : Progress) (p : Policy)
    → AllKeyed g.heap
    → AllKeyed (push t region g p).heap
unfolding push put_policy
push-AllKeyed t region g p v = elim (Option-cases (store_for t region)) [
  | inl e ↦
      subst
        (λ o.
          AllKeyed
            (pushed_to (elim o [ none ↦ none | some a ↦ some (put_at g.heap a p) ]) g p).heap)
        (sym e) v
  | inr (b, e) ↦
      subst
        (λ o.
          AllKeyed
            (pushed_to (elim o [ none ↦ none | some a ↦ some (put_at g.heap a p) ]) g p).heap)
        (sym e) (put_at-AllKeyed g.heap b p v)
]

copy-AllKeyed :
    (c : Revision) (t : LocalTransport) (region : String) (g : Progress) (p r : Policy)
    → AllKeyed g.heap
    → AllKeyed (copy_newer c t region g p r).heap
unfolding pull skip
copy-AllKeyed newer t region g p r v = push-AllKeyed t region g p v
copy-AllKeyed older t region g p r v = put_at-AllKeyed g.heap g.rep.store r v
copy-AllKeyed same t region g p r v = v

step-AllKeyed :
    (t : LocalTransport) (region : String) (g : Progress) (l r : Option Policy)
    → AllKeyed g.heap
    → AllKeyed (reconcile_policy t region g l r).heap
unfolding reconcile_policy pull skip
step-AllKeyed t region g none none v = v
step-AllKeyed t region g none (some r) v = put_at-AllKeyed g.heap g.rep.store r v
step-AllKeyed t region g (some p) none v = push-AllKeyed t region g p v
step-AllKeyed t region g (some p) (some r) v = copy-AllKeyed (compare_revision p r) t region g p r v

locals-AllKeyed :
    (t : LocalTransport) (region : String) (g : Progress) (m : MemoryStore) (ps : List Policy)
    → AllKeyed g.heap
    → AllKeyed (reconcile_locals t region g m ps).0.heap
unfolding reconcile_locals
locals-AllKeyed t region g m [] v = v
locals-AllKeyed t region g m (p ∷ ps) v =
    locals-AllKeyed t region (reconcile_policy t region g (some p) (lookup str_dec p.id m))
      (erase str_dec p.id m) ps (step-AllKeyed t region g (some p) (lookup str_dec p.id m) v)

remotes-AllKeyed :
    (t : LocalTransport) (region : String) (g : Progress) (ps : List Policy)
    → AllKeyed g.heap
    → AllKeyed (reconcile_remotes t region g ps).heap
unfolding reconcile_remotes
remotes-AllKeyed t region g [] v = v
remotes-AllKeyed t region g (p ∷ ps) v =
    remotes-AllKeyed t region (reconcile_policy t region g none (some p)) ps
      (step-AllKeyed t region g none (some p) v)

listed-AllKeyed :
    (o : Option (List Policy)) (t : LocalTransport) (region : String) (g : Progress)
    (local : List Policy)
    → AllKeyed g.heap
    → AllKeyed (reconcile_listed o t region g local).heap
listed-AllKeyed none t region g local v = v
listed-AllKeyed (some remote) t region g local v =
    let r = reconcile_locals t region g (by_id [] remote) local in
    remotes-AllKeyed t region r.0 (policies_of r.1)
      (locals-AllKeyed t region g (by_id [] remote) local v)

pub region-AllKeyed :
    (t : LocalTransport) (region : String) (g : Progress)
    → AllKeyed g.heap
    → AllKeyed (reconcile_region t region g).heap
unfolding reconcile_region
region-AllKeyed t region g v =
    listed-AllKeyed (list_policies t g.heap region) t region g (list (store_at g.heap g.rep.store))
      v
