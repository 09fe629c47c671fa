-- ===== src/Federation/Replicator/Pass.antt =====
-- internal/federation/replicator.go: what each loop of a pass writes, name by name.
use symkernel.Base.{
  ℕ, ◌≤◌, ◌≡◌, ◌≢◌, refl, List, [], ◌∷◌, true, String, Option, none, some, if◌then◌else◌, str_dec,
  str_is, arith, ap, ◌∙◌,
}
use symkernel.Base.Dict.{lookup, erase, lookup-erase}
use symkernel.Federation.Store.{Policy, MemoryStore}
use symkernel.Federation.Transport.{
  Heap, LocalTransport, store_for, put_at, get_at, put_policy, get_at-put_at,
}
use symkernel.Federation.Replicator.{
  Progress, older, newer, compare_revision, pull, push, skip, pushed_to, reconcile_policy,
  reconcile_locals, reconcile_remotes,
}
use symkernel.Federation.Replicator.Keys.{
  IsKeyed, named, copies, find_policy, find-missing, copies-cons, erase-IsKeyed, lookup-named,
}

abbrev pub Named : String → Option Policy → Type 0
Named id none = Unit
Named id (some r) = str_is r.id id ≡ true

-- What the local side has after a local policy met the remote one, `old` if it is left alone.
abbrev pub local_after : Policy → Option Policy → Option Policy → Option Policy
local_after p none old = old
local_after p (some r) old = elim (compare_revision p r) [ older ↦ some r | _ ↦ old ]

abbrev pub remote_after : Policy → Option Policy → Option Policy → Option Policy
remote_after p none old = some p
remote_after p (some r) old = elim (compare_revision p r) [ newer ↦ some p | _ ↦ old ]

copies_tail : (j : String) (p : Policy) (ps : List Policy) → copies j ps ≤ copies j (p ∷ ps)
copies_tail j p ps = ground (arith, copies-cons j p ps)

own_name :
    (id : String) (o : Option Policy) → ((p : Policy) → o ≡ some p → named id p ≡ true) → Named id o
own_name id none h = tt
own_name id (some p) h = h p refl

lookup-Named : (id : String) (m : MemoryStore) → IsKeyed m → Named id (lookup str_dec id m)
lookup-Named id m v = own_name id (lookup str_dec id m) (λ p e. lookup-named id m p v e)

module _ (t : LocalTransport) (region : String) (a b : ℕ) (apart : a ≢ b)
    (mounted : store_for t region ≡ some b) where
  puts : (h : Heap) (p : Policy) → put_policy t h region p ≡ some (put_at h b p)
  unfolding put_policy
  puts h p = ground (arith, mounted)

  pushes :
      (g : Progress) (p : Policy) → push t region g p ≡ pushed_to (some (put_at g.heap b p)) g p
  unfolding push
  pushes g p = ap (λ o. pushed_to o g p) (puts g.heap p)

  -- A pass of one policy keeps the address of the local store, and fails nowhere.
  pub stays :
      (g : Progress) (l r : Option Policy)
      → ((reconcile_policy t region g l r).rep.store ≡ g.rep.store)
        × ((reconcile_policy t region g l r).failures ≡ g.failures)
  unfolding reconcile_policy pull skip
  stays g none none = (refl, refl)
  stays g none (some r) = (refl, refl)
  stays g (some p) none = rw (pushes g p) (refl, refl)
  stays g (some p) (some r) = ground (arith, pushes g p)

  step_local :
      (g : Progress) (p : Policy) (r : Option Policy) (id : String)
      → g.rep.store ≡ a
      → Named p.id r
      → get_at (reconcile_policy t region g (some p) r).heap a id
        ≡ (if named id p then local_after p r (get_at g.heap a id) else get_at g.heap a id)
  unfolding reconcile_policy pull skip
  step_local g p none id h n = rw (pushes g p) (ground (arith, get_at-put_at g.heap b a p id))
  step_local g p (some r) id h n =
      ground
        (arith, pushes g p, get_at-put_at g.heap b a p id, get_at-put_at g.heap g.rep.store a r id)

  step_remote :
      (g : Progress) (p : Policy) (r : Option Policy) (id : String)
      → g.rep.store ≡ a
      → Named p.id r
      → get_at (reconcile_policy t region g (some p) r).heap b id
        ≡ (if named id p then remote_after p r (get_at g.heap b id) else get_at g.heap b id)
  unfolding reconcile_policy pull skip
  step_remote g p none id h n = rw (pushes g p) (ground (arith, get_at-put_at g.heap b b p id))
  step_remote g p (some r) id h n =
      ground
        (arith, pushes g p, get_at-put_at g.heap b b p id, get_at-put_at g.heap g.rep.store b r id)

  step_elsewhere :
      (g : Progress) (l r : Option Policy) (c : ℕ) (id : String)
      → g.rep.store ≡ a
      → c ≢ a
      → c ≢ b
      → get_at (reconcile_policy t region g l r).heap c id ≡ get_at g.heap c id
  unfolding reconcile_policy pull skip
  step_elsewhere g none none c id h na nb = refl
  step_elsewhere g none (some r) c id h na nb =
      ground (arith, get_at-put_at g.heap g.rep.store c r id)
  step_elsewhere g (some p) none c id h na nb =
      rw (pushes g p) (ground (arith, get_at-put_at g.heap b c p id))
  step_elsewhere g (some p) (some r) c id h na nb =
      ground
        (arith, pushes g p, get_at-put_at g.heap b c p id, get_at-put_at g.heap g.rep.store c r id)

  pull_elsewhere :
      (g : Progress) (r : Policy) (c : ℕ) (id : String)
      → g.rep.store ≡ a
      → c ≢ a
      → get_at (reconcile_policy t region g none (some r)).heap c id ≡ get_at g.heap c id
  unfolding reconcile_policy pull
  pull_elsewhere g r c id h na = ground (arith, get_at-put_at g.heap g.rep.store c r id)

  pull_local :
      (g : Progress) (r : Policy) (id : String)
      → g.rep.store ≡ a
      → get_at (reconcile_policy t region g none (some r)).heap a id
        ≡ (if named id r then some r else get_at g.heap a id)
  unfolding reconcile_policy pull
  pull_local g r id h = ground (arith, get_at-put_at g.heap g.rep.store a r id)

  -- The loop over the local policies, at the local store, the remote one, any other, and the map.
  pub locals_local :
      (g : Progress) (m : MemoryStore) (ps : List Policy) (id : String)
      → g.rep.store ≡ a
      → IsKeyed m
      → ((j : String) → copies j ps ≤ 1)
      → get_at (reconcile_locals t region g m ps).0.heap a id ≡ (elim (find_policy id ps) [
        | none ↦ get_at g.heap a id
        | some p ↦ local_after p (lookup str_dec id m) (get_at g.heap a id)
      ])
  unfolding reconcile_locals find_policy
  locals_local g m [] id h v u = refl
  locals_local g m (p ∷ ps) id h v u =
      let r = lookup str_dec p.id m in
      let g' = reconcile_policy t region g (some p) r in
      let rest =
        locals_local g' (erase str_dec p.id m) ps id ((stays g (some p) r).0 ∙ h)
          (erase-IsKeyed p.id m v) (λ j. omega (arith, u j, copies_tail j p ps)) in
      ground (
        arith,
        rest,
        step_local g p r id h (lookup-Named p.id m v),
        find-missing id ps,
        copies-cons id p ps,
        u id,
        lookup-erase str_dec p.id id m,
      )

  pub locals_remote :
      (g : Progress) (m : MemoryStore) (ps : List Policy) (id : String)
      → g.rep.store ≡ a
      → IsKeyed m
      → ((j : String) → copies j ps ≤ 1)
      → get_at (reconcile_locals t region g m ps).0.heap b id ≡ (elim (find_policy id ps) [
        | none ↦ get_at g.heap b id
        | some p ↦ remote_after p (lookup str_dec id m) (get_at g.heap b id)
      ])
  unfolding reconcile_locals find_policy
  locals_remote g m [] id h v u = refl
  locals_remote g m (p ∷ ps) id h v u =
      let r = lookup str_dec p.id m in
      let g' = reconcile_policy t region g (some p) r in
      let rest =
        locals_remote g' (erase str_dec p.id m) ps id ((stays g (some p) r).0 ∙ h)
          (erase-IsKeyed p.id m v) (λ j. omega (arith, u j, copies_tail j p ps)) in
      ground (
        arith,
        rest,
        step_remote g p r id h (lookup-Named p.id m v),
        find-missing id ps,
        copies-cons id p ps,
        u id,
        lookup-erase str_dec p.id id m,
      )

  pub locals_elsewhere :
      (g : Progress) (m : MemoryStore) (ps : List Policy) (c : ℕ) (id : String)
      → g.rep.store ≡ a
      → c ≢ a
      → c ≢ b
      → get_at (reconcile_locals t region g m ps).0.heap c id ≡ get_at g.heap c id
  unfolding reconcile_locals
  locals_elsewhere g m [] c id h na nb = refl
  locals_elsewhere g m (p ∷ ps) c id h na nb =
      let r = lookup str_dec p.id m in
      locals_elsewhere (reconcile_policy t region g (some p) r) (erase str_dec p.id m) ps c id
        ((stays g (some p) r).0 ∙ h) na nb
      ∙ step_elsewhere g (some p) r c id h na nb

  pub locals_stay :
      (g : Progress) (m : MemoryStore) (ps : List Policy)
      → ((reconcile_locals t region g m ps).0.rep.store ≡ g.rep.store)
        × ((reconcile_locals t region g m ps).0.failures ≡ g.failures)
  unfolding reconcile_locals
  locals_stay g m [] = (refl, refl)
  locals_stay g m (p ∷ ps) =
      let r = lookup str_dec p.id m in
      let one = stays g (some p) r in
      let rest = locals_stay (reconcile_policy t region g (some p) r) (erase str_dec p.id m) ps in
      (rest.0 ∙ one.0, rest.1 ∙ one.1)

  pub locals_left :
      (g : Progress) (m : MemoryStore) (ps : List Policy) (id : String)
      → IsKeyed m
      → IsKeyed (reconcile_locals t region g m ps).1
        × (lookup str_dec id (reconcile_locals t region g m ps).1
            ≡ (elim (find_policy id ps) [ none ↦ lookup str_dec id m | some p ↦ none ]))
  unfolding reconcile_locals find_policy
  locals_left g m [] id v = (v, refl)
  locals_left g m (p ∷ ps) id v =
      let rest =
        locals_left (reconcile_policy t region g (some p) (lookup str_dec p.id m))
          (erase str_dec p.id m) ps id (erase-IsKeyed p.id m v) in
      (rest.0, ground (arith, rest.1, lookup-erase str_dec p.id id m))

  -- The loop over what is left.
  pub remotes_local :
      (g : Progress) (ps : List Policy) (id : String)
      → g.rep.store ≡ a
      → ((j : String) → copies j ps ≤ 1)
      → get_at (reconcile_remotes t region g ps).heap a id
        ≡ (elim (find_policy id ps) [ none ↦ get_at g.heap a id | some p ↦ some p ])
  unfolding reconcile_remotes find_policy
  remotes_local g [] id h u = refl
  remotes_local g (p ∷ ps) id h u =
      let g' = reconcile_policy t region g none (some p) in
      let rest =
        remotes_local g' ps id ((stays g none (some p)).0 ∙ h)
          (λ j. omega (arith, u j, copies_tail j p ps)) in
      ground (arith, rest, pull_local g p id h, find-missing id ps, copies-cons id p ps, u id)

  pub remotes_elsewhere :
      (g : Progress) (ps : List Policy) (c : ℕ) (id : String)
      → g.rep.store ≡ a
      → c ≢ a
      → get_at (reconcile_remotes t region g ps).heap c id ≡ get_at g.heap c id
  unfolding reconcile_remotes
  remotes_elsewhere g [] c id h na = refl
  remotes_elsewhere g (p ∷ ps) c id h na =
      remotes_elsewhere (reconcile_policy t region g none (some p)) ps c id
        ((stays g none (some p)).0 ∙ h) na
      ∙ pull_elsewhere g p c id h na

  pub remotes_stay :
      (g : Progress) (ps : List Policy)
      → ((reconcile_remotes t region g ps).rep.store ≡ g.rep.store)
        × ((reconcile_remotes t region g ps).failures ≡ g.failures)
  unfolding reconcile_remotes
  remotes_stay g [] = (refl, refl)
  remotes_stay g (p ∷ ps) =
      let one = stays g none (some p) in
      let rest = remotes_stay (reconcile_policy t region g none (some p)) ps in
      (rest.0 ∙ one.0, rest.1 ∙ one.1)
