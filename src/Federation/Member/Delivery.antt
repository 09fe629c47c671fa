-- ===== src/Federation/Member/Delivery.antt =====
-- internal/federation/replicator.go: what an authored policy reaches.
use symkernel.Base.{
  append_nil, ℕ, suc, ◌+◌, ◌%◌, ◌<◌, count_if, ◌≡◌, ◌≢◌, refl, inl, inr, List, [], ◌∷◌, ◌++◌, Bool,
  true, false, not, String, Option, none, some, str_is, All, keep_if, arith, Option-cases, ap,
  subst, sym, ◌∙◌,
}
use symkernel.Base.Int.{ℤ}
use symkernel.Federation.Store.{Policy, ReplicationMode, replication_async, replication_sync}
use symkernel.Federation.Transport.{
  Heap, LocalTransport, store_for, put_at, get_at, put_policy, ping, get_at-put_at,
}
use symkernel.Federation.Replicator.{targets, bump}
use symkernel.Federation.Member.{
  Federation, Sent, push_one, push_now, PutResult, replicated, authored_policy, result_of, put,
  deliver, next_version,
}

-- A region without a store holds nothing, and another holds the policy.
abbrev pub Received : Heap → Option ℕ → Policy → Type 0
Received h none p = Unit
Received h (some b) p = get_at h b p.id ≡ some p

abbrev unmounted : LocalTransport → String → Bool
unmounted t region = not (ping t region)

puts_none :
    (t : LocalTransport) (h : Heap) (region : String) (p : Policy)
    → store_for t region ≡ none
    → put_policy t h region p ≡ none
unfolding put_policy
puts_none t h region p e = ground (arith, e)

puts_some :
    (t : LocalTransport) (h : Heap) (region : String) (p : Policy) (b : ℕ)
    → store_for t region ≡ some b
    → put_policy t h region p ≡ some (put_at h b p)
unfolding put_policy
puts_some t h region p b e = ground (arith, e)

-- What holds the policy holds it after a push to any store.
holds_on :
    (h : Heap) (b c : ℕ) (p : Policy)
    → get_at h c p.id ≡ some p
    → get_at (put_at h b p) c p.id ≡ some p
holds_on h b c p e = ground (arith, get_at-put_at h b c p p.id)

holds_here : (h : Heap) (b : ℕ) (p : Policy) → get_at (put_at h b p) b p.id ≡ some p
holds_here h b p = ground (arith, get_at-put_at h b b p p.id)

other_text : (s u : String) → s ≢ u → str_is s u ≡ false
other_text s u ne = ground (arith, ne)

not_there :
    (h : Heap) (b c : ℕ) (p : Policy) (id : String)
    → p.id ≢ id
    → get_at (put_at h b p) c id ≡ get_at h c id
not_there h b c p id ne = ground (arith, get_at-put_at h b c p id, other_text p.id id ne)

bump_small : (n : ℕ) → bump n < 18_446_744_073_709_551_616
bump_small n = omega arith

bump_add :
    (n k : ℕ) → (bump n + k) % 18_446_744_073_709_551_616 ≡ (n + suc k) % 18_446_744_073_709_551_616
bump_add n k = omega arith

no_answer :
    (t : LocalTransport) (region : String) → store_for t region ≡ none → ping t region ≡ false
unfolding ping
no_answer t region e = ground (arith, e)

an_answer :
    (t : LocalTransport) (region : String) (b : ℕ)
    → store_for t region ≡ some b
    → ping t region ≡ true
unfolding ping
an_answer t region b e = ground (arith, e)

module _ (t : LocalTransport) (p : Policy) where
  push_none : (s : Sent) → push_now t p [] s ≡ s
  unfolding push_now
  push_none s = refl

  skips_one :
      (region : String) (rs : List String) (s : Sent)
      → store_for t region ≡ none
      → push_now t p (region ∷ rs) s ≡ push_now t p rs (push_one none region s)
  unfolding push_now
  skips_one region rs s e =
      ap (λ o. push_now t p rs (push_one o region s)) (puts_none t s.heap region p e)

  pushes_one :
      (region : String) (rs : List String) (s : Sent) (b : ℕ)
      → store_for t region ≡ some b
      → push_now t p (region ∷ rs) s
        ≡ push_now t p rs (push_one (some (put_at s.heap b p)) region s)
  unfolding push_now
  pushes_one region rs s b e =
      ap (λ o. push_now t p rs (push_one o region s)) (puts_some t s.heap region p b e)

  at_no_store :
      (h : Heap) (region : String) → store_for t region ≡ none → Received h (store_for t region) p
  at_no_store h region e = subst (λ o. Received h o p) (sym e) tt

  at_a_store :
      (h : Heap) (region : String) (b : ℕ)
      → store_for t region ≡ some b
      → get_at h b p.id ≡ some p
      → Received h (store_for t region) p
  at_a_store h region b e k = subst (λ o. Received h o p) (sym e) k

  keeps :
      (rs : List String) (s : Sent) (c : ℕ)
      → get_at s.heap c p.id ≡ some p
      → get_at (push_now t p rs s).heap c p.id ≡ some p
  keeps [] s c h = rw (push_none s) h
  keeps (region ∷ rs) s c h = elim (Option-cases (store_for t region)) [
    | inl e ↦ rw (skips_one region rs s e) (keeps rs (push_one none region s) c h)
    | inr (b, e) ↦
        rw (pushes_one region rs s b e)
          (keeps rs (push_one (some (put_at s.heap b p)) region s) c (holds_on s.heap b c p h))
  ]

  reaches :
      (rs : List String) (s : Sent)
      → All (λ region. Received (push_now t p rs s).heap (store_for t region) p) rs
  reaches [] s = tt
  reaches (region ∷ rs) s = elim (Option-cases (store_for t region)) [
    | inl e ↦
        let s' = push_one none region s in
        subst (λ z. All (λ r. Received z.heap (store_for t r) p) (region ∷ rs))
          (sym (skips_one region rs s e))
          (at_no_store (push_now t p rs s').heap region e, reaches rs s')
    | inr (b, e) ↦
        let s' = push_one (some (put_at s.heap b p)) region s in
        subst (λ z. All (λ r. Received z.heap (store_for t r) p) (region ∷ rs))
          (sym (pushes_one region rs s b e))
          (
            at_a_store (push_now t p rs s').heap region b e (keeps rs s' b (holds_here s.heap b p)),
            reaches rs s',
          )
  ]

  add_missed :
      (us : List String) (region : String) (rs : List String)
      → ping t region ≡ false
      → (us ++ region ∷ []) ++ keep_if (unmounted t) rs ≡ us ++ keep_if (unmounted t) (region ∷ rs)
  unfolding keep_if
  add_missed [] region rs e = ground (arith, e)
  add_missed (u ∷ us) region rs e = ap (λ l. u ∷ l) (add_missed us region rs e)

  add_pushed :
      (region : String) (rs : List String)
      → ping t region ≡ true
      → keep_if (unmounted t) rs ≡ keep_if (unmounted t) (region ∷ rs)
  unfolding keep_if
  add_pushed region rs e = ground (arith, e)

  misses :
      (rs : List String) (s : Sent)
      → (push_now t p rs s).unreached ≡ s.unreached ++ keep_if (unmounted t) rs
  unfolding keep_if
  misses [] s = ap (λ z. z.unreached) (push_none s) ∙ sym (append_nil s.unreached)
  misses (region ∷ rs) s = elim (Option-cases (store_for t region)) [
    | inl e ↦
        ap (λ z. z.unreached) (skips_one region rs s e)
        ∙ misses rs (push_one none region s)
        ∙ add_missed s.unreached region rs (no_answer t region e)
    | inr (b, e) ↦
        ap (λ z. z.unreached) (pushes_one region rs s b e)
        ∙ misses rs (push_one (some (put_at s.heap b p)) region s)
        ∙ ap (λ l. s.unreached ++ l) (add_pushed region rs (an_answer t region b e))
  ]

  elsewhere :
      (id : String)
      → p.id ≢ id
      → (rs : List String) (s : Sent) (c : ℕ)
      → get_at (push_now t p rs s).heap c id ≡ get_at s.heap c id
  elsewhere id ne [] s c = ap (λ z. get_at z.heap c id) (push_none s)
  elsewhere id ne (region ∷ rs) s c = elim (Option-cases (store_for t region)) [
    | inl e ↦
        ap (λ z. get_at z.heap c id) (skips_one region rs s e)
        ∙ elsewhere id ne rs (push_one none region s) c
    | inr (b, e) ↦
        ap (λ z. get_at z.heap c id) (pushes_one region rs s b e)
        ∙ elsewhere id ne rs (push_one (some (put_at s.heap b p)) region s) c
        ∙ not_there s.heap b c p id ne
  ]

  counts :
      (rs : List String) (s : Sent)
      → s.count < 18_446_744_073_709_551_616
      → (push_now t p rs s).count ≡ (s.count + count_if (ping t) rs) % 18_446_744_073_709_551_616
  unfolding count_if
  counts [] s small = ap (λ z. z.count) (push_none s) ∙ omega (arith, small)
  counts (region ∷ rs) s small = elim (Option-cases (store_for t region)) [
    | inl e ↦
        ap (λ z. z.count) (skips_one region rs s e)
        ∙ counts rs (push_one none region s) small
        ∙ ground (arith, no_answer t region e)
    | inr (b, e) ↦
        ap (λ z. z.count) (pushes_one region rs s b e)
        ∙ counts rs (push_one (some (put_at s.heap b p)) region s) (bump_small s.count)
        ∙ bump_add s.count (count_if (ping t) rs)
        ∙ ground (arith, an_answer t region b e)
  ]

-- The version of a revision after another, and of a first one.
abbrev pub IsNextVersion : Option Policy → ℕ → Type 0
IsNextVersion none v = v ≡ 1
IsNextVersion (some cur) v = v ≡ (cur.version + 1) % 18_446_744_073_709_551_616

next_version-IsNextVersion : (cur : Option Policy) → IsNextVersion cur (next_version cur)
next_version-IsNextVersion none = refl
next_version-IsNextVersion (some cur) = refl

-- What `put` promises of the member, the heap and the answer it returns.
abbrev pub Delivered :
    ReplicationMode → Federation → Heap → Policy → (Federation × Heap) × PutResult → Type 0
Delivered replication_async f h p ((g, h'), r) =
    (g ≡ record f { authored = (f.authored + 1) % 18_446_744_073_709_551_616 })
    × (h' ≡ put_at h f.replicator.store p)
    × (r ≡ replicated p)
    × (get_at h' f.replicator.store p.id ≡ some p)
Delivered replication_sync f h p ((g, h'), r) =
    let rs = targets f.replicator f.registry in
    (g ≡ record f {
      authored = (f.authored + 1) % 18_446_744_073_709_551_616;
      sync_pushes = (f.sync_pushes + count_if (ping f.transport) rs) % 18_446_744_073_709_551_616;
    })
    × (get_at h' f.replicator.store p.id ≡ some p)
    × All (λ region. Received h' (store_for f.transport region) p) rs
    × (r ≡ result_of p (keep_if (unmounted f.transport) rs))
    × ((c : ℕ) (id : String) → p.id ≢ id → get_at h' c id ≡ get_at h c id)

-- `h` is the heap before the write.
deliver-Delivered :
    (m : ReplicationMode) (f : Federation) (h : Heap) (p : Policy)
    → f.sync_pushes < 18_446_744_073_709_551_616
    → Delivered m f h p
        (deliver m (record f { authored = bump f.authored }) (put_at h f.replicator.store p) p)
unfolding deliver
deliver-Delivered replication_async f h p small =
    (refl, refl, refl, holds_here h f.replicator.store p)
deliver-Delivered replication_sync f h p small =
    let s : Sent = record {
      heap = put_at h f.replicator.store p;
      unreached = [];
      count = f.sync_pushes;
    } in
    let rs = targets f.replicator f.registry in
    (
      ap (λ n. record f { authored = bump f.authored; sync_pushes = n })
          (counts f.transport p rs s small),
      keeps f.transport p rs s f.replicator.store (holds_here h f.replicator.store p),
      reaches f.transport p rs s,
      ap (result_of p) (misses f.transport p rs s),
      (λ c id ne. elsewhere f.transport p id ne rs s c ∙ not_there h f.replicator.store c p id ne),
    )

put_nonempty :
    (f : Federation) (h : Heap) (id : String) (body : List ℕ) (now : ℤ)
    → id ≢ ""
    → put f h id body now
      ≡ deliver f.cfg.mode
          (record f { authored = bump f.authored })
          (put_at h f.replicator.store (authored_policy f h id body now))
          (authored_policy f h id body now)
unfolding put
put_nonempty f h id body now ne = rw (other_text id "" ne) refl

-- `put f h id body now` of a non-empty id, while the counter of pushes is a 64-bit number, authors a
-- policy of that id, body and time in the member's region, with version 1 where the local store holds
-- none of the id and otherwise that one's version plus one, wrapping at 2^64. The local store
-- holds it afterwards, and the authored counter is one higher. In the asynchronous mode nothing else of the
-- member or of any store changes, and the answer is the policy. In the synchronous mode every mounted target region
-- holds exactly that policy, whatever it held, no store changes at any other id, the push counter
-- grows by the number of mounted targets, nothing else of the member changes, and the answer names the targets that
-- are not mounted, in their order.
pub put_delivers :
    (f : Federation) (h : Heap) (id : String) (body : List ℕ) (now : ℤ)
    → id ≢ ""
    → f.sync_pushes < 18_446_744_073_709_551_616
    → (v : ℕ) × IsNextVersion (get_at h f.replicator.store id) v
      × Delivered f.cfg.mode f h
          (record { id = id; version = v; body = body; origin_region = f.self; updated_at = now })
          (put f h id body now)
put_delivers f h id body now ne small =
    let p = authored_policy f h id body now in
    (
      p.version,
      next_version-IsNextVersion (get_at h f.replicator.store id),
      subst (Delivered f.cfg.mode f h p) (sym (put_nonempty f h id body now ne))
          (deliver-Delivered f.cfg.mode f h p small),
    )
