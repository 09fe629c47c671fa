-- ===== src/Federation/Transport.antt =====
-- internal/federation/replicator.go: the in-process transport. Stores are shared objects: an
-- address stands for the pointer, the heap holds what it points to, and `Mount` binds a region
-- to an address.
use symkernel.Base.{
  ℕ, ◌≡◌, List, [], Bool, true, false, String, Option, none, some, if◌then◌else◌, ite, str_dec,
  str_is, ℕ_discrete, arith,
}
use symkernel.Base.Dict.{lookup, insert, erase, lookup-insert}
use symkernel.Federation.Store.{Policy, MemoryStore, get, put, list, get-put}

abbrev pub Heap : Type 0
Heap = List (ℕ × MemoryStore)

abbrev pub LocalTransport : Type 0
LocalTransport = List (String × ℕ)

unfoldable pub mount : LocalTransport → String → ℕ → LocalTransport
mount t region address = insert str_dec region address t

unfoldable pub unmount : LocalTransport → String → LocalTransport
unmount t region = erase str_dec region t

-- `none` is ErrRegionNotFound.
unfoldable pub store_for : LocalTransport → String → Option ℕ
store_for t region = lookup str_dec region t

abbrev or_empty : Option MemoryStore → MemoryStore
or_empty none = []
or_empty (some s) = s

unfoldable pub store_at : Heap → ℕ → MemoryStore
store_at h a = or_empty (lookup ℕ_discrete a h)

-- `Put` on the store behind an address.
unfoldable pub put_at : Heap → ℕ → Policy → Heap
put_at h a p = insert ℕ_discrete a (put (store_at h a) p) h

unfoldable pub get_at : Heap → ℕ → String → Option Policy
get_at h a id = get (store_at h a) id

pub data TransportError : Type 0 where
  region_not_found policy_not_found : TransportError

pub data Fetched : Type 0 where
  fetched : Policy → Fetched
  fetch_failed : TransportError → Fetched

abbrev found_or_not : Option Policy → Fetched
found_or_not none = fetch_failed policy_not_found
found_or_not (some p) = fetched p

unfoldable pub get_policy : LocalTransport → Heap → String → String → Fetched
get_policy t h region id = elim (store_for t region) [
  | none ↦ fetch_failed region_not_found
  | some a ↦ found_or_not (get_at h a id)
]

-- `none` is ErrRegionNotFound.
unfoldable pub put_policy : LocalTransport → Heap → String → Policy → Option Heap
put_policy t h region p = elim (store_for t region) [ none ↦ none | some a ↦ some (put_at h a p) ]

unfoldable pub list_policies : LocalTransport → Heap → String → Option (List Policy)
list_policies t h region = elim (store_for t region) [
  | none ↦ none
  | some a ↦ some (list (store_at h a))
]

unfoldable pub ping : LocalTransport → String → Bool
ping t region = elim (store_for t region) [ none ↦ false | some a ↦ true ]

pub store_at-put_at :
    (h : Heap) (a b : ℕ) (p : Policy)
    → store_at (put_at h a p) b ≡ ite (ℕ_discrete a b) (put (store_at h a) p) (store_at h b)
unfolding store_at put_at
store_at-put_at h a b p = ground (arith, lookup-insert ℕ_discrete a b (put (store_at h a) p) h)

pub get_at-put_at :
    (h : Heap) (a b : ℕ) (p : Policy) (id : String)
    → get_at (put_at h a p) b id
      ≡ ite (ℕ_discrete a b) (if str_is p.id id then some p else get_at h b id) (get_at h b id)
unfolding get_at
get_at-put_at h a b p id =
    ground
      (arith, store_at-put_at h a b p, get-put (store_at h a) p id, get-put (store_at h b) p id)
