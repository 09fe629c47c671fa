-- ===== src/Federation/Store.antt =====
-- internal/federation/policy.go: the policies of one region. A copy of a policy is the policy;
-- the in-memory store never fails but on a nil policy, which no caller passes.
use symkernel.Base.{
  ℕ, ◌≡◌, List, [], ◌∷◌, Bool, String, Option, some, if◌then◌else◌, str_dec, str_is, arith,
}
use symkernel.Base.Int.{ℤ}
use symkernel.Base.Dict.{lookup, insert, erase, lookup-insert}
use symkernel.Base.TextOrder.{str_lt}
use symkernel.Base.Insertion.{sort_by}

-- `version` is a uint64, `body` its bytes, `updated_at` nanoseconds.
pub record Policy : Type 0 where
  pub id : String
  pub version : ℕ
  pub body : List ℕ
  pub origin_region : String
  pub updated_at : ℤ

abbrev pub MemoryStore : Type 0
MemoryStore = List (String × Policy)

-- `none` is ErrPolicyNotFound.
unfoldable pub get : MemoryStore → String → Option Policy
get s id = lookup str_dec id s

unfoldable pub put : MemoryStore → Policy → MemoryStore
put s p = insert str_dec p.id p s

unfoldable pub delete : MemoryStore → String → MemoryStore
delete s id = erase str_dec id s

abbrev pub policies_of : MemoryStore → List Policy
policies_of [] = []
policies_of ((k, p) ∷ s) = p ∷ policies_of s

unfoldable pub before : Policy → Policy → Bool
before p q = str_lt p.id q.id

unfoldable pub list : MemoryStore → List Policy
list s = sort_by before (policies_of s)

pub data ReplicationMode : Type 0 where
  replication_async replication_sync : ReplicationMode

pub record ReplicationConfig : Type 0 where
  pub mode : ReplicationMode
  pub interval : ℤ
  pub regions : List String

pub get-put :
    (s : MemoryStore) (p : Policy) (id : String)
    → get (put s p) id ≡ (if str_is p.id id then some p else get s id)
unfolding get put
get-put s p id = ground (arith, lookup-insert str_dec p.id id p s)
