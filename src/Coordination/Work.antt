-- ===== src/Coordination/Work.antt =====
-- internal/distributed/coordination/coordination.go: `Assign` and `NodeLoad`. The leader deals
-- work items to the members in turn; the item itself is not looked at.
use symkernel.Base.{
  ℕ, ◌+◌, ◌%◌, List, [], ◌∷◌, not, String, Option, none, some, if◌then◌else◌, get_elem?, length,
  str_dec,
}
use symkernel.Base.Dict.{lookup, insert}
use symkernel.Coordination.Node.{Node}
use symkernel.Coordination.Receive.{is_leader}

pub data Assigned : Type 0 where
  to_member : String → Assigned
  not_leader : Assigned
  -- The index is out of range: a panic.
  out_of_range : Assigned

abbrev pub load_of : List (String × ℕ) → String → ℕ
load_of m k = elim (lookup str_dec k m) [ none ↦ 0 | some n ↦ n ]

-- The work of a leader, once the member at the new index is looked up.
unfoldable pub assign_to : Node → ℕ → Option String → Node × Assigned
assign_to n i none = (record n { rr_index = i }, out_of_range)
assign_to n i (some target) = (
  record n {
    rr_index = i;
    node_load = insert str_dec target (load_of n.node_load target + 1) n.node_load;
  },
  to_member target,
)

unfoldable pub assign : Node → Node × Assigned
unfolding assign_to
assign n =
    if not (is_leader n.role)
    then (n, not_leader)
    else let i = (n.rr_index + 1) % length n.members in assign_to n i (get_elem? n.members i)

unfoldable pub node_load : Node → List (String × ℕ)
node_load n = report n.members
  where
    report : List String → List (String × ℕ)
    report [] = []
    report (m ∷ ms) = insert str_dec m (load_of n.node_load m) (report ms)
