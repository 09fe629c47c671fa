-- ===== src/Federation/Replicator/Newer.antt =====
-- internal/federation/replicator.go: `compareRevision` as an order on what a store may hold.
use symkernel.Base.{◌≡◌, ◌≢◌, refl, Option, none, some, arith}
use symkernel.Federation.Store.{Policy}
use symkernel.Federation.Replicator.{Revision, older, same, newer, compare_revision}
use symkernel.Federation.Replicator.Merge.{winner, pick, flip_newer, flip_older, flip_same}

-- The first is missing or no newer than the second.
abbrev pub NoNewer : Option Policy → Option Policy → Type 0
NoNewer none y = Unit
NoNewer (some p) none = ⊥
NoNewer (some p) (some q) = compare_revision p q ≢ newer

pub NoNewer_refl : (x : Option Policy) → NoNewer x x
NoNewer_refl none = tt
NoNewer_refl (some p) = λ h. ground (arith, flip_newer p p h)

pub NoNewer_trans : (x y z : Option Policy) → NoNewer x y → NoNewer y z → NoNewer x z
unfolding compare_revision
NoNewer_trans none y z h k = tt
NoNewer_trans (some p) none z h k = absurd h
NoNewer_trans (some p) (some q) none h k = absurd k
NoNewer_trans (some p) (some q) (some r) h k = λ e. ground arith

pick_first :
    (c : Revision) (p q : Policy) → compare_revision p q ≡ c → NoNewer (some p) (some (pick c p q))
pick_first older p q e = λ h. ground (arith, e, h)
pick_first same p q e = NoNewer_refl (some p)
pick_first newer p q e = NoNewer_refl (some p)

pick_second :
    (c : Revision) (p q : Policy) → compare_revision p q ≡ c → NoNewer (some q) (some (pick c p q))
pick_second older p q e = NoNewer_refl (some q)
pick_second same p q e = λ h. ground (arith, e, h, flip_same p q)
pick_second newer p q e = λ h. ground (arith, e, h, flip_newer p q)

pub first-NoNewer : (x y : Option Policy) → NoNewer x (winner x y)
first-NoNewer none y = tt
first-NoNewer (some p) none = NoNewer_refl (some p)
first-NoNewer (some p) (some q) = pick_first (compare_revision p q) p q refl

pub second-NoNewer : (x y : Option Policy) → NoNewer y (winner x y)
second-NoNewer none none = tt
second-NoNewer none (some q) = NoNewer_refl (some q)
second-NoNewer (some p) none = tt
second-NoNewer (some p) (some q) = pick_second (compare_revision p q) p q refl

pub winner_absorbs : (x y : Option Policy) → NoNewer y x → winner x y ≡ x
winner_absorbs none none h = refl
winner_absorbs none (some q) h = absurd h
winner_absorbs (some p) none h = refl
winner_absorbs (some p) (some q) h = ground (arith, flip_older p q)

pick-NoNewer :
    (c : Revision) (p q : Policy) (z : Option Policy)
    → NoNewer (some p) z
    → NoNewer (some q) z
    → NoNewer (some (pick c p q)) z
pick-NoNewer older p q z h k = k
pick-NoNewer same p q z h k = h
pick-NoNewer newer p q z h k = h

pub winner-NoNewer : (x y z : Option Policy) → NoNewer x z → NoNewer y z → NoNewer (winner x y) z
winner-NoNewer none y z h k = k
winner-NoNewer (some p) none z h k = h
winner-NoNewer (some p) (some q) z h k = pick-NoNewer (compare_revision p q) p q z h k
