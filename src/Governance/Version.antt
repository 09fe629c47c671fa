-- ===== src/Governance/Version.antt =====
-- internal/governance/schema.go: semantic versions.
use Prim.Native.String.{◌++◌ as str_append}
use symkernel.Base.{◌+◌, ◌≡◌, ◌⊎◌, inl, inr, Bool, true, false, not, String, arith, if◌then◌else◌}
use symkernel.Base.Int.{ℤ, pos_part, neg_part, ltb_ℤ, ◌<ℤ◌, ◌≤ℤ◌}
use symkernel.Base.Decimal.{decimal}

pub record SchemaVersion : Type 0 where
  pub major : ℤ
  pub minor : ℤ
  pub patch : ℤ

-- `SchemaVersion.String`.
unfoldable pub version_text : SchemaVersion → String
version_text v =
    str_append (decimal v.major)
      (str_append "." (str_append (decimal v.minor) (str_append "." (decimal v.patch))))

-- Go's `==` on ints.
abbrev pub int_is : ℤ → ℤ → Bool
int_is a b = if ltb_ℤ a b then false else not (ltb_ℤ b a)

unfoldable pub version_gt : SchemaVersion → SchemaVersion → Bool
version_gt a b =
    if not (int_is a.major b.major)
    then ltb_ℤ b.major a.major
    else if not (int_is a.minor b.minor)
    then ltb_ℤ b.minor a.minor
    else ltb_ℤ b.patch a.patch

pub version_gt_irrefl : (a : SchemaVersion) → version_gt a a ≡ false
unfolding version_gt
version_gt_irrefl a = ground arith

-- The lexicographic order, with the components' order written on their parts.
abbrev SameInt : ℤ → ℤ → Type 0
SameInt a b = pos_part a + neg_part b ≡ pos_part b + neg_part a

abbrev AtMost : SchemaVersion → SchemaVersion → Type 0
AtMost a b =
    (a.major <ℤ b.major)
    ⊎ (SameInt a.major b.major
        × ((a.minor <ℤ b.minor) ⊎ (SameInt a.minor b.minor × (a.patch ≤ℤ b.patch))))

version_gt-AtMost : (a b : SchemaVersion) → version_gt a b ≡ false → AtMost a b
unfolding version_gt
version_gt-AtMost a b h = ground arith

AtMost-version_gt : (a b : SchemaVersion) → AtMost a b → version_gt a b ≡ false
unfolding version_gt
AtMost-version_gt a b h = ground arith

order_trans : (a b c : SchemaVersion) → AtMost a b → AtMost b c → AtMost a c
order_trans a b c (inl h) (inl k) = inl (omega arith)
order_trans a b c (inl h) (inr k) = inl (let e = k.0 in omega arith)
order_trans a b c (inr h) (inl k) = inl (let e = h.0 in omega arith)
order_trans a b c (inr (e, inl h)) (inr (f, inl k)) = inr (omega arith, inl (omega arith))
order_trans a b c (inr (e, inl h)) (inr (f, inr k)) =
    inr (omega arith, inl (let g = k.0 in omega arith))
order_trans a b c (inr (e, inr h)) (inr (f, inl k)) =
    inr (omega arith, inl (let g = h.0 in omega arith))
order_trans a b c (inr (e, inr h)) (inr (f, inr k)) = inr (
  omega arith,
  inr (let g = h.0 in let i = h.1 in let j = k.0 in let l = k.1 in (omega arith, omega arith)),
)

-- Not being above is transitive.
pub version_le_trans :
    (a b c : SchemaVersion)
    → version_gt a b ≡ false
    → version_gt b c ≡ false
    → version_gt a c ≡ false
version_le_trans a b c h k =
    AtMost-version_gt a c (order_trans a b c (version_gt-AtMost a b h) (version_gt-AtMost b c k))

pub version_gt_asym : (a b : SchemaVersion) → version_gt a b ≡ true → version_gt b a ≡ false
unfolding version_gt
version_gt_asym a b h = ground arith
