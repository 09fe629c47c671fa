-- ===== src/Governance/Schema.antt =====
-- internal/governance/schema.go: the registry of versioned policy schemas. A range over the map
-- goes through its association list, whose order is as arbitrary as Go's.
pub mod Latest
pub mod Sorting
pub mod Chain
use Prim.Native.String.{◌++◌ as str_append}
use symkernel.Base.{
  ℕ, zero, suc, List, [], ◌∷◌, Bool, true, false, not, String, Option, none, some, if◌then◌else◌,
  str_dec, str_is, length, keep_if,
}
use symkernel.Base.Int.{ℤ}
use symkernel.Base.Dict.{lookup, insert}
use symkernel.Governance.Version.{SchemaVersion, version_text, version_gt}

pub record PolicySchema : Type 0 where
  pub id : String
  pub version : SchemaVersion
  pub description : String
  pub previous_version : Option SchemaVersion
  pub created_at : ℤ
  pub schema_type : String
  pub hash : String

abbrev pub SchemaRegistry : Type 0
SchemaRegistry = List (String × PolicySchema)

unfoldable pub schema_key : String → SchemaVersion → String
schema_key id v = str_append id (str_append "@" (version_text v))

pub data RegisterResult : Type 0 where
  registered already_registered : RegisterResult

unfoldable pub register_over :
    Option PolicySchema → SchemaRegistry → PolicySchema → SchemaRegistry × RegisterResult
register_over (some old) r s = (r, already_registered)
register_over none r s = (insert str_dec (schema_key s.id s.version) s r, registered)

unfoldable pub register : SchemaRegistry → PolicySchema → SchemaRegistry × RegisterResult
register r s = register_over (lookup str_dec (schema_key s.id s.version) r) r s

unfoldable pub get : SchemaRegistry → String → SchemaVersion → Option PolicySchema
get r id v = lookup str_dec (schema_key id v) r

unfoldable pub values : {A : Type 0} → List (String × A) → List A
values [] = []
values ((k, s) ∷ r) = s ∷ values r

-- The loop of `Latest`, for the schemas and for the policies: `best` is what has been found so far.
module _ {A : Type 0} (id_of : A → String) (version_of : A → SchemaVersion) where
  unfoldable pub better : Option A → A → Bool
  better none s = true
  better (some b) s = version_gt (version_of s) (version_of b)

  unfoldable pub scan_latest : String → Option A → List A → Option A
  scan_latest id best [] = best
  scan_latest id best (s ∷ ss) =
      scan_latest id
        (if not (str_is (id_of s) id) then best else if better best s then some s else best) ss

unfoldable pub latest : SchemaRegistry → String → Option PolicySchema
latest r id = scan_latest (λ s. s.id) (λ s. s.version) id none (values r)

-- The inner loop of `sortSchemas`: `x` stands at index i, the list behind it.
unfoldable pub exchange : PolicySchema → List PolicySchema → PolicySchema × List PolicySchema
exchange x [] = (x, [])
exchange x (y ∷ ys) =
    if version_gt y.version x.version
    then (let r = exchange y ys in (r.0, x ∷ r.1))
    else (let r = exchange x ys in (r.0, y ∷ r.1))

-- The outer loop, for the indices that are left.
unfoldable pub sort_from : ℕ → List PolicySchema → List PolicySchema
sort_from zero ss = ss
sort_from (suc n) [] = []
sort_from (suc n) (x ∷ ys) = let r = exchange x ys in r.0 ∷ sort_from n r.1

unfoldable pub sort_schemas : List PolicySchema → List PolicySchema
sort_schemas ss = sort_from (length ss) ss

unfoldable pub wanted : String → PolicySchema → Bool
wanted id s = if str_is id "" then true else str_is s.id id

unfoldable pub list : SchemaRegistry → String → List PolicySchema
list r id = sort_schemas (keep_if (wanted id) (values r))

-- The loop of `MigrationChain` on fuel, from the current schema on: `none` is a loop still running.
unfoldable pub predecessor : SchemaRegistry → String → Option SchemaVersion → Option PolicySchema
predecessor r id none = none
predecessor r id (some v) = get r id v

abbrev pub put_first : PolicySchema → Option (List PolicySchema) → Option (List PolicySchema)
put_first s none = none
put_first s (some ss) = some (s ∷ ss)

unfoldable pub chain_from :
    ℕ → SchemaRegistry → String → Option PolicySchema → Option (List PolicySchema)
chain_from n r id none = some []
chain_from zero r id (some current) = none
chain_from (suc n) r id (some current) =
    put_first current (chain_from n r id (predecessor r id current.previous_version))

unfoldable pub migration_chain :
    ℕ → SchemaRegistry → String → SchemaVersion → Option (List PolicySchema)
migration_chain n r id v = chain_from n r id (get r id v)

-- `ValidateContentType`, whether it returns nil; the message lists the map's keys in any order.
unfoldable pub is_valid_content_type : String → Bool
is_valid_content_type ct =
    if str_is ct "application/cel"
    then true
    else if str_is ct "application/smtlib2"
    then true
    else if str_is ct "application/composed-policy"
    then true
    else str_is ct "application/wasm"
