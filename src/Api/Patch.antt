-- ===== src/Api/Patch.antt =====
-- Patches of nodes: apply_jsonpatch and the lookups in a patch of xcat3/api/controllers/v1/utils.py,
-- and the loop of NodesController.patch over its nodes.
pub mod Shared
use Prim.Native.Char.{Char, code}
use Prim.Native.String
use Prim.Native.String.{String, [], ◌∷◌}
use mathlib.Core.List
use text.Mathlib.Text.{starts_with}
use xcat.Prelude.{
  ℕ, ◌+◌, Bool, true, false, not, ◌&&◌, ◌||◌, ◌==◌, eqb, Option, none, some, List, Dict, lookup,
  if◌then◌else◌, is_none,
}
use xcat.Db.{Error, attribute_error, index_error, client_side_error, Result, ok, err}
use xcat.Conductor.{bind}

-- One operation of a JSON PATCH document
pub record Patch : Type 0 where
  pub op : String
  pub path : String
  pub value : Option String

-- An attribute of a node: a dictionary by its keys, or another value by its truth.
pub data Attribute : Type 0 where
  table : Dict String → Attribute
  leaf : Bool → Attribute

abbrev pub Doc : Type 0
Doc = Dict Attribute

abbrev is_slash : Char → Bool
is_slash c = eqb (code c) 47

-- `path.count('/')`
unfoldable pub slashes : String → ℕ
slashes [] = 0
slashes (c ∷ s) = (if is_slash c then 1 else 0) + slashes s

-- `path.lstrip('/')`
unfoldable pub lstrip : String → String
lstrip [] = ""
lstrip (c ∷ s) = let rest = lstrip s in if is_slash c then rest else c ∷ s

-- `s.split('/')`
unfoldable pub split_from : String → String → List String
split_from part [] = List.◌∷◌ part List.[]
split_from part (c ∷ s) =
    let rest = split_from (if is_slash c then "" else String.◌++◌ part (c ∷ [])) s in
    if is_slash c then List.◌∷◌ part rest else rest

-- `not doc.get(a) or doc.get(a) and not doc.get(a).has_key(b)`, for `paths = [a, b, ..]`
unfoldable pub is_absent : Doc → List String → Result Bool
is_absent doc (List.◌∷◌ a (List.◌∷◌ b rest)) = elim (lookup a doc) [
  | none ↦ ok true
  | some (leaf truth) ↦ if truth then err attribute_error else ok true
  | some (table List.[]) ↦ ok true
  | some (table (List.◌∷◌ p d)) ↦ ok (is_none (lookup b (List.◌∷◌ p d)))
]
is_absent doc (List.◌∷◌ a List.[]) = elim (lookup a doc) [
  | none ↦ ok true
  | some (leaf truth) ↦ if truth then err attribute_error else ok true
  | some (table List.[]) ↦ ok true
  | some (table (List.◌∷◌ p d)) ↦ err index_error
]
is_absent doc List.[] = err index_error

-- A turn of the loop of apply_jsonpatch: whether the operation stays in the list.
unfoldable pub stays : Doc → Patch → Result Bool
stays doc p =
    if p.op == "add" && eqb (slashes p.path) 1 && is_none (lookup (lstrip p.path) doc)
    then err client_side_error
    else if p.op == "remove" && eqb (slashes p.path) 2
    then (bind (is_absent doc (split_from "" (lstrip p.path))) λ absent. ok (not absent))
    else ok true

-- The loop: what it deletes is deleted from the list that the caller gave.
unfoldable pub prune : Doc → List Patch → Result (List Patch)
prune doc List.[] = ok List.[]
prune doc (List.◌∷◌ p ps) =
    let rest = prune doc ps in
    bind (stays doc p) λ kept. bind rest λ more. ok (if kept then List.◌∷◌ p more else more)

-- The package jsonpatch: what a list of operations makes of a document, or what it raises.
abbrev pub JsonPatch : Type 0
JsonPatch = Doc → List Patch → Result Doc

-- apply_jsonpatch: the new document, and the caller's list as it is left.
unfoldable pub apply_jsonpatch : JsonPatch → Doc → List Patch → Result (Doc × List Patch)
apply_jsonpatch apply doc ps =
    bind (prune doc ps) λ left. bind (apply doc left) λ doc'. ok (doc', left)

-- The loop of NodesController.patch, which gives every node the same list.
unfoldable pub patch_objects : JsonPatch → List Doc → List Patch → Result (List Doc)
patch_objects apply List.[] ps = ok List.[]
patch_objects apply (List.◌∷◌ doc docs) ps =
    bind (apply_jsonpatch apply doc ps)
      λ r. bind (patch_objects apply docs r.1) λ rest. ok (List.◌∷◌ r.0 rest)

-- get_patch_values
pub get_patch_values : List Patch → String → List (Option String)
get_patch_values List.[] path = List.[]
get_patch_values (List.◌∷◌ p ps) path =
    let rest = get_patch_values ps path in
    if p.path == path && not (p.op == "remove") then List.◌∷◌ p.value rest else rest

-- `path.rstrip('/')`
unfoldable pub rstrip : String → String
rstrip [] = ""
rstrip (c ∷ s) = let rest = rstrip s in if is_slash c && rest == "" then "" else c ∷ rest

abbrev concerns : String → Patch → Bool
concerns path p = p.path == path || starts_with p.path (String.◌++◌ path "/")

-- is_path_removed, where None is falsity
pub is_path_removed : List Patch → String → Bool
is_path_removed List.[] path = false
is_path_removed (List.◌∷◌ p ps) path =
    concerns (rstrip path) p && p.op == "remove" || is_path_removed ps path

-- is_path_updated, which returns in the first turn of its loop
pub is_path_updated : List Patch → String → Bool
is_path_updated List.[] path = false
is_path_updated (List.◌∷◌ p ps) path = concerns (rstrip path) p
