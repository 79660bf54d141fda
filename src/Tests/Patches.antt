-- ===== src/Tests/Patches.antt =====
-- A removal given to two nodes, of which the first does not have what is removed.
use xcat.Prelude.{◌≡◌, refl, true, none, [], ◌∷◌, List, map}
use xcat.Db.{ok}
use xcat.Api.Patch.{
  Patch, Doc, table, leaf, JsonPatch, slashes, lstrip, split_from, is_absent, stays, prune,
  apply_jsonpatch, patch_objects,
}
use xcat.Api.Patch.Shared.{patched, patch_objects-patched}

abbrev removal : List Patch
removal = record { op = "remove"; path = "/control_info/x"; value = none } ∷ []

abbrev bare : Doc
bare = ("name", leaf true) ∷ []

abbrev full : Doc
full = ("control_info", table (("x", "1") ∷ [])) ∷ []

-- A package that empties a document where it is given an operation.
abbrev emptying : JsonPatch
emptying doc [] = ok doc
emptying doc (p ∷ ps) = ok []

both-left : patch_objects emptying (bare ∷ full ∷ []) removal ≡ ok (bare ∷ full ∷ [])
unfolding patch_objects apply_jsonpatch prune stays is_absent slashes lstrip split_from
both-left = refl

second-emptied : patch_objects emptying (full ∷ bare ∷ []) removal ≡ ok ([] ∷ bare ∷ [])
unfolding patch_objects apply_jsonpatch prune stays is_absent slashes lstrip split_from
second-emptied = refl

patch_objects-patched_example :
    patched emptying [] (bare ∷ full ∷ []) removal ≡ map ok (bare ∷ full ∷ [])
patch_objects-patched_example =
    patch_objects-patched emptying (bare ∷ full ∷ []) removal (bare ∷ full ∷ []) both-left
