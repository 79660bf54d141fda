-- ===== src/Api/Patch/Shared.antt =====
-- The list of operations that the nodes of one request share.
use xcat.Prelude.{
  inl, inr, ap, sym, ◌∙◌, ◌≡◌, refl, Bool, true, false, ◌&&◌, List, [], ◌∷◌, ◌++◌, map, select,
  arith,
}
use xcat.Db.{Result, ok, err, Result-cases}
use xcat.Api.Patch.{Patch, Doc, stays, prune, JsonPatch, apply_jsonpatch, patch_objects}

-- The operation stays for a node.
abbrev pub keeps : Doc → Patch → Bool
keeps doc p = elim (stays doc p) [ ok kept ↦ kept | err e ↦ false ]

abbrev pub kept_by : List Doc → Patch → Bool
kept_by [] p = true
kept_by (doc ∷ docs) p = keeps doc p && kept_by docs p

prune_lem :
    (doc : Doc) (ps left : List Patch) → prune doc ps ≡ ok left → select (keeps doc) ps ≡ left
unfolding prune
prune_lem doc [] left h = ground (arith, h)
prune_lem doc (p ∷ ps) left h = elim (Result-cases (prune doc ps)) [
  | inr (x, e) ↦ elim (Result-cases (stays doc p)) [
    | inr (y, f) ↦ ground (arith, h, f)
    | inl (kept, f) ↦ ground (arith, h, e, f)
  ]
  | inl (more, e) ↦ elim (Result-cases (stays doc p)) [
    | inr (y, f) ↦ ground (arith, h, f)
    | inl (kept, f) ↦ ground (arith, h, e, f, prune_lem doc ps more e)
  ]
]

kept_by-append :
    (docs : List Doc) (doc : Doc) (p : Patch)
    → kept_by (docs ++ doc ∷ []) p ≡ kept_by docs p && keeps doc p
kept_by-append [] doc p = ground arith
kept_by-append (d ∷ docs) doc p = ground (arith, kept_by-append docs doc p)

select-kept_by :
    (docs : List Doc) (doc : Doc) (ps : List Patch)
    → select (keeps doc) (select (kept_by docs) ps) ≡ select (kept_by (docs ++ doc ∷ [])) ps
select-kept_by docs doc [] = refl
select-kept_by docs doc (p ∷ ps) =
    ground (arith, kept_by-append docs doc p, select-kept_by docs doc ps)

-- What the operations make of each node: those that it and all nodes before it keep.
abbrev pub patched : JsonPatch → List Doc → List Doc → List Patch → List (Result Doc)
patched apply before [] ps = []
patched apply before (doc ∷ docs) ps =
    apply doc (select (kept_by (before ++ doc ∷ [])) ps)
    ∷ patched apply (before ++ doc ∷ []) docs ps

patch_objects_from :
    (apply : JsonPatch) (before docs : List Doc) (ps : List Patch) (news : List Doc)
    → patch_objects apply docs (select (kept_by before) ps) ≡ ok news
    → patched apply before docs ps ≡ map ok news
unfolding patch_objects apply_jsonpatch
patch_objects_from apply before [] ps news h = let e : [] ≡ news = cc in rw (sym e) refl
patch_objects_from apply before (doc ∷ docs) ps news h =
    elim (Result-cases (prune doc (select (kept_by before) ps))) [
      | inr (x, e) ↦ ground (arith, h, e)
      | inl (left, e) ↦
          let same : select (kept_by (before ++ doc ∷ [])) ps ≡ left =
            sym (select-kept_by before doc ps)
            ∙ prune_lem doc (select (kept_by before) ps) left e in
          elim (Result-cases (apply doc left)) [
            | inr (x, f) ↦ ground (arith, h, e, f)
            | inl (new, f) ↦ elim (Result-cases (patch_objects apply docs left)) [
              | inr (x, g) ↦ ground (arith, h, e, f, g)
              | inl (rest, g) ↦
                  let later =
                    patch_objects_from apply (before ++ doc ∷ []) docs ps rest
                      (ap (patch_objects apply docs) same ∙ g) in
                  let all : news ≡ new ∷ rest = ground (arith, h, e, f, g) in
                  rw (all, same, f, later) refl
            ]
          ]
    ]

select-all_kept : (ps : List Patch) → select (kept_by []) ps ≡ ps
select-all_kept [] = refl
select-all_kept (p ∷ ps) = ap (λ l. p ∷ l) (select-all_kept ps)

-- If a patch of nodes makes a new document of each, the document of a node is what the operations
-- make of it that are kept for this node and for every node before it in the request, so that a
-- removal which does not apply to one node is not made for those after it.
pub patch_objects-patched :
    (apply : JsonPatch) (docs : List Doc) (ps : List Patch) (news : List Doc)
    → patch_objects apply docs ps ≡ ok news
    → patched apply [] docs ps ≡ map ok news
patch_objects-patched apply docs ps news h =
    patch_objects_from apply [] docs ps news
      (ap (patch_objects apply docs) (select-all_kept ps) ∙ h)
