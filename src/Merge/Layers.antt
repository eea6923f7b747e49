-- ===== src/Merge/Layers.antt =====
-- The merge of the layers of a configuration, `merge_toml_documents`
-- (src/comfyui_docker_helper/config/merge.py).
use comfyui_docker_helper.Prelude.{List, [], ◌∷◌, Option, none, some, ◌≡◌, refl, All, arith}
use comfyui_docker_helper.Merge.{
  Value, table, Table, no_field, Part, Origin, origin_node, Children, no_child, children_of,
  PolicyRule, node_at, get_field,
}
use comfyui_docker_helper.Merge.Documents.{
  and_then, mapping_node, SourceDocument, MergedDocument, document_origins, merge_onto,
  merge_toml_documents,
}
use comfyui_docker_helper.Merge.Traced.{
  Distinct, Traced, Node, FieldsTraced, table-Distinct, table-Traced, table-FieldsTraced, value_at,
}
use comfyui_docker_helper.Merge.Authored.{Proper, origin-Traced, node_at-Node}
use comfyui_docker_helper.Merge.Steps.{MappingResult}
use comfyui_docker_helper.Merge.Parallel.{merge_mapping-Traced}

-- A parsed document has each key of each table once.
unfoldable pub ProperDocument : SourceDocument → Type 0
ProperDocument d = Proper (table d.document)

pub TracedDocument : MergedDocument → Type 0
TracedDocument m = Traced (table m.document) m.origins

-- A merged document, whose tree accounts for it.
pub Merged : Option MergedDocument → Type 0
Merged none = ⊥
Merged (some m) = TracedDocument m

and_then-Merged :
    (r : Option (Table × Children))
    → (go : Table → Children → Option MergedDocument) → MappingResult r
    → ((f : Table) → (c : Children) → Distinct f → FieldsTraced f c → Merged (go f c))
    → Merged (and_then r go)
unfolding MappingResult
and_then-Merged none go h rest = absurd h
and_then-Merged (some (f, c)) go (d, h) rest = rest f c d h

module _ (policies : List PolicyRule) where
  merge_onto-Merged :
      (merged : MergedDocument)
      → (documents : List SourceDocument) → TracedDocument merged
      → All ProperDocument documents
      → Merged (merge_onto policies merged documents)
  unfolding merge_onto Merged TracedDocument ProperDocument document_origins mapping_node
  merge_onto-Merged merged [] h proper = h
  merge_onto-Merged merged (d ∷ documents) h (p, proper) =
      let authored = origin-Traced (table d.document) _ _ p in
      and_then-Merged _ _
        (merge_mapping-Traced policies merged.document (children_of merged.origins) d.document
          (document_origins d) [] (table-Distinct merged.document merged.origins h)
          (table-FieldsTraced merged.document merged.origins h)
          (table-Distinct d.document (document_origins d) authored)
          (table-FieldsTraced d.document (document_origins d) authored))
        (λ f c distinct fields.
          merge_onto-Merged
            (record { document = f; origins = mapping_node merged.origins (document_origins d) c })
            documents
            (table-Traced f (mapping_node merged.origins (document_origins d) c) distinct fields)
            proper)

Merged-some :
    (r : Option MergedDocument) → Merged r → (m : MergedDocument) × (r ≡ some m) × TracedDocument m
unfolding Merged
Merged-some none h = absurd h
Merged-some (some m) h = (m, refl, h)

empty-Traced : Traced (table no_field) (origin_node none none [] no_child)
unfolding Distinct FieldsTraced get_field
empty-Traced = table-Traced no_field (origin_node none none [] no_child) tt (λ k v e. ground arith)

-- Documents that have each key of each table once are merged without a missing key or index,
-- whatever the policies, and for each path that is in the merged document the origin tree has a
-- node at that path.
pub merge_has_origins :
    (policies : List PolicyRule)
    → (documents : List SourceDocument) → All ProperDocument documents
    → (m : MergedDocument) × (merge_toml_documents policies documents ≡ some m)
      × ((path : List Part)
          → (v : Value) → value_at (table m.document) path ≡ some v
          → (o : Origin) × (node_at m.origins path ≡ some o))
unfolding merge_toml_documents TracedDocument Node
merge_has_origins policies documents proper =
    let (m, e, traced) =
      Merged-some _ (merge_onto-Merged policies _ documents empty-Traced proper) in
    (m, e, λ path v at. let (o, found, h) = node_at-Node path _ v _ traced at in (o, found))
