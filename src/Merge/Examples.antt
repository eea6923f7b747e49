-- ===== src/Merge/Examples.antt =====
-- Tests and witnesses of the merge of documents (src/comfyui_docker_helper/config/merge.py): a base
-- and an override of the custom nodes, which are keyed by their `id`.
use comfyui_docker_helper.Prelude.{
  false, String, List, [], ◌∷◌, Option, none, some, ◌≡◌, refl, arith, All,
}
use comfyui_docker_helper.Merge.{
  SourceLocation, Children, get_child, name, Value, string, literal, table, array, Table, no_field,
  field, no_item, item, Part, Origin, get_field, MergeKey, recursive, keyed_sequence, exactly,
  PolicyRule, node_at,
}
use comfyui_docker_helper.Merge.Documents.{
  SourceDocument, MergedDocument, merge_toml_documents, merge_mapping,
}
use comfyui_docker_helper.Merge.Traced.{value_at}
use comfyui_docker_helper.Merge.Authored.{Proper, origin-Traced}
use comfyui_docker_helper.Merge.Layers.{ProperDocument, merge_has_origins}
use comfyui_docker_helper.Merge.Frame.{kept_field}
use comfyui_docker_helper.Merge.Precedence.{override_text_wins}
use comfyui_docker_helper.Merge.Origins.{origin_for_value, field_origins}

abbrev by_id : Value → Option MergeKey
by_id (table f) = elim (get_field "id" f) [ some (string s) ↦ some (s ∷ []) | _ ↦ none ]
by_id v = none

abbrev keyed_nodes : List PolicyRule
keyed_nodes =
    record {
      pattern = exactly "comfyui" ∷ exactly "nodes" ∷ [];
      policy = keyed_sequence by_id (λ base override. recursive);
    }
    ∷ []

abbrev node : String → Table → Value
node id more = table (field "id" (string id) more)

abbrev base_document : SourceDocument
base_document = record {
  source = record { layer_ordinal = 0; label = "base.toml" };
  document =
      field "comfyui"
        (table (
          field "version" (string "1") (
            field "nodes" (array (item (node "a" no_field) (item (node "b" no_field) no_item)))
              no_field)))
        no_field;
}

abbrev override_document : SourceDocument
override_document = record {
  source = record { layer_ordinal = 1; label = "site.toml" };
  document =
      field "comfyui"
        (table (
          field "nodes"
            (array (
              item (node "b" (field "pin" (literal "3") no_field))
                (item (node "c" no_field) no_item)))
            no_field))
        no_field;
}

abbrev layers : List SourceDocument
layers = base_document ∷ override_document ∷ []

layers-Proper : All ProperDocument layers
unfolding ProperDocument Proper get_field
layers-Proper = ground arith

abbrev merged_table : Option MergedDocument → Table
merged_table none = no_field
merged_table (some m) = m.document

merge_has_origins_example :
    (m : MergedDocument) × (merge_toml_documents keyed_nodes layers ≡ some m)
    × ((path : List Part)
        → (v : Value) → value_at (table m.document) path ≡ some v
        → (o : Origin) × (node_at m.origins path ≡ some o))
merge_has_origins_example = merge_has_origins keyed_nodes layers layers-Proper

abbrev base_fields : Table
base_fields = field "version" (string "1") (field "path" (string "/opt") no_field)

abbrev override_fields : Table
override_fields = field "path" (string "/srv") no_field

abbrev place : SourceLocation
place = record { source = record { layer_ordinal = 0; label = "base.toml" }; path = [] }

kept_field_example :
    (g : Table) × (nodes : Children) × (merge_mapping [] base_fields
        (field_origins base_fields place)
        override_fields
        (origin_for_value (table override_fields) place false)
        []
      ≡ some (g, nodes))
    × (get_field "version" g ≡ get_field "version" base_fields)
    × (get_child (name "version") nodes
        ≡ get_child (name "version") (field_origins base_fields place))
unfolding Proper get_field origin_for_value
kept_field_example =
    kept_field [] "version" base_fields override_fields
      (origin_for_value (table base_fields) place false)
      (origin_for_value (table override_fields) place false) []
      (origin-Traced (table base_fields) place false (refl, tt, (refl, tt, tt)))
      (origin-Traced (table override_fields) place false (refl, tt, tt)) refl

override_text_wins_example :
    (g : Table) × (nodes : Children) × (merge_mapping [] base_fields
        (field_origins base_fields place)
        override_fields
        (origin_for_value (table override_fields) place false)
        []
      ≡ some (g, nodes))
    × (get_field "path" g ≡ some (string "/srv"))
unfolding Proper get_field origin_for_value
override_text_wins_example =
    override_text_wins [] "path" "/srv" base_fields override_fields
      (origin_for_value (table base_fields) place false)
      (origin_for_value (table override_fields) place false) []
      (origin-Traced (table base_fields) place false (refl, tt, (refl, tt, tt)))
      (origin-Traced (table override_fields) place false (refl, tt, tt)) refl
