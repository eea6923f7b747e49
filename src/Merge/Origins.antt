-- ===== src/Merge/Origins.antt =====
-- The origin tree of one parsed document, `_origin_for_value`
-- (src/comfyui_docker_helper/config/merge.py).
use comfyui_docker_helper.Prelude.{ℕ, suc, Bool, true, [], ◌∷◌, ◌++◌, none, some, if◌then◌else◌}
use comfyui_docker_helper.Merge.{
  Value, string, literal, table, array, Table, no_field, field, Items, no_item, item, name, index,
  SourceLocation, Origin, origin_node, Children, no_child, child,
}

-- `_origin_for_value`
unfoldable mutual
  pub origin_for_value : Value → SourceLocation → Bool → Origin
  origin_for_value (string s) at boundary = origin_node (some at) none (at ∷ []) no_child
  origin_for_value (literal s) at boundary = origin_node (some at) none (at ∷ []) no_child
  origin_for_value (table fields) at boundary =
      origin_node (some at) (if boundary then some at else none) (at ∷ []) (field_origins fields at)
  origin_for_value (array items) at boundary =
      origin_node (some at) (if boundary then some at else none) (at ∷ []) (item_origins items 0 at)

  pub field_origins : Table → SourceLocation → Children
  field_origins no_field at = no_child
  field_origins (field key v rest) at =
      child (name key)
        (origin_for_value v (record { source = at.source; path = at.path ++ name key ∷ [] }) true)
        (field_origins rest at)

  pub item_origins : Items → ℕ → SourceLocation → Children
  item_origins no_item i at = no_child
  item_origins (item v rest) i at =
      child (index i)
        (origin_for_value v (record { source = at.source; path = at.path ++ index i ∷ [] }) true)
        (item_origins rest (suc i) at)
