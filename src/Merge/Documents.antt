-- ===== src/Merge/Documents.antt =====
-- The merge of documents (src/comfyui_docker_helper/config/merge.py). `none` is a `KeyError` or an
-- `IndexError`.
use comfyui_docker_helper.Prelude.{ℕ, suc, String, false, List, [], ◌∷◌, ◌++◌, Option, none, some}
use comfyui_docker_helper.Merge.{
  Value, string, literal, table, array, Table, no_field, field, Items, no_item, item, Part, name,
  index, SourceReference, SourceLocation, Origin, origin_node, Children, no_child, authored_at,
  contributors_of, children_of, get_field, put_field, get_child, put_child, get_item, set_item,
  append_item, count_items, recursive, atomic, FieldPolicy, atomic_policy, keyed_sequence,
  PolicyRule, policy_for, ordered_contributors,
}
use comfyui_docker_helper.Merge.Keys.{matched_key, Sequence, base_index}
use comfyui_docker_helper.Merge.Origins.{origin_for_value}

-- `authored_at` of a merged mapping.
unfoldable pub merged_authored_at : Origin → Origin → Option SourceLocation
merged_authored_at base overriding = elim (contributors_of overriding) [
  | [] ↦ authored_at base
  | at ∷ rest ↦ elim (contributors_of base) [ [] ↦ authored_at overriding | other ∷ more ↦ none ]
]

unfoldable pub mapping_node : Origin → Origin → Children → Origin
mapping_node base overriding children =
    origin_node (merged_authored_at base overriding) none
      (ordered_contributors (contributors_of base) (contributors_of overriding)) children

unfoldable pub sequence_node : Origin → Origin → Children → Origin
sequence_node base overriding children =
    origin_node none none (ordered_contributors (contributors_of base) (contributors_of overriding))
      children

abbrev pub finish_mapping : Origin → Origin → Option (Table × Children) → Option (Value × Origin)
finish_mapping base overriding none = none
finish_mapping base overriding (some (fields, children)) =
    some (table fields, mapping_node base overriding children)

abbrev pub finish_sequence : Origin → Origin → Option (Items × Children) → Option (Value × Origin)
finish_sequence base overriding none = none
finish_sequence base overriding (some (items, children)) =
    some (array items, sequence_node base overriding children)

-- `merged[key], children[key] = merged_pair`
abbrev pub put_pair :
    String → Table → Children → Option (Value × Origin) → Option (Table × Children)
put_pair key fields children none = none
put_pair key fields children (some (v, o)) =
    some (put_field key v fields, put_child (name key) o children)

-- `result[i], children[i] = merged_pair`
abbrev pub set_pair : ℕ → Items → Children → Option (Value × Origin) → Option (Items × Children)
set_pair i items children none = none
set_pair i items children (some (v, o)) = some (set_item i v items, put_child (index i) o children)

abbrev pub and_then {ℓ} : {A B C : Type ℓ} → Option (A × B) → (A → B → Option C) → Option C
and_then none go = none
and_then (some (a, b)) go = go a b

abbrev pub with_child {ℓ} : {A : Type ℓ} → Part → Children → (Origin → Option A) → Option A
with_child part children go = elim (get_child part children) [ none ↦ none | some o ↦ go o ]

-- Where a field of the override meets the base: `merge` is `_merge_value` at the pair's values.
unfoldable pub merge_field :
    (Value → Origin → Origin → Option (Value × Origin))
    → String
    → Value
    → Table
    → Children
    → Origin
    → Option (Table × Children)
merge_field merge key v merged children overriding = elim (get_field key merged) [
  | none ↦ some (put_field key v merged, put_child (name key) overriding children)
  | some current ↦
      with_child (name key) children
        (λ base. put_pair key merged children (merge current base overriding))
]

-- Where an item of the override meets the base.
unfoldable pub merge_item_at :
    (Value → Origin → Option (Value × Origin))
    → Sequence
    → Value
    → ℕ
    → Items
    → Children
    → Origin
    → Option (Items × Children)
merge_item_at merge s v i result children overriding = elim (get_item i result) [
  | none ↦ none
  | some current ↦ elim (s.item_merge current v) [
    | atomic ↦ some (set_item i v result, put_child (index i) overriding children)
    | recursive ↦
        with_child (index i) children (λ base. set_pair i result children (merge current base))
  ]
]

unfoldable pub merge_item :
    (ℕ → Value → Origin → Option (Value × Origin))
    → Sequence
    → Value
    → Items
    → Children
    → Origin
    → Option (Items × Children)
merge_item merge s v result children overriding =
    elim (matched_key s.identity s.base s.overriding v) [
      | none ↦
          some (append_item result v, put_child (index (count_items result)) overriding children)
      | some key ↦ elim (base_index s key) [
        | none ↦ none
        | some i ↦ merge_item_at (merge i) s v i result children overriding
      ]
    ]

-- The mapping that `_merge_value` merges a mapping into; `none` where it replaces the base.
unfoldable pub mapping_base : Option FieldPolicy → Value → Option Table
mapping_base (some atomic_policy) base = none
mapping_base policy (table fields) = some fields
mapping_base policy base = none

-- The lists that `_merge_keyed_sequence` merges; `none` where the override replaces the base, which
-- it does if either list is empty.
unfoldable pub keyed_base : Option FieldPolicy → Value → Items → Option Sequence
keyed_base (some (keyed_sequence identity item_merge)) (array (item v rest)) (item w more) =
    some (record {
      identity = identity;
      item_merge = item_merge;
      base = item v rest;
      overriding = item w more;
    })
keyed_base policy base items = none

-- The override in place of the base, or merged into what is found.
abbrev pub overlay :
    {A : Type 0}
    → Value × Origin
    → Option A
    → (A → Option (Value × Origin))
    → Option (Value × Origin)
overlay replacing none merge = some replacing
overlay replacing (some found) merge = merge found

module _ (policies : List PolicyRule) where
  unfoldable mutual
    -- `_merge_value`, on the value of the override.
    pub merge_value : Value → Value → Origin → Origin → List Part → Option (Value × Origin)
    merge_value base (string s) base_origin origin path = some (string s, origin)
    merge_value base (literal s) base_origin origin path = some (literal s, origin)
    merge_value base (table fields) base_origin origin path =
        overlay (table fields, origin) (mapping_base (policy_for policies path) base)
          (λ merged.
            finish_mapping base_origin origin
              (merge_mapping merged (children_of base_origin) fields origin path))
    merge_value base (array items) base_origin origin path =
        overlay (array items, origin) (keyed_base (policy_for policies path) base items)
          (λ s.
            finish_sequence base_origin origin
              (merge_keyed_sequence s s.base (children_of base_origin) items 0 origin path))

    -- The loop of `_merge_mapping`, from `merged` and `children` on.
    pub merge_mapping : Table → Children → Table → Origin → List Part → Option (Table × Children)
    merge_mapping merged children no_field origin path = some (merged, children)
    merge_mapping merged children (field key v rest) origin path =
        with_child (name key) (children_of origin) (λ overriding.
          and_then
            (merge_field (λ current base o. merge_value current v base o (path ++ name key ∷ []))
              key v merged children overriding)
            (λ fields nodes. merge_mapping fields nodes rest origin path))

    -- The loop of `_merge_keyed_sequence`, from the item at `authored` on.
    pub merge_keyed_sequence :
        Sequence → Items → Children → Items → ℕ → Origin → List Part → Option (Items × Children)
    merge_keyed_sequence s result children no_item authored origin path = some (result, children)
    merge_keyed_sequence s result children (item v rest) authored origin path =
        with_child (index authored) (children_of origin) (λ overriding.
          and_then
            (merge_item
              (λ i current base. merge_value current v base overriding (path ++ index i ∷ [])) s v
              result children overriding)
            (λ items nodes. merge_keyed_sequence s items nodes rest (suc authored) origin path))

-- One parsed document with its source.
pub record SourceDocument : Type 0 where
  pub source : SourceReference
  pub document : Table

-- `MergedDocument`
pub record MergedDocument : Type 0 where
  pub document : Table
  pub origins : Origin

unfoldable pub document_origins : SourceDocument → Origin
document_origins d =
    origin_for_value (table d.document) (record { source = d.source; path = [] }) false

-- The loop of `merge_toml_documents`, from `merged` on.
unfoldable pub merge_onto :
    List PolicyRule → MergedDocument → List SourceDocument → Option MergedDocument
merge_onto policies merged [] = some merged
merge_onto policies merged (d ∷ documents) =
    and_then
      (merge_mapping policies merged.document (children_of merged.origins) d.document
        (document_origins d) [])
      (λ fields nodes.
        merge_onto policies
          (record {
            document = fields;
            origins = mapping_node merged.origins (document_origins d) nodes;
          })
          documents)

unfoldable pub merge_toml_documents : List PolicyRule → List SourceDocument → Option MergedDocument
merge_toml_documents policies documents =
    merge_onto policies
      (record { document = no_field; origins = origin_node none none [] no_child }) documents
