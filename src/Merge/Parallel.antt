-- ===== src/Merge/Parallel.antt =====
-- The merge of documents with their origin trees (src/comfyui_docker_helper/config/merge.py).
use text.Mathlib.TextPositions.{eq_refl}
use text.Mathlib.TextEquality.{eq_iff}
use comfyui_docker_helper.Prelude.{
  ℕ, suc, ◌+◌, ◌≤◌, String, List, [], ◌∷◌, ◌++◌, Option, none, some, arith, ◌≡◌, refl, subst,
}
use comfyui_docker_helper.Merge.{
  Value, string, literal, table, array, Table, no_field, field, Items, no_item, item, Part, name,
  index, Origin, Children, children_of, get_field, get_child, get_item, count_items, PolicyRule,
  FieldPolicy, policy_for,
}
use comfyui_docker_helper.Merge.Documents.{
  finish_mapping, finish_sequence, overlay, mapping_base, keyed_base, merge_value, merge_mapping,
  merge_keyed_sequence, mapping_node, sequence_node,
}
use comfyui_docker_helper.Merge.Keys.{Sequence}
use comfyui_docker_helper.Merge.Traced.{
  Distinct, Traced, Node, FieldsTraced, ItemsTraced, table-Distinct, table-Traced, array-Traced,
  table-FieldsTraced, array-ItemsTraced,
}
use comfyui_docker_helper.Merge.Steps.{
  ValueResult, MappingResult, SequenceResult, Merges, with_child-Node, and_then-Mapping,
  and_then-Sequence, merge_field-Mapping, merge_item-Sequence,
}

FieldsTraced-rest :
    (k : String)
    → (v : Value) → (rest : Table) → (children : Children) → Distinct (field k v rest)
    → FieldsTraced (field k v rest) children
    → FieldsTraced rest children
unfolding Distinct FieldsTraced get_field
FieldsTraced-rest k v rest children (fresh, d) h j w e =
    h j w (ground (arith, fresh, e, eq_iff k j))

later_fields :
    (k : String) → (v : Value) → (rest : Table) → Distinct (field k v rest) → Distinct rest
unfolding Distinct
later_fields k v rest (fresh, d) = d

-- The items from index `start` on have their nodes.
ItemsLeft : ℕ → Items → Children → Type 0
ItemsLeft start l children =
    (i : ℕ) → (v : Value) → get_item i l ≡ some v → Node v (get_child (index (start + i)) children)

array-ItemsLeft : (l : Items) → (o : Origin) → Traced (array l) o → ItemsLeft 0 l (children_of o)
unfolding ItemsLeft ItemsTraced Node
array-ItemsLeft l o t i v e =
    let (found, at, traced) = array-ItemsTraced l o t i v e in (found, ground (arith, at), traced)

ItemsLeft-first :
    (start : ℕ)
    → (v : Value) → (rest : Items) → (children : Children) → ItemsLeft start (item v rest) children
    → Node v (get_child (index start) children)
unfolding ItemsLeft Node get_item
ItemsLeft-first start v rest children h =
    let (found, at, traced) = h 0 v refl in (found, ground (arith, at), traced)

ItemsLeft-rest :
    (start : ℕ)
    → (v : Value) → (rest : Items) → (children : Children) → ItemsLeft start (item v rest) children
    → ItemsLeft (suc start) rest children
unfolding ItemsLeft Node get_item
ItemsLeft-rest start v rest children h i w e =
    let (found, at, traced) = h (suc i) w e in (found, ground (arith, at), traced)

FieldsTraced-first :
    (k : String)
    → (v : Value) → (rest : Table) → (children : Children) → FieldsTraced (field k v rest) children
    → Node v (get_child (name k) children)
unfolding FieldsTraced get_field
FieldsTraced-first k v rest children h = h k v (ground (arith, eq_refl k))

overlay-ValueResult :
    {A : Type 0}
    → (v : Value) → (o : Origin) → (r : Option A) → (merge : A → Option (Value × Origin))
    → Traced v o
    → ((found : A) → r ≡ some found → ValueResult (merge found))
    → ValueResult (overlay (v, o) r merge)
unfolding ValueResult
overlay-ValueResult v o none merge h rest = h
overlay-ValueResult v o (some found) merge h rest = rest found refl

finish_mapping-ValueResult :
    (base origin : Origin)
    → (r : Option (Table × Children)) → MappingResult r
    → ValueResult (finish_mapping base origin r)
unfolding MappingResult ValueResult mapping_node
finish_mapping-ValueResult base origin none h = absurd h
finish_mapping-ValueResult base origin (some (f, c)) (d, h) = table-Traced f _ d h

finish_sequence-ValueResult :
    (n : ℕ)
    → (base origin : Origin) → (r : Option (Items × Children)) → SequenceResult n r
    → ValueResult (finish_sequence base origin r)
unfolding SequenceResult ValueResult sequence_node
finish_sequence-ValueResult n base origin none h = absurd h
finish_sequence-ValueResult n base origin (some (l, c)) (long, h) = array-Traced l _ h

mapping_base-table :
    (policy : Option FieldPolicy)
    → (base : Value) → (f : Table) → mapping_base policy base ≡ some f
    → base ≡ table f
unfolding mapping_base
mapping_base-table policy base f h = ground (arith, h)

keyed_base-array :
    (policy : Option FieldPolicy)
    → (base : Value) → (l : Items) → (s : Sequence) → keyed_base policy base l ≡ some s
    → base ≡ array s.base
unfolding keyed_base
keyed_base-array policy base l s h = ground (arith, h)

module _ (policies : List PolicyRule) where
  mutual
    unfolding merge_value merge_mapping merge_keyed_sequence ValueResult MappingResult
        SequenceResult Merges

    pub merge_value-Traced :
        (base v : Value)
        → (base_origin origin : Origin) → (path : List Part) → Traced base base_origin
        → Traced v origin
        → ValueResult (merge_value policies base v base_origin origin path)
    merge_value-Traced base (string s) base_origin origin path hb h = h
    merge_value-Traced base (literal s) base_origin origin path hb h = h
    merge_value-Traced base (table f) base_origin origin path hb h =
        overlay-ValueResult (table f) origin (mapping_base (policy_for policies path) base) _ h
          (λ merged found.
            let hm =
              subst (λ b. Traced b base_origin) (mapping_base-table _ base merged found) hb in
            finish_mapping-ValueResult base_origin origin _ (
              merge_mapping-Traced merged (children_of base_origin) f origin path
                (table-Distinct merged base_origin hm) (table-FieldsTraced merged base_origin hm)
                (table-Distinct f origin h) (table-FieldsTraced f origin h)))
    merge_value-Traced base (array l) base_origin origin path hb h =
        overlay-ValueResult (array l) origin (keyed_base (policy_for policies path) base l) _ h
          (λ s found. finish_sequence-ValueResult (count_items s.base) base_origin origin _ (
            merge_keyed_sequence-Traced s s.base (children_of base_origin) l 0 origin path
              (omega arith)
              (array-ItemsTraced s.base base_origin
                (subst (λ b. Traced b base_origin) (keyed_base-array _ base l s found) hb))
              (array-ItemsLeft l origin h)))

    pub merge_mapping-Traced :
        (merged : Table)
        → (children : Children) → (f : Table) → (origin : Origin) → (path : List Part)
        → Distinct merged
        → FieldsTraced merged children
        → Distinct f
        → FieldsTraced f (children_of origin)
        → MappingResult (merge_mapping policies merged children f origin path)
    merge_mapping-Traced merged children no_field origin path dm hm d h = (dm, hm)
    merge_mapping-Traced merged children (field k v rest) origin path dm hm d h =
        with_child-Node MappingResult v (name k) (children_of origin) _
          (FieldsTraced-first k v rest _ h)
          (λ o t.
            and_then-Mapping _ _
              (merge_field-Mapping _ k v merged children o dm hm t
                (λ current base t'. merge_value-Traced current v base o (path ++ name k ∷ []) t' t))
              (λ f' c' d' h'.
                merge_mapping-Traced f' c' rest origin path d' h' (later_fields k v rest d)
                  (FieldsTraced-rest k v rest _ d h)))

    merge_keyed_sequence-Traced :
        (s : Sequence)
        → (result : Items) → (children : Children) → (l : Items) → (authored : ℕ)
        → (origin : Origin) → (path : List Part) → count_items s.base ≤ count_items result
        → ItemsTraced result children
        → ItemsLeft authored l (children_of origin)
        → SequenceResult
            (count_items s.base)
            (merge_keyed_sequence policies s result children l authored origin path)
    merge_keyed_sequence-Traced s result children no_item authored origin path long hr h =
        (long, hr)
    merge_keyed_sequence-Traced s result children (item v rest) authored origin path long hr h =
        with_child-Node (SequenceResult (count_items s.base)) v (index authored)
          (children_of origin) _ (ItemsLeft-first authored v rest _ h)
          (λ o t.
            and_then-Sequence _ _ _
              (merge_item-Sequence _ s v result children o long hr t (λ i current base t'.
                merge_value-Traced current v base o (path ++ index i ∷ []) t' t))
              (λ l' c' long' h'.
                merge_keyed_sequence-Traced s l' c' rest (suc authored) origin path long' h'
                  (ItemsLeft-rest authored v rest _ h)))
