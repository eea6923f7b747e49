-- ===== src/Merge/Frame.antt =====
-- What a merged mapping has at each key (src/comfyui_docker_helper/config/merge.py).
use text.Mathlib.Text.{◌==◌}
use comfyui_docker_helper.Prelude.{
  String, false, List, Option, none, some, ◌≡◌, ◌∙◌, refl, arith, Option-cases, inl, inr,
}
use comfyui_docker_helper.Merge.Traced.{Traced, table-Distinct, table-FieldsTraced}
use comfyui_docker_helper.Merge.Steps.{MappingResult}
use comfyui_docker_helper.Merge.Parallel.{merge_mapping-Traced}
use comfyui_docker_helper.Merge.{
  Value, table, Table, no_field, field, Part, name, Origin, Children, children_of, get_field,
  get_child, same_part, PolicyRule,
}
use comfyui_docker_helper.Merge.Dicts.{get-put_field, get-put_child}
use comfyui_docker_helper.Merge.Documents.{and_then, put_pair, merge_field, merge_mapping}

-- A result, if there is one, has at `key` the value and the node of the first mapping.
unfoldable pub Keeps : String → Table → Children → Option (Table × Children) → Type 0
Keeps key f children none = Unit
Keeps key f children (some (g, nodes)) =
    (get_field key g ≡ get_field key f)
    × (get_child (name key) nodes ≡ get_child (name key) children)

put_pair-Keeps :
    (key k : String)
    → (f : Table) → (children : Children) → (r : Option (Value × Origin)) → (k == key) ≡ false
    → Keeps key f children (put_pair k f children r)
unfolding Keeps same_part
put_pair-Keeps key k f children none other = tt
put_pair-Keeps key k f children (some (v, o)) other =
    (rw get-put_field (rw other refl), rw get-put_child (rw other refl))

with_child-Keeps :
    (key : String)
    → (f : Table) → (children : Children) → (found : Option Origin)
    → (go : Origin → Option (Table × Children)) → ((o : Origin) → Keeps key f children (go o))
    → Keeps key f children
        (elim found as (λ _. Option (Table × Children)) [ none ↦ none | some o ↦ go o ])
unfolding Keeps
with_child-Keeps key f children none go h = tt
with_child-Keeps key f children (some o) go h = h o

merge_field-Keeps :
    (key k : String)
    → (merge : Value → Origin → Origin → Option (Value × Origin)) → (v : Value) → (f : Table)
    → (children : Children) → (o : Origin) → (k == key) ≡ false
    → Keeps key f children (merge_field merge k v f children o)
unfolding merge_field Keeps same_part
merge_field-Keeps key k merge v f children o other = elim (Option-cases (get_field k f)) [
  | inl missing ↦
      rw (missing, merge_field) (rw get-put_field (rw other refl), rw get-put_child (rw other refl))
  | inr (current, found) ↦
      rw (found, merge_field)
        (with_child-Keeps key f children (get_child (name k) children) _
          (λ base. put_pair-Keeps key k f children _ other))
]

and_then-Keeps :
    (key : String)
    → (f : Table) → (children : Children) → (r : Option (Table × Children))
    → (go : Table → Children → Option (Table × Children)) → Keeps key f children r
    → ((g : Table) → (c : Children) → Keeps key g c (go g c))
    → Keeps key f children (and_then r go)
unfolding Keeps
and_then-Keeps key f children none go h rest = tt
and_then-Keeps key f children (some (g, c)) go (hf, hc) rest = through (go g c) (rest g c)
  where
    through : (r : Option (Table × Children)) → Keeps key g c r → Keeps key f children r
    through none h = tt
    through (some (g', c')) (hg, hd) = (hg ∙ hf, hd ∙ hc)

pub merge_mapping-Keeps :
    (policies : List PolicyRule)
    → (key : String) → (f overriding : Table) → (children : Children) → (origin : Origin)
    → (path : List Part) → get_field key overriding ≡ none
    → Keeps key f children (merge_mapping policies f children overriding origin path)
unfolding Keeps merge_mapping get_field
merge_mapping-Keeps policies key f no_field children origin path absent = (refl, refl)
merge_mapping-Keeps policies key f (field k v rest) children origin path absent =
    with_child-Keeps key f children (get_child (name k) (children_of origin)) _ (λ o.
      and_then-Keeps key f children _ _
        (merge_field-Keeps key k _ v f children o (ground (arith, absent)))
        (λ g c. merge_mapping-Keeps policies key g rest c origin path (ground (arith, absent))))

found_Keeps :
    (key : String)
    → (f : Table) → (children : Children) → (r : Option (Table × Children)) → MappingResult r
    → Keeps key f children r
    → (g : Table) × (nodes : Children) × (r ≡ some (g, nodes))
      × (get_field key g ≡ get_field key f)
      × (get_child (name key) nodes ≡ get_child (name key) children)
unfolding Keeps MappingResult
found_Keeps key f children none h keeps = absurd h
found_Keeps key f children (some (g, nodes)) h (value, node) = (g, nodes, refl, value, node)

-- A merge of mappings whose origin trees account for them succeeds, and a key that the override
-- does not have keeps its value and its node in it.
pub kept_field :
    (policies : List PolicyRule)
    → (key : String) → (f overriding : Table) → (base origin : Origin) → (path : List Part)
    → Traced (table f) base
    → Traced (table overriding) origin
    → get_field key overriding ≡ none
    → (g : Table) × (nodes : Children) × (merge_mapping policies f
          (children_of base)
          overriding
          origin
          path
        ≡ some (g, nodes))
      × (get_field key g ≡ get_field key f)
      × (get_child (name key) nodes ≡ get_child (name key) (children_of base))
kept_field policies key f overriding base origin path hf ho absent =
    found_Keeps key f (children_of base) _
      (merge_mapping-Traced policies f (children_of base) overriding origin path
        (table-Distinct f base hf) (table-FieldsTraced f base hf)
        (table-Distinct overriding origin ho) (table-FieldsTraced overriding origin ho))
      (merge_mapping-Keeps policies key f overriding (children_of base) origin path absent)
