-- ===== src/Merge/Authored.antt =====
-- The origin tree of one parsed document, `_origin_for_value`, and the way through an origin tree
-- (src/comfyui_docker_helper/config/merge.py).
use text.Mathlib.Text.{◌==◌}
use comfyui_docker_helper.Prelude.{
  ℕ, zero, suc, ◌+◌, String, Bool, true, List, [], ◌∷◌, Option, none, some, arith, ◌≡◌, refl, subst,
  sym, Bool-cases, inl, inr, Option-cases,
}
use comfyui_docker_helper.Merge.{
  Value, string, literal, table, array, Table, no_field, field, Items, no_item, item, Part, name,
  index, SourceLocation, Origin, Children, child, get_field, get_child, get_item, same_part,
  node_at,
}
use comfyui_docker_helper.Merge.Origins.{origin_for_value, field_origins, item_origins}
use comfyui_docker_helper.Merge.Traced.{
  Distinct, Traced, Node, FieldsTraced, ItemsTraced, table-Traced, array-Traced, string-Traced,
  literal-Traced, table-FieldsTraced, array-ItemsTraced, value_at,
}

some-inj : (v w : Value) → some v ≡ some w → v ≡ w
some-inj v w e = cc e

unfoldable mutual
  -- Every table within the value has each key once, as a parsed document has.
  pub Proper : Value → Type 0
  Proper (string s) = Unit
  Proper (literal s) = Unit
  Proper (table f) = ProperFields f
  Proper (array l) = ProperItems l

  pub ProperFields : Table → Type 0
  ProperFields no_field = Unit
  ProperFields (field k v rest) = (get_field k rest ≡ none) × Proper v × ProperFields rest

  pub ProperItems : Items → Type 0
  ProperItems no_item = Unit
  ProperItems (item v rest) = Proper v × ProperItems rest

pub ProperFields-Distinct : (f : Table) → ProperFields f → Distinct f
unfolding Proper Distinct
ProperFields-Distinct no_field h = tt
ProperFields-Distinct (field k v rest) (e, h, more) = (e, ProperFields-Distinct rest more)

-- The children of a mapping and of a list, one more at the front.
FieldsTraced-field :
    (j : String)
    → (w : Value) → (rest : Table) → (o : Origin) → (children : Children) → Traced w o
    → FieldsTraced rest children
    → FieldsTraced (field j w rest) (child (name j) o children)
unfolding FieldsTraced get_field get_child same_part Node
FieldsTraced-field j w rest o children t more k v = elim (Bool-cases (j == k)) [
  | inl same ↦ rw same (λ e. (o, refl, subst (λ x. Traced x o) (some-inj w v e) t))
  | inr other ↦ rw other (λ e. more k v e)
]

-- The nodes of a list from index `start` on.
ItemsFrom : ℕ → Items → Children → Type 0
ItemsFrom start l children =
    (i : ℕ) → (v : Value) → get_item i l ≡ some v → Node v (get_child (index (start + i)) children)

ItemsFrom-item :
    (start : ℕ)
    → (w : Value) → (rest : Items) → (o : Origin) → (children : Children) → Traced w o
    → ItemsFrom (suc start) rest children
    → ItemsFrom start (item w rest) (child (index start) o children)
unfolding ItemsFrom get_item get_child same_part Node
ItemsFrom-item start w rest o children t more zero v e =
    (o, ground arith, subst (λ x. Traced x o) (some-inj w v e) t)
ItemsFrom-item start w rest o children t more (suc i) v e =
    let (found, at, traced) = more i v e in (found, ground (arith, at), traced)

ItemsFrom-zero :
    (l : Items) → (children : Children) → ItemsFrom 0 l children → ItemsTraced l children
unfolding ItemsFrom ItemsTraced Node
ItemsFrom-zero l children h i v e = let (o, at, t) = h i v e in (o, ground (arith, at), t)

mutual
  unfolding origin_for_value Proper FieldsTraced ItemsTraced ItemsFrom get_field get_item

  pub origin-Traced :
      (v : Value)
      → (at : SourceLocation) → (boundary : Bool) → Proper v
      → Traced v (origin_for_value v at boundary)
  origin-Traced (string s) at boundary h = string-Traced s _
  origin-Traced (literal s) at boundary h = literal-Traced s _
  origin-Traced (table f) at boundary h =
      table-Traced f (origin_for_value (table f) at boundary) (ProperFields-Distinct f h)
        (field_origins-Traced f at h)
  origin-Traced (array l) at boundary h =
      array-Traced l (origin_for_value (array l) at boundary)
        (ItemsFrom-zero l _ (item_origins-Traced l 0 at h))

  field_origins-Traced :
      (f : Table) → (at : SourceLocation) → ProperFields f → FieldsTraced f (field_origins f at)
  field_origins-Traced no_field at h k v e = ground arith
  field_origins-Traced (field j w rest) at (fresh, h, more) k v e =
      FieldsTraced-field j w rest _ _ (origin-Traced w _ true h) (field_origins-Traced rest at more)
        k v e

  item_origins-Traced :
      (l : Items)
      → (start : ℕ) → (at : SourceLocation) → ProperItems l
      → ItemsFrom start l (item_origins l start at)
  item_origins-Traced no_item start at h i v e = ground arith
  item_origins-Traced (item w rest) start at (h, more) i v e =
      ItemsFrom-item start w rest _ _ (origin-Traced w _ true h)
        (item_origins-Traced rest (suc start) at more) i v e

step-Node :
    (found : Option Origin)
    → (v w : Value) → (path : List Part) → Node v found
    → ((next : Origin) → Traced v next → Node w (node_at next path))
    → Node w (elim found [ none ↦ none | some next ↦ node_at next path ])
unfolding Node
step-Node none v w path (o, e, t) rest = ground (arith, e)
step-Node (some next) v w path (o, e, t) rest = rest next (subst (Traced v) (sym (same_origin e)) t)
  where
    same_origin : some next ≡ some o → next ≡ o
    same_origin h = cc h

-- A value that is in the document has its node.
pub node_at-Node :
    (path : List Part)
    → (v w : Value) → (o : Origin) → Traced v o
    → value_at v path ≡ some w
    → Node w (node_at o path)
unfolding node_at value_at FieldsTraced ItemsTraced Node
node_at-Node [] v w o t e = (o, refl, subst (λ x. Traced x o) (some-inj v w e) t)
node_at-Node (part ∷ path) (string s) w o t e = ground arith
node_at-Node (part ∷ path) (literal s) w o t e = ground arith
node_at-Node (index i ∷ path) (table f) w o t e = ground arith
node_at-Node (name k ∷ path) (array l) w o t e = ground arith
node_at-Node (name k ∷ path) (table f) w o t e = elim (Option-cases (get_field k f)) [
  | inl missing ↦ ground (arith, missing, e)
  | inr (v, found) ↦
      step-Node _ v w path (table-FieldsTraced f o t k v found)
        (λ next t'. node_at-Node path v w next t' (ground (arith, found, e)))
]
node_at-Node (index i ∷ path) (array l) w o t e = elim (Option-cases (get_item i l)) [
  | inl missing ↦ ground (arith, missing, e)
  | inr (v, found) ↦
      step-Node _ v w path (array-ItemsTraced l o t i v found)
        (λ next t'. node_at-Node path v w next t' (ground (arith, found, e)))
]
