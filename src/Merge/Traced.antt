-- ===== src/Merge/Traced.antt =====
-- When an origin tree accounts for a value (src/comfyui_docker_helper/config/merge.py): each value
-- that is in a document has a node at its place.
use comfyui_docker_helper.Prelude.{
  ℕ, zero, suc, String, List, [], ◌∷◌, Option, none, some, ◌≡◌, refl, subst, sym,
}
use comfyui_docker_helper.Merge.{
  Value, string, literal, table, array, Table, no_field, field, Items, Part, name, index, Origin,
  Children, children_of, get_field, get_child, get_item,
}

-- A table has each key once.
unfoldable pub Distinct : Table → Type 0
Distinct no_field = Unit
Distinct (field k v rest) = (get_field k rest ≡ none) × Distinct rest

-- `P` holds of the node that is found.
pub Holds : (Origin → Type 0) → Option Origin → Type 0
Holds P none = ⊥
Holds P (some o) = P o

-- The tree accounts for a value down to a depth.
pub TracedTo : ℕ → Value → Origin → Type 0
unfolding Holds
TracedTo zero v o = Unit
TracedTo (suc n) (table f) o =
    Distinct f
    × ((k : String)
        → (v : Value) → get_field k f ≡ some v
        → Holds (TracedTo n v) (get_child (name k) (children_of o)))
TracedTo (suc n) (array l) o =
    (i : ℕ)
    → (v : Value) → get_item i l ≡ some v
    → Holds (TracedTo n v) (get_child (index i) (children_of o))
TracedTo (suc n) v o = Unit

-- The tree accounts for a value.
pub Traced : Value → Origin → Type 0
Traced v o = (n : ℕ) → TracedTo n v o

-- A node of a tree that accounts for `v`.
unfoldable pub Node : Value → Option Origin → Type 0
Node v found = (o : Origin) × (found ≡ some o) × Traced v o

unfoldable pub FieldsTraced : Table → Children → Type 0
FieldsTraced f children =
    (k : String) → (v : Value) → get_field k f ≡ some v → Node v (get_child (name k) children)

unfoldable pub ItemsTraced : Items → Children → Type 0
ItemsTraced l children =
    (i : ℕ) → (v : Value) → get_item i l ≡ some v → Node v (get_child (index i) children)

Node-all :
    (v : Value) → (found : Option Origin) → ((n : ℕ) → Holds (TracedTo n v) found) → Node v found
unfolding Node Traced Holds
Node-all v none h = absurd (h 0)
Node-all v (some o) h = (o, refl, h)

Holds-Node :
    (v : Value) → (found : Option Origin) → Node v found → (n : ℕ) → Holds (TracedTo n v) found
unfolding Node Traced Holds
Holds-Node v found (o, e, h) n = subst (Holds (TracedTo n v)) (sym e) (h n)

pub table-Distinct : (f : Table) → (o : Origin) → Traced (table f) o → Distinct f
unfolding Traced TracedTo
table-Distinct f o h = (h 1).0

pub table-FieldsTraced :
    (f : Table) → (o : Origin) → Traced (table f) o → FieldsTraced f (children_of o)
unfolding Traced TracedTo FieldsTraced
table-FieldsTraced f o h k v e = Node-all v _ (λ n. (h (suc n)).1 k v e)

pub table-Traced :
    (f : Table) → (o : Origin) → Distinct f → FieldsTraced f (children_of o) → Traced (table f) o
unfolding Traced TracedTo FieldsTraced
table-Traced f o d h zero = tt
table-Traced f o d h (suc n) = (d, λ k v e. Holds-Node v _ (h k v e) n)

pub array-ItemsTraced :
    (l : Items) → (o : Origin) → Traced (array l) o → ItemsTraced l (children_of o)
unfolding Traced TracedTo ItemsTraced
array-ItemsTraced l o h i v e = Node-all v _ (λ n. h (suc n) i v e)

pub array-Traced : (l : Items) → (o : Origin) → ItemsTraced l (children_of o) → Traced (array l) o
unfolding Traced TracedTo ItemsTraced
array-Traced l o h zero = tt
array-Traced l o h (suc n) = λ i v e. Holds-Node v _ (h i v e) n

pub string-Traced : (s : String) → (o : Origin) → Traced (string s) o
unfolding Traced TracedTo
string-Traced s o zero = tt
string-Traced s o (suc n) = tt

pub literal-Traced : (s : String) → (o : Origin) → Traced (literal s) o
unfolding Traced TracedTo
literal-Traced s o zero = tt
literal-Traced s o (suc n) = tt

-- The value at a path of a document.
unfoldable pub value_at : Value → List Part → Option Value
value_at v [] = some v
value_at (table f) (name k ∷ path) = elim (get_field k f) [ none ↦ none | some v ↦ value_at v path ]
value_at (array l) (index i ∷ path) = elim (get_item i l) [ none ↦ none | some v ↦ value_at v path ]
value_at v path = none
