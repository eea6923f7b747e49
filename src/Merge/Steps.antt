-- ===== src/Merge/Steps.antt =====
-- The steps of a merge on a value and its origin tree, one key or one item at a time
-- (src/comfyui_docker_helper/config/merge.py).
use text.Mathlib.Text.{◌==◌}
use text.Mathlib.TextEquality.{eq_iff}
use comfyui_docker_helper.Prelude as P
use comfyui_docker_helper.Prelude.{
  ℕ, zero, suc, ◌+◌, ◌≤◌, ◌<◌, ◌⊎◌, String, Bool, true, false, List, [], ◌∷◌, ◌++◌, Option, none,
  some, if◌then◌else◌, arith, ◌≡◌, refl, sym, subst, Bool-cases, inl, inr, Option-cases,
}
use comfyui_docker_helper.Merge.{
  Value, Table, no_field, field, Items, Part, name, index, Origin, Children, get_field, put_field,
  get_child, put_child, set_item, append_item, count_items, same_part, KeyedItemMerge, recursive,
  atomic,
}
use comfyui_docker_helper.Merge.Dicts.{
  get-put_field, get-put_child, get-set_item, get-append_item, count-set_item, count-append_item,
  get_item_below,
}
use comfyui_docker_helper.Merge.Documents.{
  put_pair, set_pair, and_then, with_child, merge_field, merge_item_at, merge_item,
}
use comfyui_docker_helper.Merge.Keys.{Sequence, matched_key}
use comfyui_docker_helper.Merge.Traced.{Distinct, Traced, Node, FieldsTraced, ItemsTraced}
use comfyui_docker_helper.Merge.Keyed.{base_index-matched}

-- What a merge returns, if it returns: a value and a tree that accounts for it.
unfoldable pub ValueResult : Option (Value × Origin) → Type 0
ValueResult none = ⊥
ValueResult (some (v, o)) = Traced v o

unfoldable pub MappingResult : Option (Table × Children) → Type 0
MappingResult none = ⊥
MappingResult (some (f, children)) = Distinct f × FieldsTraced f children

-- A list at least as long as the base.
unfoldable pub SequenceResult : ℕ → Option (Items × Children) → Type 0
SequenceResult n none = ⊥
SequenceResult n (some (l, children)) = (n ≤ count_items l) × ItemsTraced l children

some_value : {v w : Value} → some v ≡ some w → v ≡ w
some_value h = cc h

put_field-Distinct :
    (k : String) → (v : Value) → (f : Table) → Distinct f → Distinct (put_field k v f)
unfolding Distinct put_field get_field
put_field-Distinct k v no_field h = (refl, tt)
put_field-Distinct k v (field j w rest) (fresh, h) = elim (Bool-cases (j == k)) [
  | inl same ↦ ground (arith, same, fresh, h, eq_iff j k)
  | inr other ↦ ground (
    arith,
    other,
    fresh,
    eq_iff j k,
    eq_iff k j,
    get-put_field k j v rest,
    put_field-Distinct k v rest h,
  )
]

put_field-FieldsTraced :
    (k : String)
    → (v : Value) → (o : Origin) → (f : Table) → (children : Children) → Traced v o
    → FieldsTraced f children
    → FieldsTraced (put_field k v f) (put_child (name k) o children)
unfolding FieldsTraced Node same_part
put_field-FieldsTraced k v o f children t h j w = rw get-put_field (
    rw get-put_child (elim (Bool-cases (k == j)) [
      | inl same ↦ rw same (λ e. (o, refl, subst (λ x. Traced x o) (some_value e) t))
      | inr other ↦ rw other (λ e. h j w e)
    ]))

set_item-ItemsTraced :
    (i : ℕ)
    → (v : Value) → (o : Origin) → (l : Items) → (children : Children) → i < count_items l
    → Traced v o
    → ItemsTraced l children
    → ItemsTraced (set_item i v l) (put_child (index i) o children)
unfolding ItemsTraced Node same_part
set_item-ItemsTraced i v o l children below t h j w = rw (get-set_item i j v l below) (
    rw get-put_child (elim (Bool-cases (P.◌==◌ i j)) [
      | inl same ↦ rw same (λ e. (o, refl, subst (λ x. Traced x o) (some_value e) t))
      | inr other ↦ rw other (λ e. h j w e)
    ]))

append_item-ItemsTraced :
    (v : Value)
    → (o : Origin) → (l : Items) → (children : Children) → Traced v o
    → ItemsTraced l children
    → ItemsTraced (append_item l v) (put_child (index (count_items l)) o children)
unfolding ItemsTraced Node same_part
append_item-ItemsTraced v o l children t h j w = rw get-append_item (
    rw get-put_child (elim (Bool-cases (P.◌==◌ (count_items l) j)) [
      | inl same ↦ rw same (λ e. (o, refl, subst (λ x. Traced x o) (some_value e) t))
      | inr other ↦ rw other (λ e. h j w e)
    ]))

-- The index of the source's dictionaries: with a node at `part` the lookup goes on from it.
pub with_child-Node :
    {A : Type 0}
    → (Good : Option A → Type 0) → (v : Value) → (part : Part) → (children : Children)
    → (go : Origin → Option A) → Node v (get_child part children)
    → ((o : Origin) → Traced v o → Good (go o))
    → Good (with_child part children go)
unfolding Node
with_child-Node Good v part children go (o, e, t) good = rw (e, with_child) (good o t)

pub and_then-Mapping :
    (r : Option (Table × Children))
    → (go : Table → Children → Option (Table × Children)) → MappingResult r
    → ((f : Table) → (c : Children) → Distinct f → FieldsTraced f c → MappingResult (go f c))
    → MappingResult (and_then r go)
unfolding MappingResult
and_then-Mapping none go h rest = absurd h
and_then-Mapping (some (f, c)) go (d, h) rest = rest f c d h

pub and_then-Sequence :
    (n : ℕ)
    → (r : Option (Items × Children)) → (go : Items → Children → Option (Items × Children))
    → SequenceResult n r
    → ((l : Items)
        → (c : Children) → n ≤ count_items l
        → ItemsTraced l c
        → SequenceResult n (go l c))
    → SequenceResult n (and_then r go)
unfolding SequenceResult
and_then-Sequence n none go h rest = absurd h
and_then-Sequence n (some (l, c)) go (long, h) rest = rest l c long h

put_pair-Mapping :
    (k : String)
    → (f : Table) → (children : Children) → (r : Option (Value × Origin)) → Distinct f
    → FieldsTraced f children
    → ValueResult r
    → MappingResult (put_pair k f children r)
unfolding ValueResult MappingResult
put_pair-Mapping k f children none d h t = absurd t
put_pair-Mapping k f children (some (v, o)) d h t =
    (put_field-Distinct k v f d, put_field-FieldsTraced k v o f children t h)

set_pair-Sequence :
    (n i : ℕ)
    → (l : Items) → (children : Children) → (r : Option (Value × Origin)) → n ≤ count_items l
    → i < n
    → ItemsTraced l children
    → ValueResult r
    → SequenceResult n (set_pair i l children r)
unfolding ValueResult SequenceResult
set_pair-Sequence n i l children none long below h t = absurd t
set_pair-Sequence n i l children (some (v, o)) long below h t =
    (rw count-set_item long, set_item-ItemsTraced i v o l children (omega arith) t h)

-- A merge of a value into any value with its tree.
unfoldable pub Merges : Value → Origin → (Value → Origin → Option (Value × Origin)) → Type 0
Merges v o merge =
    (current : Value) → (base : Origin) → Traced current base → ValueResult (merge current base)

pub merge_field-Mapping :
    (merge : Value → Origin → Origin → Option (Value × Origin))
    → (k : String) → (v : Value) → (f : Table) → (children : Children) → (o : Origin) → Distinct f
    → FieldsTraced f children
    → Traced v o
    → Merges v o (λ current base. merge current base o)
    → MappingResult (merge_field merge k v f children o)
unfolding merge_field FieldsTraced MappingResult Merges
merge_field-Mapping merge k v f children o d h t merges = elim (Option-cases (get_field k f)) [
  | inl missing ↦
      rw (missing, merge_field)
        (put_field-Distinct k v f d, put_field-FieldsTraced k v o f children t h)
  | inr (current, found) ↦
      rw (found, merge_field)
        (with_child-Node MappingResult current (name k) children _ (h k current found)
          (λ base t'. put_pair-Mapping k f children _ d h (merges current base t')))
]

choice-cases : (choice : KeyedItemMerge) → (choice ≡ recursive) ⊎ (choice ≡ atomic)
choice-cases recursive = inl refl
choice-cases atomic = inr refl

merge_item_at-Sequence :
    (n : ℕ)
    → (merge : Value → Origin → Option (Value × Origin)) → (s : Sequence) → (v : Value) → (i : ℕ)
    → (l : Items) → (children : Children) → (o : Origin) → n ≤ count_items l
    → i < n
    → ItemsTraced l children
    → Traced v o
    → Merges v o merge
    → SequenceResult n (merge_item_at merge s v i l children o)
unfolding ItemsTraced Merges SequenceResult merge_item_at
merge_item_at-Sequence n merge s v i l children o long below h t merges =
    let (current, found) = get_item_below i l (omega arith) in
    elim (choice-cases (s.item_merge current v)) [
      | inl chosen ↦
          rw (found, merge_item_at)
            (rw chosen (
              with_child-Node (SequenceResult n) current (index i) children _ (h i current found)
                (λ base t'.
                  set_pair-Sequence n i l children _ long below h (merges current base t'))))
      | inr chosen ↦
          rw (found, merge_item_at)
            (rw chosen
              (rw count-set_item long, set_item-ItemsTraced i v o l children (omega arith) t h))
    ]

pub merge_item-Sequence :
    (merge : ℕ → Value → Origin → Option (Value × Origin))
    → (s : Sequence) → (v : Value) → (l : Items) → (children : Children) → (o : Origin)
    → count_items s.base ≤ count_items l
    → ItemsTraced l children
    → Traced v o
    → ((i : ℕ) → Merges v o (merge i))
    → SequenceResult (count_items s.base) (merge_item merge s v l children o)
unfolding SequenceResult merge_item
merge_item-Sequence merge s v l children o long h t merges =
    elim (Option-cases (matched_key s.identity s.base s.overriding v)) [
      | inl new ↦
          rw (new, merge_item)
            (rw count-append_item (omega arith), append_item-ItemsTraced v o l children t h)
      | inr (key, matched) ↦
          let (i, found, below) = base_index-matched s v key matched in
          rw (matched, merge_item)
            (rw (found, merge_item)
              (merge_item_at-Sequence (count_items s.base) (merge i) s v i l children o long below h
                t (merges i)))
    ]
