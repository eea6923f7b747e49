-- ===== src/Merge/Precedence.antt =====
-- The override wins where it has text (src/comfyui_docker_helper/config/merge.py).
use text.Mathlib.Text.{◌==◌}
use text.Mathlib.TextEquality.{eq_iff}
use text.Mathlib.TextPositions.{eq_refl}
use comfyui_docker_helper.Prelude.{
  String, true, false, List, [], ◌∷◌, ◌++◌, Option, none, some, if◌then◌else◌, ◌≡◌, ◌∙◌, refl,
  arith, Option-cases, Bool-cases, inl, inr, subst, sym,
}
use comfyui_docker_helper.Merge.{
  Value, string, table, Table, no_field, field, Part, name, Origin, Children, children_of,
  get_field, put_field, get_child, PolicyRule,
}
use comfyui_docker_helper.Merge.Dicts.{get-put_field}
use comfyui_docker_helper.Merge.Documents.{and_then, merge_field, merge_mapping, merge_value}
use comfyui_docker_helper.Merge.Frame.{Keeps, merge_mapping-Keeps}
use comfyui_docker_helper.Merge.Traced.{Distinct, Traced, table-Distinct, table-FieldsTraced}
use comfyui_docker_helper.Merge.Steps.{MappingResult}
use comfyui_docker_helper.Merge.Parallel.{merge_mapping-Traced}

-- A result, if there is one, has the value at `key`.
Wins : String → Value → Option (Table × Children) → Type 0
Wins key v none = Unit
Wins key v (some (g, nodes)) = get_field key g ≡ some v

put-Wins : (key : String) → (v : Value) → (f : Table) → get_field key (put_field key v f) ≡ some v
put-Wins key v f = rw get-put_field (rw eq_refl refl)

with_child-Wins :
    (key : String)
    → (v : Value) → (found : Option Origin) → (go : Origin → Option (Table × Children))
    → ((o : Origin) → Wins key v (go o))
    → Wins key v (elim found as (λ _. Option (Table × Children)) [ none ↦ none | some o ↦ go o ])
unfolding Wins
with_child-Wins key v none go h = tt
with_child-Wins key v (some o) go h = h o

and_then-Wins :
    (key : String)
    → (v : Value) → (r : Option (Table × Children))
    → (go : Table → Children → Option (Table × Children))
    → ((g : Table) → (c : Children) → r ≡ some (g, c) → Wins key v (go g c))
    → Wins key v (and_then r go)
unfolding Wins
and_then-Wins key v none go h = tt
and_then-Wins key v (some (g, c)) go h = h g c refl

Keeps-Wins :
    (key : String)
    → (v : Value) → (g : Table) → (c : Children) → (r : Option (Table × Children))
    → get_field key g ≡ some v
    → Keeps key g c r
    → Wins key v r
unfolding Keeps Wins
Keeps-Wins key v g c none h keeps = tt
Keeps-Wins key v g c (some (g', c')) h (value, node) = value ∙ h

module _ (policies : List PolicyRule) (s : String) where
  merge_field-Wins :
      (key : String)
      → (f : Table) → (children : Children) → (o : Origin) → (path : List Part)
      → Wins key (string s) (
          merge_field
            (λ current base o'. merge_value policies current (string s) base o' path)
            key
            (string s)
            f
            children
            o)
  unfolding Wins merge_field merge_value
  merge_field-Wins key f children o path = elim (Option-cases (get_field key f)) [
    | inl missing ↦ rw (missing, merge_field) (put-Wins key (string s) f)
    | inr (current, found) ↦
        rw (found, merge_field)
          (with_child-Wins key (string s) (get_child (name key) children) _
            (λ base. put-Wins key (string s) f))
  ]

  first-Wins :
      (key : String)
      → (rest : Table) → (f : Table) → (children : Children) → (origin : Origin)
      → (path : List Part) → get_field key rest ≡ none
      → Wins key
          (string s)
          (merge_mapping policies f children (field key (string s) rest) origin path)
  unfolding merge_mapping Wins
  first-Wins key rest f children origin path fresh =
      with_child-Wins key (string s) (get_child (name key) (children_of origin)) _ (λ o.
        and_then-Wins key (string s) _ _ (λ g c e.
          Keeps-Wins key (string s) g c _
            (subst (Wins key (string s)) e
              (merge_field-Wins key f children o (path ++ name key ∷ [])))
            (merge_mapping-Keeps policies key g rest c origin path fresh)))

  merge_mapping-Wins :
      (key : String)
      → (f overriding : Table) → (children : Children) → (origin : Origin) → (path : List Part)
      → Distinct overriding
      → get_field key overriding ≡ some (string s)
      → Wins key (string s) (merge_mapping policies f children overriding origin path)
  unfolding merge_mapping get_field Distinct
  merge_mapping-Wins key f no_field children origin path d h = ground (arith, h)
  merge_mapping-Wins key f (field k v rest) children origin path (fresh, d) h =
      elim (Bool-cases (k == key)) [
        | inl same ↦
            subst
              (λ x.
                Wins key (string s)
                  (merge_mapping policies f children (field k x rest) origin path))
              (sym (first_value same h))
              (subst
                (λ j.
                  Wins j (string s)
                    (merge_mapping policies f children (field k (string s) rest) origin path))
                ((eq_iff k key).0 same) (first-Wins k rest f children origin path fresh))
        | inr other ↦
            with_child-Wins key (string s) (get_child (name k) (children_of origin)) _ (λ o.
              and_then-Wins key (string s) _ _
                (λ g c e. merge_mapping-Wins key g rest c origin path d (later_value other h)))
      ]
    where
      first_value :
          (k == key) ≡ true
          → (if k == key then some v else get_field key rest) ≡ some (string s)
          → v ≡ string s
      first_value same h = ground (arith, same, h)

      later_value :
          (k == key) ≡ false
          → (if k == key then some v else get_field key rest) ≡ some (string s)
          → get_field key rest ≡ some (string s)
      later_value other h = ground (arith, other, h)

found_Wins :
    (key : String)
    → (v : Value) → (r : Option (Table × Children)) → MappingResult r
    → Wins key v r
    → (g : Table) × (nodes : Children) × (r ≡ some (g, nodes)) × (get_field key g ≡ some v)
unfolding Wins MappingResult
found_Wins key v none h wins = absurd h
found_Wins key v (some (g, nodes)) h wins = (g, nodes, refl, wins)

-- A merge of mappings whose origin trees account for them succeeds, and a key that has text in the
-- override has that text in it, whatever the base has there and whatever the policies.
pub override_text_wins :
    (policies : List PolicyRule)
    → (key s : String) → (f overriding : Table) → (base origin : Origin) → (path : List Part)
    → Traced (table f) base
    → Traced (table overriding) origin
    → get_field key overriding ≡ some (string s)
    → (g : Table) × (nodes : Children) × (merge_mapping policies f
          (children_of base)
          overriding
          origin
          path
        ≡ some (g, nodes))
      × (get_field key g ≡ some (string s))
override_text_wins policies key s f overriding base origin path hf ho h =
    found_Wins key (string s) _
      (merge_mapping-Traced policies f (children_of base) overriding origin path
        (table-Distinct f base hf) (table-FieldsTraced f base hf)
        (table-Distinct overriding origin ho) (table-FieldsTraced overriding origin ho))
      (merge_mapping-Wins policies s key f overriding (children_of base) origin path
        (table-Distinct overriding origin ho) h)
