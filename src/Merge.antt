-- ===== src/Merge.antt =====
-- src/comfyui_docker_helper/config/merge.py: the raw documents, the origin trees beside them and the
-- policies of a merge. A dictionary is an association list in the order of its keys.
pub mod Keys
pub mod Origins
pub mod Documents
pub mod Dicts
pub mod Traced
pub mod Authored
pub mod Keyed
pub mod Steps
pub mod Parallel
pub mod Layers
pub mod Frame
pub mod Precedence
mod Examples
use text.Mathlib.Text.{◌==◌}
use comfyui_docker_helper.Prelude as P
use comfyui_docker_helper.Prelude.{
  ℕ, zero, suc, ◌+◌, String, Bool, true, false, ◌&&◌, ◌||◌, List, [], ◌∷◌, ◌++◌, Option, none, some,
  if◌then◌else◌,
}

mutual
  -- A TOML value; a scalar other than text is kept by its spelling.
  pub data Value : Type 0 where
    string : String → Value
    literal : String → Value
    table : Table → Value
    array : Items → Value

  pub data Table : Type 0 where
    no_field : Table
    field : String → Value → Table → Table

  pub data Items : Type 0 where
    no_item : Items
    item : Value → Items → Items

-- `DiagnosticPathPart`
pub data Part : Type 0 where
  name : String → Part
  index : ℕ → Part

-- config/diagnostics.py: `SourceReference`, whose label is not compared, and `SourceLocation`
pub record SourceReference : Type 0 where
  pub layer_ordinal : ℕ
  pub label : String

pub record SourceLocation : Type 0 where
  pub source : SourceReference
  pub path : List Part

mutual
  -- `OriginNode`: `authored_at`, `replacement_owner`, `contributors` and `children`.
  pub data Origin : Type 0 where
    origin_node :
        Option SourceLocation → Option SourceLocation → List SourceLocation → Children → Origin

  pub data Children : Type 0 where
    no_child : Children
    child : Part → Origin → Children → Children

abbrev pub authored_at : Origin → Option SourceLocation
authored_at (origin_node at owner contributors children) = at

abbrev pub replacement_owner : Origin → Option SourceLocation
replacement_owner (origin_node at owner contributors children) = owner

abbrev pub contributors_of : Origin → List SourceLocation
contributors_of (origin_node at owner contributors children) = contributors

abbrev pub children_of : Origin → Children
children_of (origin_node at owner contributors children) = children

unfoldable pub same_part : Part → Part → Bool
same_part (name a) (name b) = a == b
same_part (index i) (index j) = P.◌==◌ i j
same_part a b = false

unfoldable pub same_path : List Part → List Part → Bool
same_path [] [] = true
same_path (a ∷ p) (b ∷ q) = same_part a b && same_path p q
same_path p q = false

pub same_location : SourceLocation → SourceLocation → Bool
same_location a b = P.◌==◌ a.source.layer_ordinal b.source.layer_ordinal && same_path a.path b.path

-- Dictionaries: `d.get(key)` and `d[key] = value`, which keeps the place of a key that is there.
unfoldable pub get_field : String → Table → Option Value
get_field key no_field = none
get_field key (field k v rest) = if k == key then some v else get_field key rest

unfoldable pub put_field : String → Value → Table → Table
put_field key value no_field = field key value no_field
put_field key value (field k v rest) =
    if k == key then field k value rest else field k v (put_field key value rest)

unfoldable pub get_child : Part → Children → Option Origin
get_child part no_child = none
get_child part (child p o rest) = if same_part p part then some o else get_child part rest

unfoldable pub put_child : Part → Origin → Children → Children
put_child part node no_child = child part node no_child
put_child part node (child p o rest) =
    if same_part p part then child p node rest else child p o (put_child part node rest)

-- Lists: `l[i]`, `l[i] = v`, `l.append(v)` and `len(l)`.
unfoldable pub get_item : ℕ → Items → Option Value
get_item i no_item = none
get_item zero (item v rest) = some v
get_item (suc i) (item v rest) = get_item i rest

unfoldable pub set_item : ℕ → Value → Items → Items
set_item i value no_item = no_item
set_item zero value (item v rest) = item value rest
set_item (suc i) value (item v rest) = item v (set_item i value rest)

unfoldable pub append_item : Items → Value → Items
append_item no_item value = item value no_item
append_item (item v rest) value = item v (append_item rest value)

unfoldable pub count_items : Items → ℕ
count_items no_item = 0
count_items (item v rest) = suc (count_items rest)

-- `OriginNode.node_at`
unfoldable pub node_at : Origin → List Part → Option Origin
node_at node [] = some node
node_at node (part ∷ path) = elim (get_child part (children_of node)) [
  | none ↦ none
  | some next ↦ node_at next path
]

-- `OriginNode.exact_location`
unfoldable pub exact_location : Origin → List Part → Option SourceLocation
exact_location node path = elim (node_at node path) [ none ↦ none | some found ↦ authored_at found ]

-- `OriginNode.missing_field_location`, from the loop on: `owner` is its `replacement_owner`.
unfoldable pub missing_from : Origin → Option SourceLocation → List Part → Option SourceLocation
missing_from node owner [] = authored_at node
missing_from node owner (part ∷ path) = elim (get_child part (children_of node)) [
  | none ↦ owner
  | some next ↦
      missing_from next (elim (replacement_owner next) [ none ↦ owner | some at ↦ some at ]) path
]

unfoldable pub missing_field_location : Origin → List Part → Option SourceLocation
missing_field_location node path = missing_from node (replacement_owner node) path

-- A key of a keyed sequence, `MergeKey`.
abbrev pub MergeKey : Type 0
MergeKey = List String

pub data KeyedItemMerge : Type 0 where
  recursive atomic : KeyedItemMerge

-- `FieldPolicy`: an `AtomicPolicy`, or a `KeyedSequencePolicy` with its identity and its choice of
-- how a pair is merged.
pub data FieldPolicy : Type 0 where
  atomic_policy : FieldPolicy
  keyed_sequence : (Value → Option MergeKey) → (Value → Value → KeyedItemMerge) → FieldPolicy

pub data PatternPart : Type 0 where
  any_part : PatternPart
  exactly : String → PatternPart

pub record PolicyRule : Type 0 where
  pub pattern : List PatternPart
  pub policy : FieldPolicy

-- `_pattern_matches`
unfoldable pub pattern_matches : List PatternPart → List Part → Bool
pattern_matches [] [] = true
pattern_matches (any_part ∷ pattern) (part ∷ path) = pattern_matches pattern path
pattern_matches (exactly a ∷ pattern) (part ∷ path) =
    same_part (name a) part && pattern_matches pattern path
pattern_matches pattern path = false

-- `MergePolicyRegistry.policy_for`
unfoldable pub policy_for : List PolicyRule → List Part → Option FieldPolicy
policy_for [] path = none
policy_for (rule ∷ rules) path =
    if pattern_matches rule.pattern path then some rule.policy else policy_for rules path

pub is_seen : SourceLocation → List SourceLocation → Bool
is_seen at [] = false
is_seen at (seen ∷ rest) = same_location seen at || is_seen at rest

-- `_ordered_contributors`: `seen` holds what `result` holds.
unfoldable pub add_contributors : List SourceLocation → List SourceLocation → List SourceLocation
add_contributors result [] = result
add_contributors result (at ∷ group) =
    add_contributors (if is_seen at result then result else result ++ at ∷ []) group

unfoldable pub ordered_contributors :
    List SourceLocation → List SourceLocation → List SourceLocation
ordered_contributors base overriding = add_contributors (add_contributors [] base) overriding
