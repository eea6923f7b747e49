-- ===== src/Merge/Keys.antt =====
-- The keys of a keyed sequence (src/comfyui_docker_helper/config/merge.py).
use text.Mathlib.Text.{◌==◌}
use comfyui_docker_helper.Prelude as P
use comfyui_docker_helper.Prelude.{
  ℕ, suc, ◌+◌, String, Bool, true, false, ◌&&◌, List, [], ◌∷◌, ◌++◌, Option, none, some,
  if◌then◌else◌,
}
use comfyui_docker_helper.Merge.{Value, Items, no_item, item, MergeKey, KeyedItemMerge}

unfoldable pub same_key : MergeKey → MergeKey → Bool
same_key [] [] = true
same_key (a ∷ k) (b ∷ l) = (a == b) && same_key k l
same_key k l = false

-- `Counter(_iter_keys(items, identity))[key]`
unfoldable pub count_key : (Value → Option MergeKey) → MergeKey → Items → ℕ
count_key identity key no_item = 0
count_key identity key (item v rest) = elim (identity v) [
  | none ↦ count_key identity key rest
  | some k ↦
      if same_key k key then suc (count_key identity key rest) else count_key identity key rest
]

-- `_unique_key_indexes`, from `start` on; a key it holds stands in `items` once.
unfoldable pub unique_key_indexes :
    (Value → Option MergeKey) → (MergeKey → ℕ) → ℕ → Items → List (MergeKey × ℕ)
unique_key_indexes identity counts start no_item = []
unique_key_indexes identity counts start (item v rest) = elim (identity v) [
  | none ↦ unique_key_indexes identity counts (suc start) rest
  | some k ↦
      if P.◌==◌ (counts k) 1
      then (k, start) ∷ unique_key_indexes identity counts (suc start) rest
      else unique_key_indexes identity counts (suc start) rest
]

unfoldable pub find_index : MergeKey → List (MergeKey × ℕ) → Option ℕ
find_index key [] = none
find_index key ((k, i) ∷ rest) = if same_key k key then some i else find_index key rest

-- The key of an overriding item, if it is merged into an item of the base and not appended: it
-- stands once on both sides.
unfoldable pub matched_key : (Value → Option MergeKey) → Items → Items → Value → Option MergeKey
matched_key identity base overriding v = elim (identity v) [
  | none ↦ none
  | some key ↦
      if P.◌==◌ (count_key identity key base) 1 && P.◌==◌ (count_key identity key overriding) 1
      then some key
      else none
]

-- What a merge needs of a `KeyedSequencePolicy` and of the two lists.
pub record Sequence : Type 0 where
  pub identity : Value → Option MergeKey
  pub item_merge : Value → Value → KeyedItemMerge
  pub base : Items
  pub overriding : Items

-- `unique_base_indexes[key]`
unfoldable pub base_index : Sequence → MergeKey → Option ℕ
base_index s key =
    find_index key (unique_key_indexes s.identity (λ k. count_key s.identity k s.base) 0 s.base)
