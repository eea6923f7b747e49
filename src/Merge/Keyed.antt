-- ===== src/Merge/Keyed.antt =====
-- The keys of a keyed sequence: a key that stands once in the base has an index in it
-- (src/comfyui_docker_helper/config/merge.py).
use text.Mathlib.TextEquality.{eq_iff}
use comfyui_docker_helper.Prelude as P
use comfyui_docker_helper.Prelude.{
  ℕ, zero, suc, ◌+◌, ◌<◌, String, Bool, true, false, ◌&&◌, List, [], ◌∷◌, Option, none, some,
  if◌then◌else◌, arith, ◌≡◌, refl, ap, Bool-cases, inl, inr, Option-cases,
}
use comfyui_docker_helper.Merge.{Value, Items, no_item, item, MergeKey, count_items}
use comfyui_docker_helper.Merge.Keys.{
  same_key, count_key, unique_key_indexes, find_index, matched_key, Sequence, base_index,
}

same_key→≡ : (k l : MergeKey) → same_key k l ≡ true → k ≡ l
unfolding same_key
same_key→≡ [] [] h = refl
same_key→≡ [] (b ∷ l) h = ground arith
same_key→≡ (a ∷ k) [] h = ground arith
same_key→≡ (a ∷ k) (b ∷ l) h = ground (arith, eq_iff a b, same_key→≡ k l)

same_key_refl : (k : MergeKey) → same_key k k ≡ true
unfolding same_key
same_key_refl [] = refl
same_key_refl (a ∷ k) = ground (arith, eq_iff a a, same_key_refl k)

-- One item of the base, by its key.
found_at :
    (o : Option MergeKey)
    → (counts : MergeKey → ℕ) → (key : MergeKey) → (start c n : ℕ) → (indexes : List (MergeKey × ℕ))
    → counts key ≡ 1
    → 0 < (elim o [ none ↦ c | some k ↦ if same_key k key then suc c else c ])
    → (0 < c → (i : ℕ) × (find_index key indexes ≡ some i) × (i < suc start + n))
    → (i : ℕ) × (find_index key (elim o [
      | none ↦ indexes
      | some k ↦ if P.◌==◌ (counts k) 1 then (k, start) ∷ indexes else indexes
    ])
        ≡ some i)
      × (i < start + suc n)
unfolding find_index
found_at none counts key start c n indexes once some_there rest =
    let (i, e, below) = rest some_there in (i, e, omega (arith, below))
found_at (some k) counts key start c n indexes once some_there rest =
    elim (Bool-cases (same_key k key)) [
      | inl same ↦
          (start, ground (arith, same, once, ap counts (same_key→≡ k key same)), omega arith)
      | inr other ↦
          let (i, e, below) = rest (ground (arith, other, some_there)) in
          (i, ground (arith, other, e), omega (arith, below))
    ]

found_index :
    (identity : Value → Option MergeKey)
    → (counts : MergeKey → ℕ) → (key : MergeKey) → (start : ℕ) → (l : Items) → counts key ≡ 1
    → 0 < count_key identity key l
    → (i : ℕ) × (find_index key (unique_key_indexes identity counts start l) ≡ some i)
      × (i < start + count_items l)
unfolding unique_key_indexes count_key count_items
found_index identity counts key start no_item once some_there = ground arith
found_index identity counts key start (item v rest) once some_there =
    found_at (identity v) counts key start (count_key identity key rest) (count_items rest)
      (unique_key_indexes identity counts (suc start) rest) once some_there
      (found_index identity counts key (suc start) rest once)

matched_key-count :
    (o : Option MergeKey)
    → (key : MergeKey) → (counts others : MergeKey → ℕ)
    → (elim o as (λ _. Option MergeKey) [
      | none ↦ none
      | some k ↦ if P.◌==◌ (counts k) 1 && P.◌==◌ (others k) 1 then some k else none
    ])
      ≡ some key
    → counts key ≡ 1
matched_key-count none key counts others h = ground arith
matched_key-count (some k) key counts others h = ground (arith, h)

-- An overriding item that is merged has an index in the base.
pub base_index-matched :
    (s : Sequence)
    → (v : Value) → (key : MergeKey) → matched_key s.identity s.base s.overriding v ≡ some key
    → (i : ℕ) × (base_index s key ≡ some i) × (i < count_items s.base)
unfolding base_index matched_key
base_index-matched s v key h =
    let once =
      matched_key-count (s.identity v) key (λ k. count_key s.identity k s.base)
        (λ k. count_key s.identity k s.overriding) h in
    let (i, e, below) =
      found_index s.identity (λ k. count_key s.identity k s.base) key 0 s.base once
        (omega (arith, once)) in
    (i, e, omega (arith, below))
