-- ===== src/Merge/Dicts.antt =====
-- Laws of the dictionaries and lists of a document (src/comfyui_docker_helper/config/merge.py).
use text.Mathlib.Text.{◌==◌}
use text.Mathlib.TextEquality.{eq_iff}
use comfyui_docker_helper.Prelude as P
use comfyui_docker_helper.Prelude.{
  ℕ, zero, suc, ◌+◌, ◌≤◌, ◌<◌, String, Bool, true, false, ◌&&◌, List, [], ◌∷◌, Option, none, some,
  if◌then◌else◌, arith, ◌≡◌, ◌↔◌, refl, Bool-cases, inl, inr,
}
use comfyui_docker_helper.Merge.{
  Value, Table, no_field, field, Items, no_item, item, Part, name, index, Origin, Children,
  no_child, child, same_part, get_field, put_field, get_child, put_child, get_item, set_item,
  append_item, count_items,
}

same_part_iff : (a b : Part) → (same_part a b ≡ true) ↔ (a ≡ b)
unfolding same_part
same_part_iff (name a) (name b) = ground (arith, eq_iff a b)
same_part_iff (name a) (index j) = ground arith
same_part_iff (index i) (name b) = ground arith
same_part_iff (index i) (index j) = ground arith

pub same_part_refl : (a : Part) → same_part a a ≡ true
same_part_refl a = (same_part_iff a a).1 refl

pub get-put_field :
    (k j : String) (v : Value) (f : Table)
    → get_field j (put_field k v f) ≡ (if k == j then some v else get_field j f)
unfolding get_field put_field
get-put_field k j v no_field = refl
get-put_field k j v (field i w rest) =
    ground (arith, eq_iff k j, eq_iff i k, eq_iff i j, get-put_field k j v rest)

pub get-put_child :
    (p q : Part) (o : Origin) (c : Children)
    → get_child q (put_child p o c) ≡ (if same_part p q then some o else get_child q c)
unfolding get_child put_child
get-put_child p q o no_child = refl
get-put_child p q o (child r x rest) =
    ground
      (arith, same_part_iff p q, same_part_iff r p, same_part_iff r q, get-put_child p q o rest)

pub get-set_item :
    (i j : ℕ) (v : Value) (l : Items)
    → i < count_items l
    → get_item j (set_item i v l) ≡ (if P.◌==◌ i j then some v else get_item j l)
unfolding get_item set_item count_items
get-set_item i j v no_item h = ground arith
get-set_item zero zero v (item w rest) h = refl
get-set_item zero (suc j) v (item w rest) h = ground arith
get-set_item (suc i) zero v (item w rest) h = ground arith
get-set_item (suc i) (suc j) v (item w rest) h =
    ground (arith, get-set_item i j v rest (omega arith))

pub get-append_item :
    (j : ℕ) (v : Value) (l : Items)
    → get_item j (append_item l v) ≡ (if P.◌==◌ (count_items l) j then some v else get_item j l)
unfolding get_item append_item count_items
get-append_item zero v no_item = refl
get-append_item (suc j) v no_item = ground arith
get-append_item zero v (item w rest) = ground arith
get-append_item (suc j) v (item w rest) = ground (arith, get-append_item j v rest)

pub count-set_item : (i : ℕ) (v : Value) (l : Items) → count_items (set_item i v l) ≡ count_items l
unfolding set_item count_items
count-set_item i v no_item = refl
count-set_item zero v (item w rest) = refl
count-set_item (suc i) v (item w rest) = ground (arith, count-set_item i v rest)

pub count-append_item :
    (v : Value) (l : Items) → count_items (append_item l v) ≡ suc (count_items l)
unfolding append_item count_items
count-append_item v no_item = refl
count-append_item v (item w rest) = ground (arith, count-append_item v rest)

pub get_item_below : (i : ℕ) (l : Items) → i < count_items l → (v : Value) × (get_item i l ≡ some v)
unfolding get_item count_items
get_item_below i no_item h = ground arith
get_item_below zero (item w rest) h = (w, refl)
get_item_below (suc i) (item w rest) h = get_item_below i rest (omega arith)
