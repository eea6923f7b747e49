-- ===== src/Targets/Splitting.antt =====
-- Texts and their parts between slashes
-- (src/comfyui_docker_helper/config/validation/runtime_files.py).
use comfyui_docker_helper.Prelude.{
  ℕ, Bool, false, List, [], ◌∷◌, ◌++◌, All, ◌==◌, ◌||◌, arith, ◌≡◌, refl, ap, ◌∙◌, Bool-cases, inl,
  inr,
}
use comfyui_docker_helper.Targets.{Text, slash, any, put_front, split_slash, join_slash}

abbrev pub is_slash : ℕ → Bool
is_slash c = c == slash

abbrev pub Lacks : (ℕ → Bool) → Text → Type 0
Lacks f p = any f p ≡ false

pub any-append {ℓ} :
    {A : Type ℓ} (f : A → Bool) (xs ys : List A) → any f (xs ++ ys) ≡ (any f xs || any f ys)
any-append f [] ys = refl
any-append f (x ∷ xs) ys = ground (arith, any-append f xs ys)

front-Lacks :
    (f : ℕ → Bool) (c : ℕ) (parts : List Text)
    → f c ≡ false
    → All (Lacks f) parts
    → All (Lacks f) (put_front c parts)
front-Lacks f c [] e h = (ground (arith, e), tt)
front-Lacks f c (p ∷ parts) e h = (ground (arith, e, h.0), h.1)

pub split-Lacks :
    (f : ℕ → Bool) (value : Text) → any f value ≡ false → All (Lacks f) (split_slash value)
unfolding split_slash
split-Lacks f [] e = (refl, tt)
split-Lacks f (c ∷ value) e =
    let rest = split-Lacks f value (ground (arith, e)) in
    elim (Bool-cases (c == slash)) [
      | inl here ↦ rw here (refl, rest)
      | inr other ↦ rw other (front-Lacks f c (split_slash value) (ground (arith, e)) rest)
    ]

pub split-NoSlash : (value : Text) → All (Lacks is_slash) (split_slash value)
unfolding split_slash
split-NoSlash [] = (refl, tt)
split-NoSlash (c ∷ value) = elim (Bool-cases (c == slash)) [
  | inl here ↦ rw here (refl, split-NoSlash value)
  | inr other ↦ rw other (front-Lacks is_slash c (split_slash value) other (split-NoSlash value))
]

split-one : (p : Text) → Lacks is_slash p → split_slash p ≡ p ∷ []
unfolding split_slash
split-one [] h = refl
split-one (c ∷ p) h =
    let other : (c == slash) ≡ false = ground (arith, h) in
    let rest = split-one p (ground (arith, h)) in rw (other, rest) refl

split-front :
    (p value : Text) → Lacks is_slash p → split_slash (p ++ slash ∷ value) ≡ p ∷ split_slash value
unfolding split_slash
split-front [] value h = refl
split-front (c ∷ p) value h =
    let other : (c == slash) ≡ false = ground (arith, h) in
    let rest = split-front p value (ground (arith, h)) in rw (other, rest) refl

pub split-join :
    (p : Text) (parts : List Text)
    → All (Lacks is_slash) (p ∷ parts)
    → split_slash (join_slash (p ∷ parts)) ≡ p ∷ parts
unfolding join_slash
split-join p [] h = split-one p h.0
split-join p (q ∷ parts) h =
    split-front p (join_slash (q ∷ parts)) h.0 ∙ ap (λ r. p ∷ r) (split-join q parts h.1)

pub join-Lacks :
    (f : ℕ → Bool) (p : Text) (parts : List Text)
    → f slash ≡ false
    → All (Lacks f) (p ∷ parts)
    → Lacks f (join_slash (p ∷ parts))
unfolding join_slash
join-Lacks f p [] e h = h.0
join-Lacks f p (q ∷ parts) e h =
    ground
      (arith, any-append f p (slash ∷ join_slash (q ∷ parts)), e, h.0, join-Lacks f q parts e h.1)
