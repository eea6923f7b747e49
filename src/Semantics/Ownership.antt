-- ===== src/Semantics/Ownership.antt =====
-- When the check of package owners has nothing to say
-- (src/comfyui_docker_helper/config/authored/validation/semantics.py).
use text.Mathlib.Text.{◌==◌}
use text.Mathlib.TextEquality.{eq_iff}
use comfyui_docker_helper.Prelude.{
  String, true, false, List, [], ◌∷◌, take, Option, none, some, is_some, arith, ◌≡◌, ◌≢◌, ◌⊎◌, ◌↔◌,
  refl, sym, Bool-cases, inl, inr,
}
use comfyui_docker_helper.Merge.{Part, name, index, same_part, same_path}
use comfyui_docker_helper.Semantics.{NormalizedRequirement, is_member}
use comfyui_docker_helper.Semantics.Owners.{
  cuda_protected_requirements, is_under, application_owners, tool_owners, is_reserved,
  is_protected_conflict,
}

-- The requirement is authored in this list of this section.
abbrev pub Under : String → String → NormalizedRequirement → Type 0
Under section key r = (rest : List Part) × (r.path ≡ name section ∷ name key ∷ rest)

prefix_iff :
    (a b : String) (path : List Part)
    → (same_path (take 2 path) (name a ∷ name b ∷ []) ≡ true)
      ↔ ((rest : List Part) × (path ≡ name a ∷ name b ∷ rest))
unfolding same_path same_part
prefix_iff a b [] = (λ e. absurd (cc e), λ (rest, e). absurd (cc e))
prefix_iff a b (p ∷ []) = (λ e. ground (arith, e), λ (rest, e). absurd (cc e))
prefix_iff a b (index i ∷ q ∷ path) = (λ e. absurd (cc e), λ (rest, e). absurd (cc e))
prefix_iff a b (name c ∷ index j ∷ path) = (λ e. ground (arith, e), λ (rest, e). absurd (cc e))
prefix_iff a b (name c ∷ name d ∷ path) = (
  λ e.
      let first : c ≡ a = (eq_iff c a).0 (ground (arith, e)) in
      let second : d ≡ b = (eq_iff d b).0 (ground (arith, e)) in (path, cc (first, second)),
  λ (rest, e).
      let first : (c == a) ≡ true = (eq_iff c a).1 (cc e) in
      let second : (d == b) ≡ true = (eq_iff d b).1 (cc e) in ground (arith, first, second),
)

pub Under-iff :
    (section key : String) (r : NormalizedRequirement)
    → (is_under section key r ≡ true) ↔ Under section key r
unfolding is_under
Under-iff section key r = prefix_iff section key r.path

-- The two packages that the image itself installs as tools.
abbrev pub NoTool : String → Type 0
NoTool p = (p ≢ "comfyui-docker-helper") × (p ≢ "comfy-cli")

-- What the image installs with the application.
abbrev pub NoApplication : String → Type 0
NoApplication p = (p ≢ "torch") × ((p ≢ "pip") × ((p ≢ "setuptools") × NoTool p))

abbrev pub NoCompanion : String → Type 0
NoCompanion p = (p ≢ "torchaudio") × (p ≢ "torchvision")

-- A tool, an extra package of Python and an extra package of PyTorch each leave out what is owned by the
-- image; one of PyTorch's companions comes from its index.
pub record Unowned (r : NormalizedRequirement) : Type 0 where
  pub tool : Under "python" "uv_tools" r → NoTool r.name
  pub application : (Under "python" "uv_tools" r → ⊥) → NoApplication r.name
  pub extra : Under "python" "extra_packages" r → NoCompanion r.name
  pub companion :
      Under "pytorch" "extra_packages" r
      → (r.name ≡ "torchaudio") ⊎ (r.name ≡ "torchvision")
      → r.direct_reference ≡ none

differ_iff : (k n : String) → ((k == n) ≡ false) ↔ (n ≢ k)
differ_iff k n =
    let (to, from) = eq_iff k n in
    elim (Bool-cases (k == n)) [
      | inl same ↦ (λ e. absurd (cc (e, same)), λ h. absurd (h (sym (to same))))
      | inr other ↦ (λ e h. cc (from (sym h), other), λ h. other)
    ]

tool_iff : (n : String) → (is_member n tool_owners ≡ false) ↔ NoTool n
unfolding is_member tool_owners
tool_iff n = ground (arith, differ_iff "comfyui-docker-helper" n, differ_iff "comfy-cli" n)

application_iff : (n : String) → (is_member n application_owners ≡ false) ↔ NoApplication n
unfolding is_member application_owners
application_iff n = ground (
  arith,
  differ_iff "torch" n,
  differ_iff "pip" n,
  differ_iff "setuptools" n,
  differ_iff "comfyui-docker-helper" n,
  differ_iff "comfy-cli" n,
)

protected_iff :
    (n : String)
    → (is_member n cuda_protected_requirements ≡ false) ↔ ((n ≢ "torch") × NoCompanion n)
unfolding is_member
protected_iff n =
    ground (arith, differ_iff "torch" n, differ_iff "torchaudio" n, differ_iff "torchvision" n)

lists-apart :
    (r : NormalizedRequirement)
    → Under "python" "uv_tools" r
    → Under "python" "extra_packages" r
    → ⊥
lists-apart r (rest, e) (more, h) = cc (e, h)

sections-apart :
    (r : NormalizedRequirement)
    → Under "python" "uv_tools" r
    → Under "pytorch" "extra_packages" r
    → ⊥
sections-apart r (rest, e) (more, h) = cc (e, h)

pub not-Under :
    (section key : String) (r : NormalizedRequirement)
    → (Under section key r → ⊥)
    → is_under section key r ≡ false
not-Under section key r outside = elim (Bool-cases (is_under section key r)) [
  | inl here ↦ absurd (outside ((Under-iff section key r).0 here))
  | inr other ↦ other
]

unfoldable pub Free : NormalizedRequirement → Type 0
Free r = (is_reserved r ≡ false) × (is_protected_conflict r ≡ false)

pub Free-Unowned : (r : NormalizedRequirement) → Free r → Unowned r
unfolding Free is_reserved is_protected_conflict
Free-Unowned r (unreserved, unprotected) = record {
  tool = λ u.
      let here = (Under-iff "python" "uv_tools" r).1 u in
      (tool_iff r.name).0 (ground (arith, unreserved, here));
  application = λ u.
      let outside = not-Under "python" "uv_tools" r u in
      (application_iff r.name).0 (ground (arith, unreserved, outside));
  extra = λ u.
      let here = (Under-iff "python" "extra_packages" r).1 u in
      ((protected_iff r.name).0 (ground (arith, unreserved, here))).1;
  companion = λ u m.
      let here = (Under-iff "pytorch" "extra_packages" r).1 u in
      no_reference r.direct_reference
        (ground (arith, unprotected, here, companion_member r.name m));
}
  where
    companion_member :
        (n : String)
        → (n ≡ "torchaudio") ⊎ (n ≡ "torchvision")
        → is_member n cuda_protected_requirements ≡ true
    companion_member n m = elim (Bool-cases (is_member n cuda_protected_requirements)) [
      | inl here ↦ here
      | inr absent ↦
          let (_, (audio, vision)) = (protected_iff n).0 absent in
          elim m [ inl e ↦ absurd (audio e) | inr e ↦ absurd (vision e) ]
    ]

    no_reference : (o : Option String) → is_some o ≡ false → o ≡ none
    no_reference none e = refl
    no_reference (some d) e = absurd (cc e)

pub reserved-free : (r : NormalizedRequirement) → Unowned r → is_reserved r ≡ false
unfolding is_reserved
reserved-free r h = elim (Bool-cases (is_under "python" "uv_tools" r)) [
  | inl tool ↦
      let u = (Under-iff "python" "uv_tools" r).0 tool in
      let elsewhere = not-Under "python" "extra_packages" r (lists-apart r u) in
      let free = (tool_iff r.name).1 (h.tool u) in ground (arith, tool, elsewhere, free)
  | inr other ↦
      let outside : Under "python" "uv_tools" r → ⊥ =
        λ u. let here = (Under-iff "python" "uv_tools" r).1 u in cc (here, other) in
      let names = h.application outside in
      let free = (application_iff r.name).1 names in
      elim (Bool-cases (is_under "python" "extra_packages" r)) [
        | inl extra ↦
            let u = (Under-iff "python" "extra_packages" r).0 extra in
            let unprotected = (protected_iff r.name).1 (names.0, h.extra u) in
            ground (arith, other, free, unprotected)
        | inr elsewhere ↦ ground (arith, other, free, elsewhere)
      ]
]

pub conflict-free : (r : NormalizedRequirement) → Unowned r → is_protected_conflict r ≡ false
unfolding is_protected_conflict
conflict-free r h = elim (Bool-cases (is_under "pytorch" "extra_packages" r)) [
  | inr elsewhere ↦ ground (arith, elsewhere)
  | inl torch ↦
      let u = (Under-iff "pytorch" "extra_packages" r).0 torch in
      let names = h.application (λ tool. sections-apart r tool u) in
      elim (Bool-cases (r.name == "torchaudio")) [
        | inl audio ↦
            let none_here = h.companion u (inl ((eq_iff r.name "torchaudio").0 audio)) in
            ground (arith, none_here)
        | inr no_audio ↦ elim (Bool-cases (r.name == "torchvision")) [
          | inl vision ↦
              let none_here = h.companion u (inr ((eq_iff r.name "torchvision").0 vision)) in
              ground (arith, none_here)
          | inr no_vision ↦
              let unprotected = (protected_iff r.name).1 (
                names.0,
                (
                  λ e. cc ((eq_iff r.name "torchaudio").1 e, no_audio),
                  λ e. cc ((eq_iff r.name "torchvision").1 e, no_vision),
                ),
              ) in
              ground (arith, unprotected)
        ]
      ]
]
