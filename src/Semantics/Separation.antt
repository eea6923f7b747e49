-- ===== src/Semantics/Separation.antt =====
-- The loop of the check of package owners
-- (src/comfyui_docker_helper/config/authored/validation/semantics.py).
use comfyui_docker_helper.Prelude.{
  String, Bool, true, false, List, [], ◌∷◌, ◌++◌, Option, none, some, if◌then◌else◌, ◌≡◌, ◌≢◌, ◌⊎◌,
  ◌↔◌, refl, sym, ◌∙◌, Bool-cases, inl, inr, All,
}
use comfyui_docker_helper.Merge.{Origin}
use comfyui_docker_helper.Semantics.{Diagnostic, NormalizedRequirement, lookup}
use comfyui_docker_helper.Semantics.Owners.{
  is_under, is_reserved, is_protected_conflict, owners_after, package_owner_diagnostics,
}
use comfyui_docker_helper.Semantics.Duplicates.{lookup-snoc}
use comfyui_docker_helper.Semantics.Ownership.{
  Under, Under-iff, not-Under, Unowned, Free, Free-Unowned, reserved-free, conflict-free,
}

abbrev Names : Type 0
Names = List (String × NormalizedRequirement)

abbrev is_tool : NormalizedRequirement → Bool
is_tool r = is_under "python" "uv_tools" r

-- The dictionary of the requirement's kind.
abbrev names_of : Bool → Names → Names → Names
names_of tool application tools = if tool then tools else application

abbrev Fresh : Names → Names → NormalizedRequirement → Type 0
Fresh application tools r = lookup r.name (names_of (is_tool r) application tools) ≡ none

abbrev Differ : NormalizedRequirement → NormalizedRequirement → Type 0
Differ r q = is_tool r ≡ is_tool q → r.name ≢ q.name

abbrev with_name : Bool → NormalizedRequirement → Names → Names
with_name here r names = if here then names ++ (r.name, r) ∷ [] else names

kind_iff :
    (t u : Bool) (r : NormalizedRequirement) (n : String) (application tools : Names)
    → (lookup n (
          names_of u
            (if t then application else application ++ (r.name, r) ∷ [])
            (if t then tools ++ (r.name, r) ∷ [] else tools))
        ≡ none)
      ↔ ((lookup n (names_of u application tools) ≡ none) × (t ≡ u → r.name ≢ n))
kind_iff true true r n application tools =
    let (to, from) = lookup-snoc r.name n r tools in
    (λ e. ((to e).0, λ same. (to e).1), λ (e, h). from (e, h refl))
kind_iff true false r n application tools = (λ e. (e, λ same. absurd (cc same)), λ (e, h). e)
kind_iff false true r n application tools = (λ e. (e, λ same. absurd (cc same)), λ (e, h). e)
kind_iff false false r n application tools =
    let (to, from) = lookup-snoc r.name n r application in
    (λ e. ((to e).0, λ same. (to e).1), λ (e, h). from (e, h refl))

All-kind :
    (r : NormalizedRequirement) (application tools : Names)
    (requirements : List NormalizedRequirement)
    → All
        (Fresh
          (if is_tool r then application else application ++ (r.name, r) ∷ [])
          (if is_tool r then tools ++ (r.name, r) ∷ [] else tools))
        requirements
      ↔ (All (Fresh application tools) requirements × All (Differ r) requirements)
All-kind r application tools [] = (λ h. (tt, tt), λ h. tt)
All-kind r application tools (q ∷ requirements) =
    let (to, from) = kind_iff (is_tool r) (is_tool q) r q.name application tools in
    let (tos, froms) = All-kind r application tools requirements in
    (
      λ (h, hs). (((to h).0, (tos hs).0), ((to h).1, (tos hs).1)),
      λ ((h, hs), (d, ds)). (from (h, d), froms (hs, ds)),
    )

abbrev AllDiffer : List NormalizedRequirement → Type 0
AllDiffer [] = Unit
AllDiffer (r ∷ requirements) = All (Differ r) requirements × AllDiffer requirements

-- A turn that adds no diagnostic has passed all three tests, and goes on with its name.
turn_iff :
    (conflict reserved : Bool) (existing : Option NormalizedRequirement) (d e : Diagnostic)
    (f : NormalizedRequirement → Diagnostic) (rest owned : List Diagnostic)
    → ((if conflict
          then d ∷ rest
          else if reserved
          then e ∷ rest
          else elim existing as (λ _. List Diagnostic) [ some r ↦ f r ∷ rest | none ↦ owned ])
        ≡ [])
      ↔ ((conflict ≡ false) × ((reserved ≡ false) × ((existing ≡ none) × (owned ≡ []))))
turn_iff true reserved existing d e f rest owned = (λ h. absurd (cc h), λ h. absurd (cc h.0))
turn_iff false true existing d e f rest owned = (λ h. absurd (cc h), λ h. absurd (cc h.1.0))
turn_iff false false (some r) d e f rest owned = (λ h. absurd (cc h), λ h. absurd (cc h.1.1.0))
turn_iff false false none d e f rest owned = (λ h. (refl, (refl, (refl, h))), λ h. h.1.1.1)

module _ (origins : Option Origin) where
  loop_iff :
      (application tools : Names) (requirements : List NormalizedRequirement)
      → (owners_after origins application tools requirements ≡ []) ↔ (
          All Free requirements
          × (All (Fresh application tools) requirements × AllDiffer requirements))
  unfolding owners_after Free
  loop_iff application tools [] = (λ e. (tt, (tt, tt)), λ h. refl)
  loop_iff application tools (r ∷ requirements) =
      let (later, earlier) =
        loop_iff (if is_tool r then application else application ++ (r.name, r) ∷ [])
          (if is_tool r then tools ++ (r.name, r) ∷ [] else tools) requirements in
      let (apart, joined) = All-kind r application tools requirements in
      let (to, from) =
        turn_iff (is_protected_conflict r) (is_reserved r)
          (lookup r.name (names_of (is_tool r) application tools)) _ _ _ _ _ in
      (
        λ e.
            let (conflict, (reserved, (fresh, owned))) = to e in
            let (free, (rest, differ)) = later owned in
            (((reserved, conflict), free), ((fresh, (apart rest).0), ((apart rest).1, differ))),
        λ (((reserved, conflict), free), ((fresh, rest), (here, differ))).
            from (conflict, (reserved, (fresh, earlier (free, (joined (rest, here), differ))))),
      )

-- Both are tools, or neither is.
abbrev pub SameKind : NormalizedRequirement → NormalizedRequirement → Type 0
SameKind r q =
    (Under "python" "uv_tools" r × Under "python" "uv_tools" q)
    ⊎ ((Under "python" "uv_tools" r → ⊥) × (Under "python" "uv_tools" q → ⊥))

-- Requirements of one kind have different names.
abbrev pub AllApart : List NormalizedRequirement → Type 0
AllApart [] = Unit
AllApart (r ∷ requirements) =
    All (λ q. SameKind r q → r.name ≢ q.name) requirements × AllApart requirements

no_tool : (r : NormalizedRequirement) → is_tool r ≡ false → Under "python" "uv_tools" r → ⊥
no_tool r e u = let here = (Under-iff "python" "uv_tools" r).1 u in cc (here, e)

SameKind-iff : (r q : NormalizedRequirement) → (is_tool r ≡ is_tool q) ↔ SameKind r q
SameKind-iff r q = (
  λ same. elim (Bool-cases (is_tool q)) [
    | inl tool ↦ inl (
      (Under-iff "python" "uv_tools" r).0 (same ∙ tool),
      (Under-iff "python" "uv_tools" q).0 tool,
    )
    | inr other ↦ inr (no_tool r (same ∙ other), no_tool q other)
  ],
  λ kind. elim kind [
    | inl (u, v) ↦
        (Under-iff "python" "uv_tools" r).1 u ∙ sym ((Under-iff "python" "uv_tools" q).1 v)
    | inr (u, v) ↦ not-Under "python" "uv_tools" r u ∙ sym (not-Under "python" "uv_tools" q v)
  ],
)

All-Differ_iff :
    (r : NormalizedRequirement) (requirements : List NormalizedRequirement)
    → All (Differ r) requirements ↔ All (λ q. SameKind r q → r.name ≢ q.name) requirements
All-Differ_iff r [] = (λ h. tt, λ h. tt)
All-Differ_iff r (q ∷ requirements) =
    let (to, from) = SameKind-iff r q in
    let (tos, froms) = All-Differ_iff r requirements in
    (λ (h, hs). ((λ kind. h (from kind)), tos hs), λ (h, hs). ((λ same. h (to same)), froms hs))

apart_iff :
    (requirements : List NormalizedRequirement) → AllDiffer requirements ↔ AllApart requirements
apart_iff [] = (λ h. tt, λ h. tt)
apart_iff (r ∷ requirements) =
    let (to, from) = All-Differ_iff r requirements in
    let (tos, froms) = apart_iff requirements in
    (λ (h, hs). (to h, tos hs), λ (h, hs). (from h, froms hs))

Free-iff :
    (requirements : List NormalizedRequirement) → All Free requirements ↔ All Unowned requirements
unfolding Free
Free-iff [] = (λ h. tt, λ h. tt)
Free-iff (r ∷ requirements) =
    let (tos, froms) = Free-iff requirements in
    (
      λ (h, hs). (Free-Unowned r h, tos hs),
      λ (h, hs). ((reserved-free r h, conflict-free r h), froms hs),
    )

nothing-Fresh : (requirements : List NormalizedRequirement) → All (Fresh [] []) requirements
unfolding lookup
nothing-Fresh [] = tt
nothing-Fresh (r ∷ requirements) = (nothing_found (is_tool r) r.name, nothing-Fresh requirements)
  where
    nothing_found : (t : Bool) (n : String) → lookup n (names_of t [] []) ≡ none
    nothing_found true n = refl
    nothing_found false n = refl

-- The check of package owners reports nothing exactly where each requirement keeps to the packages that
-- are free for its list, and no two tools and no two other requirements have the same name. A tool is
-- none of the image's own tools; any other requirement is none of these, torch, pip and setuptools; an
-- extra package of Python is not torchaudio or torchvision either; and an extra package of PyTorch with
-- one of these two names has no direct reference.
pub owners_iff :
    (origins : Option Origin) (requirements : List NormalizedRequirement)
    → (package_owner_diagnostics origins requirements ≡ [])
      ↔ (All Unowned requirements × AllApart requirements)
unfolding package_owner_diagnostics
owners_iff origins requirements =
    let (to, from) = loop_iff origins [] [] requirements in
    let (free, names) = Free-iff requirements in
    let (apart, differ) = apart_iff requirements in
    (
      λ e. let (f, (fresh, d)) = to e in (free f, apart d),
      λ (u, a). from (names u, (nothing-Fresh requirements, differ a)),
    )
