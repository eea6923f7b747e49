-- ===== src/Targets/Normalizing.antt =====
-- What the normalization of a relative path without parent segments leaves
-- (src/comfyui_docker_helper/config/validation/runtime_files.py).
use comfyui_docker_helper.Prelude.{
  false, List, [], ◌∷◌, ◌++◌, All, arith, ◌≡◌, refl, sym, ◌∙◌, Bool-cases, inl, inr, if◌then◌else◌,
  append-nil, append_assoc,
}
use comfyui_docker_helper.Targets.{
  Text, slash, any, is_nil, is_skipped, is_parent, normpath, join_slash, ends_with_slash,
  starts_with,
}
use comfyui_docker_helper.Targets.Splitting.{is_slash, Lacks}

-- The parts that name something.
unfoldable pub named_parts : List Text → List Text
named_parts [] = []
named_parts (p ∷ parts) = let rest = named_parts parts in if is_skipped p then rest else p ∷ rest

pub normpath-named :
    (seen parts : List Text)
    → any is_parent parts ≡ false
    → normpath seen parts ≡ seen ++ named_parts parts
unfolding normpath named_parts
normpath-named seen [] h = sym (append-nil seen)
normpath-named seen (p ∷ parts) h =
    let later : any is_parent parts ≡ false = ground (arith, h) in
    let climbs : is_parent p ≡ false = ground (arith, h) in
    elim (Bool-cases (is_skipped p)) [
      | inl skipped ↦ rw skipped (normpath-named seen parts later)
      | inr named ↦
          rw (named, climbs)
            (normpath-named (seen ++ p ∷ []) parts later
              ∙ append_assoc seen (p ∷ []) (named_parts parts))
    ]

-- A part that names something below the root.
pub record Named (p : Text) : Type 0 where
  pub something : is_skipped p ≡ false
  pub no_parent : is_parent p ≡ false

pub named_parts-Named :
    (parts : List Text) → any is_parent parts ≡ false → All Named (named_parts parts)
unfolding named_parts
named_parts-Named [] h = tt
named_parts-Named (p ∷ parts) h =
    let rest = named_parts-Named parts (ground (arith, h)) in
    elim (Bool-cases (is_skipped p)) [
      | inl skipped ↦ rw skipped rest
      | inr named ↦ rw named (record { something = named; no_parent = ground (arith, h) }, rest)
    ]

pub named_parts-All {κ} :
    (P : Text → Type κ) (parts : List Text) → All P parts → All P (named_parts parts)
unfolding named_parts
named_parts-All P [] h = tt
named_parts-All P (p ∷ parts) h = elim (Bool-cases (is_skipped p)) [
  | inl skipped ↦ rw skipped (named_parts-All P parts h.1)
  | inr named ↦ rw named (h.0, named_parts-All P parts h.1)
]

pub named_parts-again : (parts : List Text) → All Named parts → named_parts parts ≡ parts
unfolding named_parts
named_parts-again [] h = refl
named_parts-again (p ∷ parts) h = rw (h.0.something, named_parts-again parts h.1) refl

pub no_parents : (parts : List Text) → All Named parts → any is_parent parts ≡ false
no_parents [] h = refl
no_parents (p ∷ parts) h = ground (arith, h.0.no_parent, no_parents parts h.1)

ends-append :
    (p value : Text) → is_nil value ≡ false → ends_with_slash (p ++ value) ≡ ends_with_slash value
unfolding ends_with_slash
ends-append [] value h = refl
ends-append (c ∷ []) [] h = absurd (cc h)
ends-append (c ∷ []) (d ∷ value) h = refl
ends-append (c ∷ d ∷ p) value h = ends-append (d ∷ p) value h

ends-Lacks : (p : Text) → Lacks is_slash p → ends_with_slash p ≡ false
unfolding ends_with_slash
ends-Lacks [] h = refl
ends-Lacks (c ∷ []) h = ground (arith, h)
ends-Lacks (c ∷ d ∷ p) h = ends-Lacks (d ∷ p) (ground (arith, h))

pub join-nonempty :
    (p : Text) (parts : List Text) → All Named (p ∷ parts) → is_nil (join_slash (p ∷ parts)) ≡ false
unfolding join_slash
join-nonempty [] parts h = absurd (cc h.0.something)
join-nonempty (c ∷ p) [] h = refl
join-nonempty (c ∷ p) (q ∷ parts) h = refl

pub join-ends :
    (p : Text) (parts : List Text)
    → All Named (p ∷ parts)
    → All (Lacks is_slash) (p ∷ parts)
    → ends_with_slash (join_slash (p ∷ parts)) ≡ false
unfolding join_slash
join-ends p [] h k = ends-Lacks p k.0
join-ends p (q ∷ parts) h k =
    ends-append p (slash ∷ join_slash (q ∷ parts)) refl
    ∙ ends-append (slash ∷ []) (join_slash (q ∷ parts)) (join-nonempty q parts h.1)
    ∙ join-ends q parts h.1 k.1

pub join-starts :
    (p : Text) (parts : List Text)
    → All Named (p ∷ parts)
    → All (Lacks is_slash) (p ∷ parts)
    → starts_with (slash ∷ []) (join_slash (p ∷ parts)) ≡ false
unfolding join_slash starts_with
join-starts [] parts h k = absurd (cc h.0.something)
join-starts (c ∷ p) [] h k = ground (arith, k.0)
join-starts (c ∷ p) (q ∷ parts) h k = ground (arith, k.0)
