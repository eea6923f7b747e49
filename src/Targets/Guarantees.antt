-- ===== src/Targets/Guarantees.antt =====
-- What an accepted file target promises
-- (src/comfyui_docker_helper/config/validation/runtime_files.py).
use comfyui_docker_helper.Prelude.{
  ℕ, Bool, true, false, not, List, [], ◌∷◌, ◌++◌, All, ◌==◌, ◌&&◌, ◌≡◌, refl, sym, ap, subst, ◌∙◌,
  if◌then◌else◌,
}
use comfyui_docker_helper.Targets.{
  Text, slash, backslash, dot, same_text, any, is_nil, is_control, has_control_characters,
  split_slash, is_parent, normpath, TargetCode, TargetResult, valid_target, invalid_target,
  has_reserved, validate_relative_file_target, starts_with, ends_with_slash, as_posix,
}
use comfyui_docker_helper.Targets.Splitting.{
  is_slash, Lacks, split-Lacks, split-NoSlash, split-join, join-Lacks,
}
use comfyui_docker_helper.Targets.Normalizing.{
  Named, normpath-named, named_parts-Named, named_parts-All, named_parts-again, no_parents,
  join-nonempty, join-ends, join-starts,
}

abbrev pub is_backslash : ℕ → Bool
is_backslash c = c == backslash

-- The parts that an accepted target may have.
pub record Accepted (allow_root : Bool) (parts : List Text) : Type 0 where
  pub named : All Named parts
  pub no_slash : All (Lacks is_slash) parts
  pub no_backslash : All (Lacks is_backslash) parts
  pub no_control : All (Lacks is_control) parts
  pub unreserved : has_reserved parts ≡ false
  pub has_file : (not allow_root && is_nil parts) ≡ false

-- The checks that an accepted target has passed.
record Passed (allow_root : Bool) (value : Text) (parts : List Text) : Type 0 where
  clean : has_control_characters value ≡ false
  straight : any is_backslash value ≡ false
  below : any is_parent (split_slash value) ≡ false
  a_file : (not allow_root && is_nil parts) ≡ false
  free : has_reserved parts ≡ false
  normal : normpath [] (split_slash value) ≡ parts

never_invalid :
    {X : Type 0} (b : Bool) (code : TargetCode) (other : TargetResult) (parts : List Text)
    → (if b then invalid_target code else other) ≡ valid_target parts
    → (b ≡ false → other ≡ valid_target parts → X)
    → X
never_invalid true code other parts e next = absurd (cc e)
never_invalid false code other parts e next = next refl e

valid-parts : (p q : List Text) → valid_target p ≡ valid_target q → p ≡ q
valid-parts p q e = cc e

passed :
    (allow_root : Bool) (value : Text) (parts : List Text)
    → validate_relative_file_target allow_root value ≡ valid_target parts
    → Passed allow_root value parts
unfolding validate_relative_file_target
passed allow_root value parts e =
    let path = normpath [] (split_slash value) in
    never_invalid (is_nil value) _ _ parts e (λ some_text e.
      never_invalid (has_control_characters value) _ _ parts e (λ clean e.
        never_invalid (any is_backslash value) _ _ parts e (λ straight e.
          never_invalid (starts_with (slash ∷ []) value) _ _ parts e (λ relative e.
            never_invalid (ends_with_slash value) _ _ parts e (λ file e.
              never_invalid (any is_parent (split_slash value)) _ _ parts e (λ below e.
                never_invalid (not allow_root && is_nil path) _ _ parts e (λ a_file e.
                  never_invalid (has_reserved path) _ _ parts e (λ free e.
                    let normal = valid-parts path parts e in
                    record {
                      clean = clean;
                      straight = straight;
                      below = below;
                      a_file =
                          ap (λ (q : List Text). not allow_root && is_nil q) (sym normal) ∙ a_file;
                      free = ap has_reserved (sym normal) ∙ free;
                      normal = normal;
                    }))))))))

validate-Accepted :
    (allow_root : Bool) (value : Text) (parts : List Text)
    → validate_relative_file_target allow_root value ≡ valid_target parts
    → Accepted allow_root parts
unfolding has_control_characters
validate-Accepted allow_root value parts e =
    let checks = passed allow_root value parts e in
    let split = split_slash value in
    let kept = sym (normpath-named [] split checks.below) ∙ checks.normal in
    let here =
      λ (P : Text → Type 0) (h : All P split). subst (All P) kept (named_parts-All P split h) in
    record {
      named = subst (All Named) kept (named_parts-Named split checks.below);
      no_slash = here (Lacks is_slash) (split-NoSlash value);
      no_backslash = here (Lacks is_backslash) (split-Lacks is_backslash value checks.straight);
      no_control = here (Lacks is_control) (split-Lacks is_control value checks.clean);
      unreserved = checks.free;
      has_file = checks.a_file;
    }

-- A target that is accepted stays where it is written: appended to any directory it normalizes to the
-- directory followed by the parts of the target, none of which is empty, `.`, `..` or a reserved name or
-- has a slash, a backslash or a control character.
pub validate-StaysBelow :
    (allow_root : Bool) (value : Text) (parts directory : List Text)
    → validate_relative_file_target allow_root value ≡ valid_target parts
    → (normpath directory (split_slash value) ≡ directory ++ parts) × Accepted allow_root parts
validate-StaysBelow allow_root value parts directory e =
    let checks = passed allow_root value parts e in
    let split = split_slash value in
    let kept = sym (normpath-named [] split checks.below) ∙ checks.normal in
    (
      normpath-named directory split checks.below ∙ ap (λ (q : List Text). directory ++ q) kept,
      validate-Accepted allow_root value parts e,
    )

root_again : validate_relative_file_target true dot ≡ valid_target []
unfolding validate_relative_file_target has_control_characters starts_with ends_with_slash
    split_slash same_text normpath
root_again = refl

-- Parts that an accepted target may have are accepted as they are, when they are written as a path.
pub Accepted-again :
    (allow_root : Bool) (parts : List Text)
    → Accepted allow_root parts
    → validate_relative_file_target allow_root (as_posix parts) ≡ valid_target parts
unfolding validate_relative_file_target as_posix has_control_characters
Accepted-again true [] h = root_again
Accepted-again false [] h = absurd (cc h.has_file)
Accepted-again allow_root (p ∷ parts) h =
    let split = split-join p parts h.no_slash in
    let below = no_parents (p ∷ parts) h.named in
    let normal : normpath [] (p ∷ parts) ≡ p ∷ parts =
      normpath-named [] (p ∷ parts) below ∙ named_parts-again (p ∷ parts) h.named in
    rw
      (
        split,
        normal,
        join-nonempty p parts h.named,
        join-starts p parts h.named h.no_slash,
        join-ends p parts h.named h.no_slash,
        join-Lacks is_control p parts refl h.no_control,
        join-Lacks is_backslash p parts refl h.no_backslash,
        below,
        h.has_file,
        h.unreserved,
      )
      refl

-- The normal form of an accepted target, written as a path, is accepted again and is its own normal
-- form.
pub validate-again :
    (allow_root : Bool) (value : Text) (parts : List Text)
    → validate_relative_file_target allow_root value ≡ valid_target parts
    → validate_relative_file_target allow_root (as_posix parts) ≡ valid_target parts
validate-again allow_root value parts e =
    Accepted-again allow_root parts (validate-Accepted allow_root value parts e)
