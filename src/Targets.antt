-- ===== src/Targets.antt =====
-- src/comfyui_docker_helper/config/validation/runtime_files.py, with the reserved names of
-- config/validation/urls.py: the validation of the relative target of a file. A text is the list of its
-- code points; a path is the list of its parts, the root's being empty. `posixpath.normpath` is written
-- out for a relative path.
pub mod Splitting
pub mod Normalizing
pub mod Guarantees
pub mod Planning
pub mod Plans
mod Examples
use comfyui_docker_helper.Prelude.{
  ℕ, Bool, true, false, not, List, [], ◌∷◌, ◌++◌, Option, none, some, if◌then◌else◌, leb, ltb, ◌==◌,
  ◌&&◌, ◌||◌, split_last,
}

abbrev pub Text : Type 0
Text = List ℕ

abbrev pub slash : ℕ
slash = 47

abbrev pub backslash : ℕ
backslash = 92

abbrev pub dot : Text
dot = 46 ∷ []

abbrev pub dot_dot : Text
dot_dot = 46 ∷ 46 ∷ []

-- `.cdh-staging`
abbrev pub transfer_staging_directory_name : Text
transfer_staging_directory_name =
    46 ∷ 99 ∷ 100 ∷ 104 ∷ 45 ∷ 115 ∷ 116 ∷ 97 ∷ 103 ∷ 105 ∷ 110 ∷ 103 ∷ []

-- `.wh.`
abbrev pub whiteout_file_target_prefix : Text
whiteout_file_target_prefix = 46 ∷ 119 ∷ 104 ∷ 46 ∷ []

abbrev pub any {ℓ} : {A : Type ℓ} → (A → Bool) → List A → Bool
any p [] = false
any p (x ∷ xs) = p x || any p xs

abbrev pub is_nil {ℓ} : {A : Type ℓ} → List A → Bool
is_nil [] = true
is_nil (x ∷ xs) = false

unfoldable pub same_text : Text → Text → Bool
same_text [] [] = true
same_text (a ∷ p) (b ∷ q) = (a == b) && same_text p q
same_text p q = false

unfoldable pub starts_with : Text → Text → Bool
starts_with [] value = true
starts_with (a ∷ prefix) [] = false
starts_with (a ∷ prefix) (b ∷ value) = (a == b) && starts_with prefix value

unfoldable pub ends_with_slash : Text → Bool
ends_with_slash [] = false
ends_with_slash (c ∷ []) = c == slash
ends_with_slash (c ∷ d ∷ value) = ends_with_slash (d ∷ value)

-- The category `Cc` are the characters U+0000 to U+001F and U+007F to U+009F.
abbrev pub is_control : ℕ → Bool
is_control c = ltb c 32 || (leb 127 c && ltb c 160)

unfoldable pub has_control_characters : Text → Bool
has_control_characters value = any is_control value

unfoldable pub is_reserved_file_target_component : Text → Bool
is_reserved_file_target_component value =
    same_text value transfer_staging_directory_name || starts_with whiteout_file_target_prefix value

abbrev pub put_front : ℕ → List Text → List Text
put_front c [] = (c ∷ []) ∷ []
put_front c (p ∷ parts) = (c ∷ p) ∷ parts

-- `value.split("/")`
unfoldable pub split_slash : Text → List Text
split_slash [] = [] ∷ []
split_slash (c ∷ value) =
    let rest = split_slash value in if c == slash then [] ∷ rest else put_front c rest

abbrev pub is_skipped : Text → Bool
is_skipped p = is_nil p || same_text p dot

abbrev pub is_parent : Text → Bool
is_parent p = same_text p dot_dot

abbrev pub stays_last : Option (List Text × Text) → Bool
stays_last none = true
stays_last (some (before, last)) = is_parent last

abbrev pub without_last : Option (List Text × Text) → List Text
without_last none = []
without_last (some (before, last)) = before

-- The parts so far behind one more.
abbrev pub add_part : Text → List Text → List Text
add_part p seen =
    if is_skipped p
    then seen
    else if not (is_parent p) || stays_last (split_last seen)
    then seen ++ p ∷ []
    else without_last (split_last seen)

-- The loop of `normpath` over the parts of a relative path.
unfoldable pub normpath : List Text → List Text → List Text
normpath seen [] = seen
normpath seen (p ∷ parts) = normpath (add_part p seen) parts

pub data TargetCode : Type 0 where
  empty_target control_character backslash_character absolute_target trailing_slash : TargetCode
  parent_target_segment root_target reserved_target_component : TargetCode

-- `RelativeFileTargetValidationResult`
pub data TargetResult : Type 0 where
  valid_target : List Text → TargetResult
  invalid_target : TargetCode → TargetResult

abbrev pub has_reserved : List Text → Bool
has_reserved parts = any is_reserved_file_target_component parts

unfoldable pub validate_relative_file_target : Bool → Text → TargetResult
validate_relative_file_target allow_root value =
    let normalized = normpath [] (split_slash value) in
    if is_nil value
    then invalid_target empty_target
    else if has_control_characters value
    then invalid_target control_character
    else if any (λ (c : ℕ). c == backslash) value
    then invalid_target backslash_character
    else if starts_with (slash ∷ []) value
    then invalid_target absolute_target
    else if ends_with_slash value
    then invalid_target trailing_slash
    else if any is_parent (split_slash value)
    then invalid_target parent_target_segment
    else if not allow_root && is_nil normalized
    then invalid_target root_target
    else if has_reserved normalized
    then invalid_target reserved_target_component
    else valid_target normalized

unfoldable pub join_slash : List Text → Text
join_slash [] = []
join_slash (p ∷ []) = p
join_slash (p ∷ q ∷ parts) = p ++ slash ∷ join_slash (q ∷ parts)

-- `as_posix`
unfoldable pub as_posix : List Text → Text
as_posix [] = dot
as_posix (p ∷ parts) = join_slash (p ∷ parts)
