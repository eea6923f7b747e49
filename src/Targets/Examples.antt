-- ===== src/Targets/Examples.antt =====
-- Tests and witnesses of the file targets and of the plan of the runtime's downloads
-- (src/comfyui_docker_helper/config/validation/runtime_files.py,
-- src/comfyui_docker_helper/container/runtime/files/planning.py).
use comfyui_docker_helper.Prelude.{true, false, List, [], ◌∷◌, ◌++◌, none, ◌≡◌, ◌↔◌, refl}
use comfyui_docker_helper.Targets.{
  Text, valid_target, invalid_target, parent_target_segment, reserved_target_component, root_target,
  trailing_slash, split_slash, normpath, has_control_characters, starts_with, ends_with_slash,
  same_text, is_reserved_file_target_component, validate_relative_file_target, as_posix,
}
use comfyui_docker_helper.Targets.Guarantees.{Accepted, validate-StaysBelow, validate-again}
use comfyui_docker_helper.Targets.Planning.{
  async_mode, RuntimeFileConfig, schema_accepted, Validated, RuntimeFilePlanItem, planned,
  plan_error, overlapping_target, PlanEnvironment, plan_files, same_path, targets_overlap,
  build_runtime_file_plan, parts_of,
}
use comfyui_docker_helper.Targets.Plans.{EachMade, AllApart, plan_iff}

-- `./a//b`
abbrev loose : Text
loose = 46 ∷ 47 ∷ 97 ∷ 47 ∷ 47 ∷ 98 ∷ []

-- `a/b`
abbrev exact : List Text
exact = (97 ∷ []) ∷ (98 ∷ []) ∷ []

loose_accepted : validate_relative_file_target false loose ≡ valid_target exact
unfolding validate_relative_file_target has_control_characters starts_with ends_with_slash
    split_slash same_text normpath is_reserved_file_target_component
loose_accepted = refl

-- `a/../b`, `.wh.x`, `./.` and `a/`
refused_targets :
    (validate_relative_file_target true (97 ∷ 47 ∷ 46 ∷ 46 ∷ 47 ∷ 98 ∷ [])
      ≡ invalid_target parent_target_segment)
    × (validate_relative_file_target true (46 ∷ 119 ∷ 104 ∷ 46 ∷ 120 ∷ [])
        ≡ invalid_target reserved_target_component)
    × (validate_relative_file_target false (46 ∷ 47 ∷ 46 ∷ []) ≡ invalid_target root_target)
    × (validate_relative_file_target false (97 ∷ 47 ∷ []) ≡ invalid_target trailing_slash)
unfolding validate_relative_file_target has_control_characters starts_with ends_with_slash
    split_slash same_text normpath is_reserved_file_target_component
refused_targets = (refl, refl, refl, refl)

validate-StaysBelow_example :
    (normpath ((114 ∷ []) ∷ []) (split_slash loose) ≡ ((114 ∷ []) ∷ []) ++ exact)
    × Accepted false exact
validate-StaysBelow_example = validate-StaysBelow false loose exact ((114 ∷ []) ∷ []) loose_accepted

validate-again_example : validate_relative_file_target false (as_posix exact) ≡ valid_target exact
validate-again_example = validate-again false loose exact loose_accepted

abbrev file_at : Text → RuntimeFileConfig
file_at target = record {
  url = 104 ∷ [];
  target = target;
  overwrite = false;
  checksum = none;
  downloader = none;
  download_mode = none;
}

abbrev item_at : List Text → RuntimeFilePlanItem
item_at parts = record {
  url = 104 ∷ [];
  parts = parts;
  overwrite = false;
  checksum = none;
  download_mode = async_mode;
  downloader = none;
}

abbrev environment : PlanEnvironment
environment = record {
  root_parts = (114 ∷ []) ∷ [];
  is_http_url = starts_with (104 ∷ []);
  default_download_mode = async_mode;
}

-- `./a//b` and `c`
abbrev two_files : List Validated
two_files = schema_accepted (file_at loose) ∷ schema_accepted (file_at (99 ∷ [])) ∷ []

abbrev two_items : List RuntimeFilePlanItem
two_items = item_at exact ∷ item_at ((99 ∷ []) ∷ []) ∷ []

-- `./a//b` and `a`
overlapping_files :
    build_runtime_file_plan environment
      (schema_accepted (file_at loose) ∷ schema_accepted (file_at (97 ∷ [])) ∷ [])
    ≡ plan_error ((1, overlapping_target) ∷ [])
unfolding build_runtime_file_plan plan_files targets_overlap same_path validate_relative_file_target
    has_control_characters starts_with ends_with_slash split_slash same_text normpath
    is_reserved_file_target_component
overlapping_files = refl

plan_iff_example :
    (build_runtime_file_plan environment two_files ≡ planned two_items)
    ↔ (EachMade environment two_files two_items × AllApart (parts_of two_items))
plan_iff_example = plan_iff environment two_files two_items

two_planned : build_runtime_file_plan environment two_files ≡ planned two_items
unfolding build_runtime_file_plan plan_files targets_overlap same_path validate_relative_file_target
    has_control_characters starts_with ends_with_slash split_slash same_text normpath
    is_reserved_file_target_component
two_planned = refl
