-- ===== src/Targets/Planning.antt =====
-- src/comfyui_docker_helper/container/runtime/files/planning.py (build_runtime_file_plan): the plan of
-- the runtime's file downloads. What the schema makes of an item (pydantic) and the test of a URL are
-- parameters; the rest of an item is kept as it is.
use comfyui_docker_helper.Prelude.{
  ℕ, suc, Bool, true, false, not, List, [], ◌∷◌, ◌++◌, length, take, Option, none, some,
  if◌then◌else◌, ◌&&◌, ◌||◌,
}
use comfyui_docker_helper.Targets.{
  Text, any, is_nil, same_text, TargetCode, TargetResult, valid_target, invalid_target,
  validate_relative_file_target, has_reserved,
}

pub data DownloadMode : Type 0 where
  sync_mode async_mode : DownloadMode

-- `_RuntimeFileConfig`
pub record RuntimeFileConfig : Type 0 where
  pub url : Text
  pub target : Text
  pub overwrite : Bool
  pub checksum : Option Text
  pub downloader : Option Text
  pub download_mode : Option DownloadMode

-- An item is refused by the schema with errors, one at least, or becomes a configuration.
pub data Validated : Type 0 where
  schema_refused : Text → List Text → Validated
  schema_accepted : RuntimeFileConfig → Validated

pub data PlanCode : Type 0 where
  schema_code : Text → PlanCode
  invalid_url : PlanCode
  target_code : TargetCode → PlanCode
  reserved_root_component overlapping_target : PlanCode

-- A diagnostic is known by the item's index and its code.
abbrev pub PlanDiagnostic : Type 0
PlanDiagnostic = ℕ × PlanCode

-- `RuntimeFilePlanItem`; its directory, file name and paths are made of the parts of the target.
pub record RuntimeFilePlanItem : Type 0 where
  pub url : Text
  pub parts : List Text
  pub overwrite : Bool
  pub checksum : Option Text
  pub download_mode : DownloadMode
  pub downloader : Option Text

pub data PlanResult : Type 0 where
  planned : List RuntimeFilePlanItem → PlanResult
  plan_error : List PlanDiagnostic → PlanResult

unfoldable pub same_path : List Text → List Text → Bool
same_path [] [] = true
same_path (a ∷ p) (b ∷ q) = same_text a b && same_path p q
same_path p q = false

-- `relative_file_targets_overlap`
unfoldable pub targets_overlap : List Text → List Text → Bool
targets_overlap earlier later =
    same_path (take (length later) earlier) later || same_path (take (length earlier) later) earlier

abbrev pub schema_diagnostics : ℕ → List Text → List PlanDiagnostic
schema_diagnostics index [] = []
schema_diagnostics index (c ∷ codes) = (index, schema_code c) ∷ schema_diagnostics index codes

abbrev pub mode_or : DownloadMode → Option DownloadMode → DownloadMode
mode_or default_mode none = default_mode
mode_or default_mode (some mode) = mode

abbrev pub make_item : DownloadMode → RuntimeFileConfig → List Text → RuntimeFilePlanItem
make_item default_mode config parts = record {
  url = config.url;
  parts = parts;
  overwrite = config.overwrite;
  checksum = config.checksum;
  download_mode = mode_or default_mode config.download_mode;
  downloader = config.downloader;
}

-- What one turn adds: its diagnostics, and the established target with its item.
pub record TurnResult : Type 0 where
  pub diagnostics : List PlanDiagnostic
  pub made : List RuntimeFilePlanItem

abbrev pub refuse : List PlanDiagnostic → TurnResult
refuse diagnostics = record { diagnostics = diagnostics; made = [] }

abbrev pub parts_of : List RuntimeFilePlanItem → List (List Text)
parts_of [] = []
parts_of (item ∷ items) = item.parts ∷ parts_of items

-- The plan's environment: the parts of the root, the test of a URL and the default mode.
pub record PlanEnvironment : Type 0 where
  pub root_parts : List Text
  pub is_http_url : Text → Bool
  pub default_download_mode : DownloadMode

abbrev pub place :
    PlanEnvironment → ℕ → List (List Text) → RuntimeFileConfig → TargetResult → TurnResult
place env index established config (invalid_target code) = refuse ((index, target_code code) ∷ [])
place env index established config (valid_target parts) =
    if has_reserved env.root_parts then refuse ((index, reserved_root_component) ∷ []) else record {
      diagnostics =
          if any (λ (earlier : List Text). targets_overlap earlier parts) established
          then (index, overlapping_target) ∷ []
          else [];
      made = make_item env.default_download_mode config parts ∷ [];
    }

-- A turn of the loop, with the targets that are established.
abbrev pub plan_turn : PlanEnvironment → ℕ → List (List Text) → Validated → TurnResult
plan_turn env index established (schema_refused code codes) =
    refuse (schema_diagnostics index (code ∷ codes))
plan_turn env index established (schema_accepted config) =
    if not (env.is_http_url config.url)
    then refuse ((index, invalid_url) ∷ [])
    else place env index established config (validate_relative_file_target false config.target)

unfoldable pub plan_files : PlanEnvironment → ℕ → List (List Text) → List Validated → TurnResult
plan_files env index established [] = refuse []
plan_files env index established (file ∷ files) =
    let turn = plan_turn env index established file in
    let rest = plan_files env (suc index) (established ++ parts_of turn.made) files in
    record { diagnostics = turn.diagnostics ++ rest.diagnostics; made = turn.made ++ rest.made }

abbrev pub plan_of : TurnResult → PlanResult
plan_of result =
    if is_nil result.diagnostics then planned result.made else plan_error result.diagnostics

-- `build_runtime_file_plan`
unfoldable pub build_runtime_file_plan : PlanEnvironment → List Validated → PlanResult
build_runtime_file_plan env files = plan_of (plan_files env 0 [] files)
