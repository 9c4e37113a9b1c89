-- ===== src/MiotCloud/Cache.antt =====
-- `MiotCloud` of miio/miot_cloud.py over its cache. A file holds what `json.loads` gives of it, if anything;
-- that writing fails is left out. Times are in seconds.
use Prim.Native.String.{◌++◌}
use python_miio.Base.{
  ℕ, ◌+◌, ◌*◌, String, Bool, true, false, Option, none, some, List, ltb, if◌then◌else◌,
}
use python_miio.Python.Value.{Value}
use python_miio.Python.Dict.{Dict, text_eq, lookup, insert}
use python_miio.Python.Result.{Error, Result, ok, err, file_not_found, value_error, or_raise}
use python_miio.Python.Action.{Action, pure, raise, modify, try_except, ◌>>=◌, ◌>>◌}
use python_miio.Miot.Service.{DeviceModel}
use python_miio.MiotCloud.Releases.{ReleaseInfo, info_for_model}

pub record File : Type 0 where
  pub contents : Option Value
  pub modified : ℕ

pub record CacheDir : Type 0 where
  pub files : Dict String File
  pub now : ℕ

-- `MiotSpec` of micloud, and pydantic's `parse_obj`
pub record Specs : Type 0 where
  pub get_specs : Result Value
  pub get_spec_for_urn : String → Result Value
  pub parse_releases : Value → Result (List ReleaseInfo)
  pub parse_device_model : Value → Result DeviceModel

-- `MODEL_MAPPING_FILE`
abbrev model_mapping_file : String
model_mapping_file = "model-to-urn.json"

-- `f"{model}.json"`
unfoldable pub model_file : String → String
model_file model = model ++ ".json"

-- `_valid_cache`, for six hours
unfoldable pub valid_cache : File → ℕ → Bool
valid_cache f now = ltb now (f.modified + 6 * 3600)

abbrev pub fresh_contents : Option File → ℕ → Result Value
fresh_contents none now = err file_not_found
fresh_contents (some f) now =
    if valid_cache f now then or_raise f.contents value_error else err file_not_found

-- `_file_from_cache`
unfoldable pub file_from_cache : String → Action CacheDir Value
file_from_cache file s = (fresh_contents (lookup file s.files) s.now, s)

abbrev pub written : String → Value → CacheDir → CacheDir
written file contents s = record s {
  files = insert file (record { contents = some contents; modified = s.now }) s.files;
}

-- `_write_to_cache`
unfoldable pub write_to_cache : String → Value → Action CacheDir (Unit {0})
write_to_cache file contents = modify (written file contents)

abbrev pub is_file_not_found : Error → Bool
is_file_not_found file_not_found = true
is_file_not_found _ = false

-- `except FileNotFoundError`, and what follows the `try`
abbrev pub on_file_not_found : {A : Type 0} → Action CacheDir A → Error → Action CacheDir A
on_file_not_found m e = if is_file_not_found e then m else raise e

module _ (c : Specs) where
  abbrev fetch_release_list : Action CacheDir (List ReleaseInfo)
  fetch_release_list = do
    specs ← pure c.get_specs
    write_to_cache model_mapping_file specs
    pure (c.parse_releases specs)

  -- `get_release_list`
  unfoldable pub get_release_list : Action CacheDir (List ReleaseInfo)
  get_release_list =
      try_except (file_from_cache model_mapping_file >>= λ mapping. pure (c.parse_releases mapping))
        (on_file_not_found fetch_release_list)

  abbrev pub fetch_spec : String → ReleaseInfo → Action CacheDir Value
  fetch_spec file release_info = do
    spec ← pure (c.get_spec_for_urn release_info.release_type)
    write_to_cache file spec
    pure (ok spec)

  abbrev pub spec_of_release : ReleaseInfo → Action CacheDir Value
  spec_of_release release_info =
      let file = model_file release_info.release_model in
      try_except (file_from_cache file) (on_file_not_found (fetch_spec file release_info))

  -- `get_model_schema`
  unfoldable pub get_model_schema : String → Action CacheDir Value
  get_model_schema model = do
    specs ← get_release_list
    release_info ← pure (info_for_model model specs)
    spec_of_release release_info

  abbrev pub parsed_model : Action CacheDir Value → Action CacheDir DeviceModel
  parsed_model read = read >>= λ spec. pure (c.parse_device_model spec)

  -- `get_device_model`
  unfoldable pub get_device_model : String → Action CacheDir DeviceModel
  get_device_model model =
      try_except (parsed_model (file_from_cache (model_file model)))
        (on_file_not_found (parsed_model (get_model_schema model)))
