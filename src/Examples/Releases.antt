-- ===== src/Examples/Releases.antt =====
-- A release that is looked up, and a model that is read out of the cache again.
use python_miio.Base.{◌≡◌, refl, String, some, List, [], ◌∷◌, All}
use python_miio.Base.Int.{pos}
use python_miio.Python.Value.{Value, null}
use python_miio.Python.Dict.{text_eq, lookup, insert}
use python_miio.Python.Result.{Result, ok, err, os_error}
use python_miio.Miot.Service.{DeviceModel}
use python_miio.MiotCloud.Releases.{ReleaseInfo, releases_of, newest, info_for_model}
use python_miio.MiotCloud.Newest.{IsListed, NotNewerFor, info_for_model_lem}
use python_miio.MiotCloud.Cache.{
  CacheDir, Specs, model_file, file_from_cache, get_release_list, get_model_schema,
  get_device_model, write_to_cache,
}
use python_miio.MiotCloud.Caching.{get_device_model_again}
use python_miio.Examples.Schemas.{fan_urn}

abbrev old : ReleaseInfo
old = record {
  release_model = "zhimi.fan.v1";
  status = some "released";
  release_type = "urn:1";
  version = pos 1;
}

abbrev current : ReleaseInfo
current = record old { release_type = "urn:2"; version = pos 2 }

abbrev releases : List ReleaseInfo
releases = old ∷ current ∷ record old { release_model = "zhimi.fan.v2"; version = pos 9 } ∷ []

newest_found : info_for_model "zhimi.fan.v1" releases ≡ ok current
unfolding info_for_model releases_of newest
newest_found = refl

info_for_model_lem_example :
    (current.release_model ≡ "zhimi.fan.v1")
    × IsListed current releases
    × All (NotNewerFor "zhimi.fan.v1" current) releases
info_for_model_lem_example = info_for_model_lem "zhimi.fan.v1" releases current newest_found

abbrev fan_model : DeviceModel
fan_model = record {
  description = "Fan";
  urn = fan_urn;
  services = [];
  services_by_id = [];
  properties_by_id = [];
  properties_by_name = [];
}

abbrev specs : Specs
specs = record {
  get_specs = ok null;
  get_spec_for_urn = λ urn. ok null;
  parse_releases = λ v. ok releases;
  parse_device_model = λ v. ok fan_model;
}

abbrev cache : CacheDir
cache = record { files = []; now = 100 }

abbrev offline : String → Result Value
offline urn = err os_error

model_found : (get_device_model specs "zhimi.fan.v1" cache).0 ≡ ok fan_model
unfolding get_device_model get_model_schema get_release_list file_from_cache lookup info_for_model
    releases_of newest write_to_cache model_file insert
model_found = refl

get_device_model_again_example :
    get_device_model
      (record specs { get_specs = err os_error; get_spec_for_urn = offline })
      "zhimi.fan.v1"
      (get_device_model specs "zhimi.fan.v1" cache).1
    ≡ (ok fan_model, (get_device_model specs "zhimi.fan.v1" cache).1)
get_device_model_again_example =
    get_device_model_again specs "zhimi.fan.v1" cache fan_model (err os_error) offline model_found
