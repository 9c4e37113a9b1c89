-- ===== src/MiotCloud/Releases.antt =====
-- `ReleaseInfo` and `ReleaseList` of miio/miot_cloud.py.
use Prim.Native.String.{◌++◌}
use python_miio.Base.{String, Option, none, some, List, [], ◌∷◌, str_eq, if◌then◌else◌}
use python_miio.Base.Int.{ℤ, leb_ℤ}
use python_miio.Python.Result.{Result, ok, err, cloud_exception}
use python_miio.Miot.Urn.{show_int}

pub record ReleaseInfo : Type 0 where
  pub release_model : String
  pub status : Option String
  pub release_type : String
  pub version : ℤ

abbrev status_text : Option String → String
status_text none = "None"
status_text (some s) = s

-- `filename`
unfoldable pub filename : ReleaseInfo → String
filename r =
    r.release_model ++ ("_" ++ (status_text r.status ++ ("_" ++ (show_int r.version ++ ".json"))))

-- `[inst for inst in self.releases if inst.model == model]`
unfoldable pub releases_of : String → List ReleaseInfo → List ReleaseInfo
releases_of model [] = []
releases_of model (inst ∷ releases) =
    if str_eq inst.release_model model
    then inst ∷ releases_of model releases
    else releases_of model releases

-- `max(releases, key=attrgetter("version"))`, where the first has been seen: the earlier of two equal ones
unfoldable pub newest : ReleaseInfo → List ReleaseInfo → ReleaseInfo
newest best [] = best
newest best (r ∷ releases) = newest (if leb_ℤ r.version best.version then best else r) releases

abbrev pub newest_of : List ReleaseInfo → Result ReleaseInfo
newest_of [] = err cloud_exception
newest_of (r ∷ releases) = ok (newest r releases)

-- `info_for_model`; its `status_filter` is only written into the message of the exception
unfoldable pub info_for_model : String → List ReleaseInfo → Result ReleaseInfo
info_for_model model releases = newest_of (releases_of model releases)
