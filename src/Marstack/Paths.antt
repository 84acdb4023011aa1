-- ===== src/Marstack/Paths.antt =====
-- Which requests are marstack's: `is_cloud_host`, `method_name`, `data_upload_device_id`,
-- `is_data_upload_path`, `is_time_path` and `Marstack::canHandle` of
-- components/marstack/marstack.cpp.
pub mod Upload
use marsrelay.Common.{
  ℕ, zero, suc, ◌+◌, ◌-◌, Bool, true, false, not, ◌&&◌, ◌||◌, ltb, leb, ◌==◌, if◌then◌else◌,
  bytes_eq, Option, none, some, List, [], ◌∷◌, map, length, take, drop, codes, find, find_from,
  end_or, starts_with,
}

pub data HttpMethod : Type 0 where
  http_get http_post http_put http_patch http_delete http_other : HttpMethod

unfoldable pub method_name : HttpMethod → List ℕ
method_name http_get = codes "GET"
method_name http_post = codes "POST"
method_name http_put = codes "PUT"
method_name http_patch = codes "PATCH"
method_name http_delete = codes "DELETE"
method_name http_other = codes "UNKNOWN"

abbrev pub is_empty : List ℕ → Bool
is_empty [] = true
is_empty (x ∷ xs) = false

-- `std::tolower` in the C locale.
unfoldable pub to_lower : ℕ → ℕ
to_lower c = if leb b'A' c && leb c b'Z' then c + 32 else c

unfoldable pub is_cloud_host : Option (List ℕ) → Bool
unfolding to_lower
is_cloud_host none = false
is_cloud_host (some host) =
    let suffix = codes ".hamedata.com" in
    let name = map to_lower (take (end_or (find b':' host) (length host)) host) in
    ltb (length suffix) (length name) && bytes_eq (drop (length name - length suffix) name) suffix

abbrev pub slash : ℕ
slash = b'/'

abbrev pub upload_prefix : List ℕ
upload_prefix = codes "/data-upload/v1/venus/"

unfoldable pub data_upload_device_id : List ℕ → List ℕ
data_upload_device_id url =
    if leb (length url) (length upload_prefix) || not (starts_with upload_prefix url)
    then []
    else elim (find_from url slash (length upload_prefix)) [
      | some i ↦ []
      | none ↦ drop (length upload_prefix) url
    ]

unfoldable pub is_data_upload_path : List ℕ → Bool
unfolding data_upload_device_id
is_data_upload_path url = not (is_empty (data_upload_device_id url))

-- `s.rfind(c)`.
unfoldable pub rfind : ℕ → List ℕ → Option ℕ
rfind c [] = none
rfind c (x ∷ s) = elim (rfind c s) [
  | some i ↦ some (suc i)
  | none ↦ if x == c then some 0 else none
]

abbrev pub is_some : Option ℕ → Bool
is_some none = false
is_some (some i) = true

abbrev pub after_segment : Option ℕ → List ℕ → List ℕ
after_segment none url = url
after_segment (some segment) url = drop (segment + 1) url

abbrev pub stem : List ℕ
stem = codes "getDateInfo"

unfoldable pub is_time_path : List ℕ → Bool
unfolding rfind
is_time_path url =
    let name = after_segment (rfind slash url) url in
    if not (starts_with stem name)
    then false
    else let rest = drop (length stem) name in is_empty rest || is_some (find b'.' rest)

abbrev pub set_b2500_report : List ℕ
set_b2500_report = codes "/prod/api/v1/setB2500Report"

abbrev pub set_small_reporting : List ℕ
set_small_reporting = codes "/prod/api/v1/setSmallReporting"

abbrev pub set_venus_d_reporting : List ℕ
set_venus_d_reporting = codes "/prod/api/v1/setVenusDReporting"

abbrev pub set_ct_reporting : List ℕ
set_ct_reporting = codes "/prod/api/v1/setCtReporting"

abbrev pub set_ac_couple_reporting : List ℕ
set_ac_couple_reporting = codes "/ems/api/v2/setAcCoupleReporting"

abbrev pub puterrinfo : List ℕ
puterrinfo = codes "/app/Solar/puterrinfo.php"

abbrev pub get_realtime_soc : List ℕ
get_realtime_soc = codes "/ems/api/v1/getRealtimeSoc"

abbrev pub get_device_fire : List ℕ
get_device_fire = codes "/ems/api/v1/getDeviceFire"

abbrev pub get_devices_apply : List ℕ
get_devices_apply = codes "/ems/api/v1/getDevicesApply"

abbrev pub schedulings_policies : List ℕ
schedulings_policies = codes "/external-services/api/v1/schedulings/policies"

abbrev pub backup_configs : List ℕ
backup_configs = codes "/external-services/api/v1/devices/backup-configs"

-- GET_PATHS.
abbrev pub is_get_path : List ℕ → Bool
is_get_path url =
    bytes_eq url set_b2500_report
    || bytes_eq url set_small_reporting
    || bytes_eq url set_venus_d_reporting
    || bytes_eq url set_ct_reporting
    || bytes_eq url set_ac_couple_reporting
    || bytes_eq url puterrinfo
    || bytes_eq url get_realtime_soc
    || bytes_eq url get_device_fire
    || bytes_eq url get_devices_apply
    || bytes_eq url schedulings_policies
    || bytes_eq url backup_configs

-- `canHandle`, for a request with a Host header or without one.
unfoldable pub can_handle : HttpMethod → Option (List ℕ) → List ℕ → Bool
unfolding is_cloud_host is_data_upload_path is_time_path
can_handle http_get host url = is_cloud_host host || is_get_path url || is_time_path url
can_handle http_post host url =
    is_cloud_host host || bytes_eq url puterrinfo || is_data_upload_path url
can_handle http_put host url = false
can_handle http_patch host url = false
can_handle http_delete host url = false
can_handle http_other host url = false
