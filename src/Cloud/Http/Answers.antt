-- ===== src/Cloud/Http/Answers.antt =====
-- cloud/src/main.rs: `Metrics`, and what the responses say. The sum of the durations, a
-- floating-point number, is left out.
use Prim.Native.String.{String}
use fieldbus_control_node.Prelude.{
  ℕ, ◌+◌, Bool, ◌&&◌, ◌||◌, List, [], ◌∷◌, if◌then◌else◌, u64, Result, ok, err,
}
use fieldbus_control_node.Cloud.Map.Orders.{Text, eq_text}
use fieldbus_control_node.Cloud.Wire.{
  Error, io, invalid, unauthorized, not_found, conflict, DeviceRecord, Health,
}
use fieldbus_control_node.Cloud.Http.Lines.{
  post, register_path, rotate_path, firmware_path, config_path,
}

pub record Metrics : Type 0 where
  pub requests : ℕ
  pub failures : ℕ
  pub accepted : ℕ
  pub rejected_invalid : ℕ
  pub rejected_unauthorized : ℕ
  pub rejected_conflict : ℕ
  pub rejected_not_found : ℕ
  pub rejected_io : ℕ
  pub duration_count : ℕ

unfoldable pub observe : Metrics → Metrics
observe m = record m { duration_count = u64 (m.duration_count + 1) }

unfoldable pub reject : Metrics → Error → Metrics
reject m (invalid message) = record m { rejected_invalid = u64 (m.rejected_invalid + 1) }
reject m unauthorized = record m { rejected_unauthorized = u64 (m.rejected_unauthorized + 1) }
reject m conflict = record m { rejected_conflict = u64 (m.rejected_conflict + 1) }
reject m not_found = record m { rejected_not_found = u64 (m.rejected_not_found + 1) }
reject m (io message) = record m { rejected_io = u64 (m.rejected_io + 1) }

unfoldable pub fail : Metrics → Metrics
fail m = record m { failures = u64 (m.failures + 1) }

pub record MetricsPage : Type 0 where
  pub counters : Metrics
  pub readings_stored : ℕ
  pub devices_stale : ℕ
  pub devices_registered : ℕ

-- What the bodies of the responses say; a device's record goes out without its secret.
pub data Body : Type 0 where
  invalid_request admin_required healthy nothing : Body
  dashboard_of : List Health → Body
  health_found : Health → Body
  public_device : DeviceRecord → Body
  accepted_count : ℕ → Body
  page : MetricsPage → Body
  failed : Error → Body

pub record Response : Type 0 where
  pub status : String
  pub body : Body

-- `matches!` of the paths that only an administrator may post to.
unfoldable pub is_admin : Text → Text → Bool
is_admin method path =
    eq_text method post
    && (eq_text path register_path
        || (eq_text path rotate_path || (eq_text path firmware_path || eq_text path config_path)))

unfoldable pub count_stale : List Health → ℕ
count_stale [] = 0
count_stale (h ∷ hs) = (if h.stale then 1 else 0) + count_stale hs

unfoldable pub status_of : Error → String
status_of not_found = "404 Not Found"
status_of unauthorized = "401 Unauthorized"
status_of conflict = "409 Conflict"
status_of (invalid message) = "400 Bad Request"
status_of (io message) = "400 Bad Request"

unfoldable pub first_word : List Text → Text
first_word [] = []
first_word (w ∷ ws) = w

unfoldable pub second_word : List Text → Text
second_word [] = []
second_word (w ∷ ws) = first_word ws

unfoldable pub map_result {ℓ κ} :
    {A : Type ℓ} {B : Type κ} → (A → B) → Result A Error → Result B Error
map_result f (ok a) = ok (f a)
map_result f (err e) = err e

-- `Metrics::default`.
unfoldable pub no_metrics : Metrics
no_metrics = record {
  requests = 0;
  failures = 0;
  accepted = 0;
  rejected_invalid = 0;
  rejected_unauthorized = 0;
  rejected_conflict = 0;
  rejected_not_found = 0;
  rejected_io = 0;
  duration_count = 0;
}
