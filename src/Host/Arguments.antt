-- ===== src/Host/Arguments.antt =====
-- host/src/main.rs: the command line: the options of `parse_opts` and of `cmd_report`, and the exit
-- code; and host/src/manifest.rs: `Manifest::load`. The file system, serde_json and `str::parse` are
-- parameters; what is printed is left out.
pub mod Options
pub mod Commands
pub mod Named
pub mod Gate
use Prim.Native.String.{String, ◌++◌}
use fieldbus_control_node.Prelude.{
  ℕ, Bool, true, false, ◌||◌, Option, none, some, List, [], ◌∷◌, Result, ok, err, ◌>>=◌, same_text,
  if◌then◌else◌,
}
use fieldbus_control_node.Control.Float.{Float32}
use fieldbus_control_node.Host.Bus.{is_empty}
use fieldbus_control_node.Host.Schedule.{Mode, real_time, virtual, System}
use fieldbus_control_node.Host.Manifest.{Manifest, HostError, no_output}
use fieldbus_control_node.Host.Run.{Clock}
use fieldbus_control_node.Host.Report.{RunReport}
use fieldbus_control_node.Host.Command.{
  Opts, ControlId, cpu_hog, can_corrupt, sensor_freeze, cmd_run, Summary, summarise,
}

-- What `dispatch` returns as an error, without its sentences.
pub data Misuse : Type 0 where
  needs_value unknown_option unknown_control unknown_subcommand unknown_report_option bad_mode :
      String → Misuse
  -- the flag, and the value
  bad_number : String → String → Misuse
  no_control_name no_report_out no_paths : Misuse
  -- the path, and the message
  cannot_read cannot_parse cannot_create cannot_write : String → String → Misuse
  cannot_serialise : String → Misuse
  refused : HostError → Misuse

-- `Opts`.
pub record Args : Type 0 where
  pub cycles : Option ℕ
  pub period_us : Option ℕ
  pub seed : Option ℕ
  pub mode : Mode
  pub manifest : String
  pub run_id : Option String
  pub out : Option String

abbrev pub default_path : String
default_path = "manifest/frozen.json"

unfoldable pub default_args : Args
default_args = record {
  cycles = none;
  period_us = none;
  seed = none;
  mode = real_time;
  manifest = default_path;
  run_id = none;
  out = none;
}

pub record CompletionReport : Type 0 where
  pub target_period_us : ℕ
  pub cycles : ℕ
  pub positive_runs : List RunReport
  pub negative_controls : List RunReport
  pub summary : Summary

pub record ManifestRef : Type 0 where
  pub path : String
  pub sha256 : String

-- The world of the commands. `parent` is the directory of a path when it is not empty; the reports
-- are printed with the reference to the manifest in them.
pub record World : Type 0 where
  pub parse_number : String → Option ℕ
  pub read_to_string : String → Result String String
  pub parse_manifest : String → Result Manifest String
  pub parse_run : String → Result RunReport String
  pub read : String → Result (List ℕ) String
  pub sha256_hex : List ℕ → String
  pub parent : String → Option String
  pub create_dir_all : String → Result (Unit {0}) String
  pub print_run : RunReport → Result String String
  pub print_completion : CompletionReport → Result String String
  pub write : String → String → Result (Unit {0}) String

unfoldable pub map_err {ℓ} : {A : Type ℓ} → (String → Misuse) → Result A String → Result A Misuse
map_err f (ok a) = ok a
map_err f (err message) = err (f message)

unfoldable pub lift_host {ℓ} : {A : Type ℓ} → Result A HostError → Result A Misuse
lift_host (ok a) = ok a
lift_host (err e) = err (refused e)

unfoldable pub ok_or_misuse {ℓ} : {A : Type ℓ} → Option A → Misuse → Result A Misuse
ok_or_misuse none e = err e
ok_or_misuse (some a) e = ok a

unfoldable pub parse_mode : String → Result Mode Misuse
parse_mode name =
    if same_text name "real-time"
    then ok real_time
    else if same_text name "virtual-time"
    then ok virtual
    else err (bad_mode name)

-- `Opts` as `cmd_run` uses them when an output is named.
unfoldable pub opts_of : Args → Opts
opts_of a = record {
  cycles = a.cycles;
  period_us = a.period_us;
  seed = a.seed;
  mode = a.mode;
  run_id = a.run_id;
  has_out = true;
}

-- `report.push` of a path; `--out` keeps the last one.
pub record Paths : Type 0 where
  pub out : Option String
  pub positives : List String
  pub controls : List String

unfoldable pub push : List String → String → List String
push [] path = path ∷ []
push (p ∷ paths) path = p ∷ push paths path

unfoldable pub report_option : Paths → String → String → Result Paths Misuse
report_option p flag value =
    if same_text flag "--out"
    then ok (record p { out = some value })
    else if same_text flag "--positive"
    then ok (record p { positives = push p.positives value })
    else if same_text flag "--control"
    then ok (record p { controls = push p.controls value })
    else err (unknown_report_option flag)

unfoldable pub report_options : Paths → List String → Result Paths Misuse
report_options p [] = ok p
report_options p (flag ∷ []) = err (needs_value flag)
report_options p (flag ∷ value ∷ rest) = report_option p flag value >>= λ p'. report_options p' rest

-- The exit code of `main`.
unfoldable pub exit_code : Result Bool Misuse → ℕ
exit_code (ok true) = 0
exit_code (ok false) = 1
exit_code (err message) = 2

module _ (world : World) where
  -- `ManifestRef::of`.
  unfoldable pub manifest_ref : String → Result ManifestRef Misuse
  manifest_ref path = do
    bytes ← map_err (cannot_read path) (world.read path)
    ok (record { path = path; sha256 = world.sha256_hex bytes })

  unfoldable pub parse_u64 : String → String → Result ℕ Misuse
  parse_u64 s flag = ok_or_misuse (world.parse_number s) (bad_number flag s)

  -- One option, with the argument behind it if there is one.
  unfoldable pub set_option : Args → String → Option String → Result Args Misuse
  set_option a flag next =
      let value = ok_or_misuse next (needs_value flag) in
      if same_text flag "--cycles"
      then (value >>= λ v. parse_u64 v flag >>= λ n. ok (record a { cycles = some n }))
      else if same_text flag "--period-us"
      then (value >>= λ v. parse_u64 v flag >>= λ n. ok (record a { period_us = some n }))
      else if same_text flag "--seed"
      then (value >>= λ v. parse_u64 v flag >>= λ n. ok (record a { seed = some n }))
      else if same_text flag "--mode"
      then (value >>= λ v. parse_mode v >>= λ m. ok (record a { mode = m }))
      else if same_text flag "--manifest"
      then (value >>= λ v. ok (record a { manifest = v }))
      else if same_text flag "--run-id"
      then (value >>= λ v. ok (record a { run_id = some v }))
      else if same_text flag "--out"
      then (value >>= λ v. ok (record a { out = some v }))
      else err (unknown_option flag)

  -- The loop of `parse_opts`; every known option takes the argument behind it.
  unfoldable pub options : Args → List String → Result Args Misuse
  options a [] = ok a
  options a (flag ∷ []) = set_option a flag none
  options a (flag ∷ value ∷ rest) = set_option a flag (some value) >>= λ a'. options a' rest

  unfoldable pub parse_opts : List String → Result Args Misuse
  parse_opts args = options default_args args

  unfoldable pub load : String → Result Manifest Misuse
  load path = do
    raw ← map_err (cannot_read path) (world.read_to_string path)
    map_err (cannot_parse path) (world.parse_manifest raw)
