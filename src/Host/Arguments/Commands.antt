-- ===== src/Host/Arguments/Commands.antt =====
-- host/src/main.rs: the commands, `cmd_run`, `cmd_report` and `dispatch`, with the files that they
-- read and write.
use Prim.Native.String.{String, ◌++◌}
use fieldbus_control_node.Prelude.{
  ℕ, Bool, true, ◌||◌, Option, none, some, List, [], ◌∷◌, Result, ok, err, ◌>>=◌, same_text,
  if◌then◌else◌,
}
use fieldbus_control_node.Control.Float.{Float32}
use fieldbus_control_node.Host.Bus.{is_empty}
use fieldbus_control_node.Host.Schedule.{System}
use fieldbus_control_node.Host.Manifest.{no_output}
use fieldbus_control_node.Host.Run.{Clock}
use fieldbus_control_node.Host.Report.{RunReport}
use fieldbus_control_node.Host.Command.{
  ControlId, cpu_hog, can_corrupt, sensor_freeze, cmd_run, summarise,
}
use fieldbus_control_node.Host.Arguments.{
  Misuse, unknown_control, unknown_subcommand, no_control_name, no_report_out, no_paths,
  cannot_read, cannot_parse, cannot_create, cannot_write, cannot_serialise, refused,
  CompletionReport, World, map_err, lift_host, ok_or_misuse, opts_of, Paths, report_options,
  manifest_ref, parse_opts, load,
}

module _ (world : World) where
  unfoldable pub read_run : String → Result RunReport Misuse
  read_run path = do
    raw ← map_err (cannot_read path) (world.read_to_string path)
    map_err (cannot_parse path) (world.parse_run raw)

  -- `collect` of the reports: all of them, or the first error.
  unfoldable pub read_runs : List String → Result (List RunReport) Misuse
  read_runs [] = ok []
  read_runs (path ∷ paths) = do run ← read_run path; runs ← read_runs paths; ok (run ∷ runs)

  unfoldable pub make_parent : Option String → Result (Unit {0}) Misuse
  make_parent none = ok tt
  make_parent (some dir) = map_err (cannot_create dir) (world.create_dir_all dir)

  unfoldable pub write_json : String → Result String String → Result (Unit {0}) Misuse
  write_json path printed = do
    made ← make_parent (world.parent path)
    text ← map_err cannot_serialise printed
    map_err (cannot_write path) (world.write path (text ++ "\n"))

  unfoldable pub first_run : List RunReport → Result RunReport Misuse
  first_run [] = err no_paths
  first_run (run ∷ runs) = ok run

  unfoldable pub completion : RunReport → List RunReport → List RunReport → CompletionReport
  completion first positive_runs negative_controls = record {
    target_period_us = first.target_period_us;
    cycles = first.cycles;
    positive_runs = positive_runs;
    negative_controls = negative_controls;
    summary = summarise positive_runs negative_controls;
  }

  -- The report from its paths.
  unfoldable pub assemble : String → Paths → Result Bool Misuse
  assemble out p = do
    positive_runs ← read_runs p.positives
    negative_controls ← read_runs p.controls
    first ← first_run positive_runs
    let report = completion first positive_runs negative_controls
    written ← write_json out (world.print_completion report)
    ok report.summary.overall_pass

  unfoldable pub cmd_report : List String → Result Bool Misuse
  cmd_report args = do
    p ← report_options (record { out = none; positives = []; controls = [] }) args
    out ← ok_or_misuse p.out no_report_out
    if is_empty p.positives || is_empty p.controls then err no_paths else assemble out p

  module _ (fl : Float32) (sys : System) (clock : Clock) (logical_cores : ℕ) where
    unfoldable pub run_command : List String → Option ControlId → Result Bool Misuse
    run_command args control = do
      o ← parse_opts world args
      out ← ok_or_misuse o.out (refused no_output)
      manifest ← load world o.manifest
      hashed ← manifest_ref world o.manifest
      judged ← lift_host (cmd_run fl sys clock logical_cores (opts_of o) control manifest)
      let (report, verdict) = judged
      written ← write_json out (world.print_run report)
      ok verdict

    unfoldable pub control_command : List String → Result Bool Misuse
    control_command [] = err no_control_name
    control_command (which ∷ rest) =
        if same_text which "cpu-hog"
        then run_command rest (some cpu_hog)
        else if same_text which "can-corrupt"
        then run_command rest (some can_corrupt)
        else if same_text which "sensor-freeze"
        then run_command rest (some sensor_freeze)
        else err (unknown_control which)

    unfoldable pub dispatch : List String → Result Bool Misuse
    dispatch [] = ok true
    dispatch (command ∷ rest) =
        if same_text command "run"
        then run_command rest none
        else if same_text command "control"
        then control_command rest
        else if same_text command "report"
        then cmd_report rest
        else if same_text command "--help" || same_text command "-h"
        then ok true
        else err (unknown_subcommand command)
