-- ===== src/Examples/Files.antt =====
-- The theorems on the files of cloud/src/lib.rs and of host/src/main.rs at concrete inputs.
use Prim.Native.String.{String}
use fieldbus_control_node.Prelude.{
  ◌≡◌, ◌↔◌, refl, arith, Bool, true, false, none, some, List, [], ◌∷◌, ◌++◌, ◌==◌, if◌then◌else◌,
  same_text, Result, ok, err, All,
}
use fieldbus_control_node.Cloud.Map.Orders.{Text}
use fieldbus_control_node.Cloud.Wire.{Event, config_published, invalid}
use fieldbus_control_node.Cloud.Store.{Store, empty, apply, publish_config, append, written}
use fieldbus_control_node.Cloud.Store.File.{
  FileSystem, Codec, open_file, load, lines, io_check, or_io, or_invalid, prepend,
}
use fieldbus_control_node.Cloud.Store.File.Reopen.{
  IsPrinted, Written, nothing, line, IsReliable, append_files, open_file-torn, reopens,
}
use fieldbus_control_node.Cloud.Store.Recovery.{with_log, Request, config, serve, serve_all}
use fieldbus_control_node.Cloud.Store.File.Recovers.{recovers}
use fieldbus_control_node.Control.Float.{thousandths}
use fieldbus_control_node.Host.Schedule.{virtual}
use fieldbus_control_node.Host.Report.{RunReport}
use fieldbus_control_node.Host.Report.Build.{build_run_report}
use fieldbus_control_node.Host.Command.{summarise}
use fieldbus_control_node.Host.Arguments.{
  Args, World, parse_opts, default_args, report_options, report_option, push, ok_or_misuse, map_err,
}
use fieldbus_control_node.Host.Arguments.Commands.{
  cmd_report, assemble, read_runs, read_run, first_run, completion, write_json, make_parent,
}
use fieldbus_control_node.Host.Bus.{is_empty}
use fieldbus_control_node.Host.Arguments.Options.{command_line, parse_opts-command_line}
use fieldbus_control_node.Host.Arguments.Gate.{IsGate, Passed, Caught, cmd_report-ok}
use fieldbus_control_node.Examples.Service.{integers, crates, disk-IsClean, writes_all}
use fieldbus_control_node.Examples.Host.{outcome, manifest}

-- One event, whose line is the letter `c`.
abbrev event : Event integers
event = config_published (record { version = 1; sample_period_ms = 10; stale_after_ms = 20 })

abbrev from_str : Text → Result (Event integers) String
from_str [] = err "empty"
from_str (b ∷ bytes) = if b == b'c' then ok event else err "torn"

abbrev is_blank : Text → Bool
is_blank [] = true
is_blank (b ∷ bytes) = false

abbrev codec : Codec integers
codec = record {
  to_string = λ e. ok (b'c' ∷ []);
  from_str = from_str;
  utf8 = λ t. ok t;
  is_blank = is_blank;
}

abbrev disk : FileSystem
disk = record {
  create_dir_all = none;
  open_log_file = none;
  write_all = λ file bytes. (file ++ bytes, ok tt);
}

disk-IsReliable : IsReliable integers codec disk
disk-IsReliable = record {
  ready = record { made = refl; opened = refl };
  writes = λ file bytes. refl;
}

event-IsPrinted : IsPrinted integers codec event (b'c' ∷ [])
event-IsPrinted = record {
  printed = refl;
  one_line = (omega arith, tt);
  text = refl;
  visible = refl;
  read = refl;
}

abbrev file : Text
file = b'c' ∷ 10 ∷ []

file-Written : Written integers codec (event ∷ []) file
file-Written = line event (b'c' ∷ []) event-IsPrinted nothing

open_file-torn_example :
    open_file integers codec disk (file ++ b'{' ∷ b'"' ∷ []) ≡ err (invalid "torn")
open_file-torn_example =
    open_file-torn integers codec disk (event ∷ []) file b'{' (b'"' ∷ []) "torn"
      disk-IsReliable.ready file-Written (omega arith, (omega arith, tt)) refl refl refl

abbrev opened : Store integers
opened = apply integers (empty integers []) event

file-opened : open_file integers codec disk file ≡ ok opened
unfolding open_file load lines io_check or_io or_invalid prepend
file-opened = refl

reopens_example :
    let o =
      append_files integers codec disk
        (record { file = file; store = opened })
        (event ∷ event ∷ []) in
    open_file integers codec disk o.file ≡ ok o.store
reopens_example =
    reopens integers codec disk (event ∷ []) (event ∷ event ∷ []) file opened disk-IsReliable
      file-Written ((b'c' ∷ [], event-IsPrinted), ((b'c' ∷ [], event-IsPrinted), tt)) file-opened

-- A process opens the file, and an administrator publishes the configuration again.
abbrev requests : List (Request integers)
requests = config (record { version = 1; sample_period_ms = 10; stale_after_ms = 20 }) ∷ []

abbrev served : Store integers
served = serve_all integers crates writes_all (with_log integers opened (event ∷ [])) requests

served-Written : Written integers codec served.log (b'c' ∷ 10 ∷ file)
unfolding serve_all serve publish_config append written apply
served-Written = line event (b'c' ∷ []) event-IsPrinted file-Written

recovers_example :
    open_file integers codec disk (b'c' ∷ 10 ∷ file) ≡ ok (with_log integers served [])
recovers_example =
    recovers integers crates writes_all codec disk (event ∷ []) requests file (b'c' ∷ 10 ∷ file)
      opened disk-IsClean disk-IsReliable.ready file-Written file-opened served-Written

-- The report of the run of the other examples, for every path.
abbrev report : RunReport
report = build_run_report thousandths "positive" outcome 10000 manifest

abbrev world : World
world = record {
  parse_number = λ s. if same_text s "600" then some 600 else none;
  read_to_string = λ path. ok "{}";
  parse_manifest = λ text. ok manifest;
  parse_run = λ text. ok report;
  read = λ path. ok [];
  sha256_hex = λ bytes. "00";
  parent = λ path. none;
  create_dir_all = λ dir. ok tt;
  print_run = λ r. ok "{}";
  print_completion = λ r. ok "{}";
  write = λ path text. ok tt;
}

abbrev args : Args
args = record default_args { cycles = some 600; mode = virtual; out = some "out.json" }

parse_opts-command_line_example : parse_opts world (command_line (λ n. "600") args) ≡ ok args
unfolding default_args
parse_opts-command_line_example = parse_opts-command_line world (λ n. "600") args refl tt tt

abbrev gate : List String
gate = "--out" ∷ "all.json" ∷ "--positive" ∷ "a.json" ∷ "--control" ∷ "b.json" ∷ []

abbrev verdict : Bool
verdict = (summarise (report ∷ []) (report ∷ [])).overall_pass

gate_ends : cmd_report world gate ≡ ok verdict
unfolding cmd_report report_options report_option push ok_or_misuse assemble read_runs read_run
    map_err first_run completion write_json make_parent is_empty
gate_ends = refl

cmd_report-ok_example :
    (ps : List RunReport) × (cs : List RunReport) × IsGate world gate ps cs
    × ((verdict ≡ true) ↔ (All Passed ps × All Caught cs))
cmd_report-ok_example = cmd_report-ok world gate verdict gate_ends
