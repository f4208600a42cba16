-- ===== src/Host/Arguments/Gate.antt =====
-- host/src/main.rs: the exit of the completion gate against the reports that it read.
use Prim.Native.String.{String}
use fieldbus_control_node.Prelude.{
  ◌≤◌, ◌≡◌, ◌≢◌, ◌↔◌, refl, sym, ap, ◌∙◌, err, Result, arith, Bool, true, false, ◌||◌, List, [],
  ◌∷◌, length, ok, bind-ok, ok-injective, Bool-cases, inl, inr, All, if_true, if_false, subst,
}
use mathlib.Core.List.{cons-ne-nil}
use fieldbus_control_node.Host.Bus.{is_empty}
use fieldbus_control_node.Host.Report.{RunReport}
use fieldbus_control_node.Host.Command.{summarise, count_passed, count_caught, is_caught}
use fieldbus_control_node.Host.Arguments.{
  World, Paths, Misuse, cannot_read, cannot_parse, map_err, report_options, ok_or_misuse,
  no_report_out,
}
use fieldbus_control_node.Host.Arguments.Named.{values_of, report_options-ok}
use fieldbus_control_node.Host.Arguments.Commands.{
  read_run, read_runs, first_run, completion, write_json, assemble, cmd_report,
}

abbrev pub Passed : RunReport → Type 0
Passed r = r.gate.pass ≡ true

abbrev pub Caught : RunReport → Type 0
Caught r = is_caught r.control ≡ true

count_passed-le : (rs : List RunReport) → count_passed rs ≤ length rs
unfolding count_passed
count_passed-le [] = omega arith
count_passed-le (r ∷ rs) = ground (arith, count_passed-le rs)

count_passed_iff : (rs : List RunReport) → (count_passed rs ≡ length rs) ↔ All Passed rs
unfolding count_passed
count_passed_iff [] = ((λ h. tt), (λ h. refl))
count_passed_iff (r ∷ rs) =
    let le = count_passed-le rs in
    let (f, b) = count_passed_iff rs in
    ((λ h. (ground arith, f (ground arith))), (λ h. let k = b h.1 in ground (arith, h.0, k)))

count_caught-le : (rs : List RunReport) → count_caught rs ≤ length rs
unfolding count_caught
count_caught-le [] = omega arith
count_caught-le (r ∷ rs) = ground (arith, count_caught-le rs)

count_caught_iff : (rs : List RunReport) → (count_caught rs ≡ length rs) ↔ All Caught rs
unfolding count_caught
count_caught_iff [] = ((λ h. tt), (λ h. refl))
count_caught_iff (r ∷ rs) =
    let le = count_caught-le rs in
    let (f, b) = count_caught_iff rs in
    ((λ h. (ground arith, f (ground arith))), (λ h. let k = b h.1 in ground (arith, h.0, k)))

-- The overall verdict of a summary.
overall_pass_iff :
    (ps cs : List RunReport)
    → ((summarise ps cs).overall_pass ≡ true) ↔ (All Passed ps × All Caught cs)
unfolding summarise
overall_pass_iff ps cs =
    let p = count_passed_iff ps in
    let c = count_caught_iff cs in
    (
      (λ h. (p.0 (ground arith), c.0 (ground arith))),
      (λ h. let a = p.1 h.0 in let b = c.1 h.1 in ground arith),
    )

none_empty : (ps cs : List String) → (is_empty ps || is_empty cs) ≡ false → (ps ≢ []) × (cs ≢ [])
unfolding is_empty
none_empty [] cs h = absurd (ground arith)
none_empty (p ∷ ps) [] h = absurd (ground arith)
none_empty (p ∷ ps) (c ∷ cs) h = (cons-ne-nil _ _, cons-ne-nil _ _)

module _ (world : World) where
  -- Each path's file is read, and parses to the report in the path's place.
  abbrev pub ReadFrom : List String → List RunReport → Type 0
  ReadFrom [] [] = Unit {0}
  ReadFrom [] (r ∷ rs) = ⊥
  ReadFrom (path ∷ paths) [] = ⊥
  ReadFrom (path ∷ paths) (r ∷ rs) =
      ((raw : String) × (world.read_to_string path ≡ ok raw) × (world.parse_run raw ≡ ok r))
      × ReadFrom paths rs

  -- The reports that a command line names, each read from its path, and at least one of each.
  pub record IsGate (args : List String) (ps cs : List RunReport) : Type 0 where
    pub positives : ReadFrom (values_of "--positive" args) ps
    pub controls : ReadFrom (values_of "--control" args) cs
    pub some_positive : values_of "--positive" args ≢ []
    pub some_control : values_of "--control" args ≢ []

  map_err-ok :
      {A : Type 0} (f : String → Misuse) (r : Result A String) (a : A)
      → map_err f r ≡ ok a
      → r ≡ ok a
  unfolding map_err
  map_err-ok f (ok x) a h = ap ok (ok-injective h)
  map_err-ok f (err x) a h = absurd (ground arith)

  read_runs-ok :
      (paths : List String) (rs : List RunReport)
      → read_runs world paths ≡ ok rs
      → ReadFrom paths rs
  unfolding read_runs read_run
  read_runs-ok [] [] h = tt
  read_runs-ok [] (r ∷ rs) h = absurd (ground arith)
  read_runs-ok (path ∷ paths) rs h =
      let (run, one, h1) = bind-ok (read_run world path) _ rs h in
      let (runs, more, h2) = bind-ok (read_runs world paths) _ rs h1 in
      let (raw, text, parsed) =
        bind-ok (map_err (cannot_read path) (world.read_to_string path)) _ run one in
      subst (ReadFrom (path ∷ paths)) (ok-injective h2) (
        (
          raw,
          map_err-ok (cannot_read path) _ raw text,
          map_err-ok (cannot_parse path) _ run parsed,
        ),
        read_runs-ok paths runs more,
      )

  assemble-ok :
      (out : String) (p : Paths) (b : Bool)
      → assemble world out p ≡ ok b
      → (ps : List RunReport) × (cs : List RunReport) × (read_runs world p.positives ≡ ok ps)
        × (read_runs world p.controls ≡ ok cs)
        × ((summarise ps cs).overall_pass ≡ b)
  unfolding assemble completion
  assemble-ok out p b h =
      let (ps, read_ps, h1) = bind-ok (read_runs world p.positives) _ b h in
      let (cs, read_cs, h2) = bind-ok (read_runs world p.controls) _ b h1 in
      let (first, one, h3) = bind-ok (first_run world ps) _ b h2 in
      let (done, wrote, h4) = bind-ok (write_json world out _) _ b h3 in
      (ps, cs, read_ps, read_cs, ok-injective h4)

  -- A `report` that ends without an error has read, from the file of each value that its command line
  -- gives to `--positive` and to `--control` and in their order, one run each, of at least one file
  -- of either kind; its verdict is a pass exactly when the gate of every positive
  -- run passed and every control was caught.
  pub cmd_report-ok :
      (args : List String) (b : Bool)
      → cmd_report world args ≡ ok b
      → (ps : List RunReport) × (cs : List RunReport) × IsGate args ps cs
        × ((b ≡ true) ↔ (All Passed ps × All Caught cs))
  unfolding cmd_report is_empty
  cmd_report-ok args b h =
      let (p, parsed, h1) = bind-ok (report_options _ args) _ b h in
      let (out, named, h2) = bind-ok (ok_or_misuse p.out no_report_out) _ b h1 in
      elim (Bool-cases (is_empty p.positives || is_empty p.controls)) [
        | inl e ↦ absurd (ground (arith, sym (if_true _ _ e) ∙ h2))
        | inr e ↦
            let (named_ps, named_cs) = report_options-ok _ p args parsed in
            let given = none_empty p.positives p.controls e in
            let (ps, cs, read_ps, read_cs, verdict) =
              assemble-ok out p b (sym (if_false _ _ e) ∙ h2) in
            (
              ps,
              cs,
              record {
                positives = subst (λ paths. ReadFrom paths ps) named_ps (read_runs-ok _ ps read_ps);
                controls = subst (λ paths. ReadFrom paths cs) named_cs (read_runs-ok _ cs read_cs);
                some_positive = λ z. given.0 (named_ps ∙ z);
                some_control = λ z. given.1 (named_cs ∙ z);
              },
              subst (λ v. (v ≡ true) ↔ (All Passed ps × All Caught cs)) verdict
                  (overall_pass_iff ps cs),
            )
      ]
