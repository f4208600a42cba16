-- ===== src/Host/Arguments/Named.antt =====
-- host/src/main.rs: the paths that the command line of `report` names.
use Prim.Native.String.{String}
use fieldbus_control_node.Prelude.{
  ◌≡◌, refl, sym, ap, ◌∙◌, ◌++◌, append_assoc, append_nil, same_text, same_text_lem, err,
  if◌then◌else◌, arith, some, List, [], ◌∷◌, ok, bind-ok, ok-injective, Bool-cases, inl, inr,
  if_true, if_false,
}
use fieldbus_control_node.Host.Arguments.{
  Paths, unknown_report_option, push, report_option, report_options,
}

-- The values that a command line of pairs gives to a flag, in their order.
abbrev pub values_of : String → List String → List String
values_of flag [] = []
values_of flag (f ∷ []) = []
values_of flag (f ∷ value ∷ rest) =
    let more = values_of flag rest in if same_text f flag then value ∷ more else more

push-append : (ps : List String) (p : String) → push ps p ≡ ps ++ p ∷ []
unfolding push
push-append [] p = refl
push-append (x ∷ ps) p = ap (◌∷◌ x) (push-append ps p)

values_of-cons :
    (xs : List String) (flag f value : String) (rest : List String)
    → (xs ++ values_of flag (f ∷ value ∷ [])) ++ values_of flag rest
      ≡ xs ++ values_of flag (f ∷ value ∷ rest)
values_of-cons xs flag f value rest = elim (Bool-cases (same_text f flag)) [
  | inl p ↦ rw p (append_assoc xs (value ∷ []) (values_of flag rest))
  | inr p ↦ rw p (append_assoc xs [] (values_of flag rest))
]

-- One pair's part of the paths.
report_option-ok :
    (p p' : Paths) (f value : String)
    → report_option p f value ≡ ok p'
    → (p'.positives ≡ p.positives ++ values_of "--positive" (f ∷ value ∷ []))
      × (p'.controls ≡ p.controls ++ values_of "--control" (f ∷ value ∷ []))
unfolding report_option
report_option-ok p p' f value h = elim (Bool-cases (same_text f "--out")) [
  | inl o ↦
      let e : record p { out = some value } ≡ p' = ok-injective (sym (if_true _ _ o) ∙ h) in
      rw (same_text_lem f "--out" o) (
        ap (λ (x : Paths). x.positives) (sym e) ∙ sym (append_nil p.positives),
        ap (λ (x : Paths). x.controls) (sym e) ∙ sym (append_nil p.controls),
      )
  | inr o ↦ elim (Bool-cases (same_text f "--positive")) [
    | inl q ↦
        let e : record p { positives = push p.positives value } ≡ p' =
          ok-injective (sym (if_false _ _ o ∙ if_true _ _ q) ∙ h) in
        rw (same_text_lem f "--positive" q) (
          ap (λ (x : Paths). x.positives) (sym e) ∙ push-append p.positives value,
          ap (λ (x : Paths). x.controls) (sym e) ∙ sym (append_nil p.controls),
        )
    | inr q ↦ elim (Bool-cases (same_text f "--control")) [
      | inl c ↦
          let e : record p { controls = push p.controls value } ≡ p' =
            ok-injective (sym (if_false _ _ o ∙ if_false _ _ q ∙ if_true _ _ c) ∙ h) in
          rw (same_text_lem f "--control" c) (
            ap (λ (x : Paths). x.positives) (sym e) ∙ sym (append_nil p.positives),
            ap (λ (x : Paths). x.controls) (sym e) ∙ push-append p.controls value,
          )
      | inr c ↦
          let bad : err (unknown_report_option f) ≡ ok p' =
            sym (if_false _ _ o ∙ if_false _ _ q ∙ if_false _ _ c) ∙ h in
          absurd (ground arith)
    ]
  ]
]

-- What the parsed command line holds of each flag, in the order of the command line.
pub report_options-ok :
    (p p' : Paths) (args : List String)
    → report_options p args ≡ ok p'
    → (p'.positives ≡ p.positives ++ values_of "--positive" args)
      × (p'.controls ≡ p.controls ++ values_of "--control" args)
unfolding report_options
report_options-ok p p' [] h =
    let same : p ≡ p' = ok-injective h in rw (← same) (sym (append_nil _), sym (append_nil _))
report_options-ok p p' (f ∷ []) h = absurd (ground arith)
report_options-ok p p' (f ∷ value ∷ rest) h =
    let (mid, one, more) = bind-ok (report_option p f value) _ p' h in
    let (a, b) = report_option-ok p mid f value one in
    let (c, d) = report_options-ok mid p' rest more in
    (
      c
          ∙ ap (λ xs. xs ++ values_of "--positive" rest) a
          ∙ values_of-cons p.positives "--positive" f value rest,
      d
          ∙ ap (λ xs. xs ++ values_of "--control" rest) b
          ∙ values_of-cons p.controls "--control" f value rest,
    )
