-- ===== src/Cloud/Http/Guarded.antt =====
-- cloud/src/main.rs: which requests may change the store.
use fieldbus_control_node.Prelude.{
  ◌≡◌, ◌⊎◌, inl, inr, refl, arith, true, false, ◌&&◌, Option, none, some, ok, err, ℤ, pos, if_lem,
  Bool-cases, Result-cases, u64, ◌+◌, ◌∙◌,
}
use fieldbus_control_node.Cloud.Map.Orders.{Text, eq_text}
use fieldbus_control_node.Cloud.Wire.{Float64}
use fieldbus_control_node.Cloud.Sign.{Crates}
use fieldbus_control_node.Cloud.Store.{Store, Disk, dashboard}
use fieldbus_control_node.Cloud.Http.Lines.{
  lines, post, get_method, healthz_path, dashboard_path, metrics_path, register_path, rotate_path,
  firmware_path, config_path, ingest_path, strip_prefix, health_prefix,
}
use fieldbus_control_node.Cloud.Http.Request.{Stream, Strings, read_request}
use fieldbus_control_node.Cloud.Http.Admin.{Environment, admin_authorized}
use fieldbus_control_node.Cloud.Http.Answers.{
  Metrics, observe, Response, is_admin, first_word, second_word, healthy, dashboard_of, page,
}
use fieldbus_control_node.Cloud.Http.Server.{
  serve_health, metrics_page, Json, Served, answer, serve_get, serve_post, serve, conclude,
  dispatch, handle_read, handle, request_line,
}

-- A post to none of the administrator's paths.
no_admin_path :
    (method path : Text)
    → is_admin method path ≡ false
    → eq_text method post ≡ true
    → (eq_text path register_path ≡ false)
      × (eq_text path rotate_path ≡ false)
      × (eq_text path firmware_path ≡ false)
      × (eq_text path config_path ≡ false)
unfolding is_admin
no_admin_path method path h p =
    (ground (arith, h, p), ground (arith, h, p), ground (arith, h, p), ground (arith, h, p))

module _ (f64 : Float64) (crates : Crates f64) (disk : Disk f64) (str : Strings)
    (json : Json f64) where
  serve_health-keeps :
      (s : Store f64) (now : ℤ) (id : Option Text)
      → (serve_health f64 crates disk str json s now id).0 ≡ s
  unfolding serve_health answer
  serve_health-keeps s now none = refl
  serve_health-keeps s now (some id) = refl

  serve_get-keeps :
      (s : Store f64) (path : Text) (now : ℤ)
      → (serve_get f64 crates disk str json s path now).0 ≡ s
  unfolding serve_get
  serve_get-keeps s path now =
      if_lem (λ (r : Served f64 crates disk str json). r.0 ≡ s) (eq_text path healthz_path)
        {x = (s, 0, ok (record { status = "200 OK"; body = healthy }))} refl
        (if_lem (λ (r : Served f64 crates disk str json). r.0 ≡ s) (eq_text path dashboard_path)
          {x = (
            s,
            0,
            ok (record {
              status = "200 OK";
              body = dashboard_of (dashboard f64 s now (pos 120000));
            }),
          )}
          refl (serve_health-keeps s now (strip_prefix health_prefix path)))

  serve-keeps :
      (s : Store f64) (method path body : Text) (now : ℤ)
      → is_admin method path ≡ false
      → (eq_text method post && eq_text path ingest_path) ≡ false
      → (serve f64 crates disk str json s method path body now).0 ≡ s
  unfolding serve serve_post
  serve-keeps s method path body now other no_ingest =
      if_lem (λ (r : Served f64 crates disk str json). r.0 ≡ s) (eq_text method get_method)
        (serve_get-keeps s path now)
        (elim (Bool-cases (eq_text method post)) [
          | inl p ↦
              let (a, b, c, d) = no_admin_path method path other p in
              let e : eq_text path ingest_path ≡ false = ground (arith, p, no_ingest) in
              rw (p, a, b, e, c, d) refl
          | inr p ↦ rw p refl
        ])

  conclude-keeps :
      (m : Metrics) (served : Served f64 crates disk str json)
      → (conclude f64 crates disk str json m served).0 ≡ served.0
  unfolding conclude
  conclude-keeps m (s, n, ok r) = refl
  conclude-keeps m (s, n, err e) = refl

  -- A post by an administrator who is authorized, or of readings.
  abbrev pub MayChange : Environment → Text → Text → Text → Type 0
  MayChange env method path head =
      ((is_admin method path ≡ true) × (admin_authorized str crates.sha256 env head ≡ true))
      ⊎ ((eq_text method post && eq_text path ingest_path) ≡ true)

  dispatch-keeps :
      (env : Environment) (s : Store f64) (m : Metrics) (now : ℤ) (method path head body : Text)
      → ((dispatch f64 crates disk str json env s m now method path head body).0 ≡ s)
        ⊎ MayChange env method path head
  unfolding dispatch
  dispatch-keeps env s m now method path head body = elim (Bool-cases (is_admin method path)) [
    | inl a ↦ elim (Bool-cases (admin_authorized str crates.sha256 env head)) [
      | inl ok_admin ↦ inr (inl (a, ok_admin))
      | inr refused ↦ inl (rw (a, refused) refl)
    ]
    | inr a ↦ elim (Bool-cases (eq_text method post && eq_text path ingest_path)) [
      | inl i ↦ inr (inr i)
      | inr i ↦
          let served = serve f64 crates disk str json s method path body now in
          let kept = conclude-keeps m served ∙ serve-keeps s method path body now a i in
          inl (
            rw a (
              if_lem (λ (r : Store f64 × Metrics × Response). r.0 ≡ s)
                (eq_text method get_method && eq_text path metrics_path)
                {x = (
                  s,
                  observe m,
                  record {
                    status = "200 OK";
                    body = page (metrics_page f64 crates disk str json s (observe m) now);
                  },
                )}
                refl kept))
    ]
  ]

-- A connection leaves the store as it was, unless it sends a request that is well formed and
-- posts readings, or posts to an administrator's path with the administrator's authorization:
-- whatever else it sends, and whatever the disk and the parsers do.
pub handle-keeps :
    (f64 : Float64) (crates : Crates f64) (disk : Disk f64) (str : Strings) (json : Json f64)
    (env : Environment) (s : Store f64) (m : Metrics) (now : ℤ) (stream : Stream)
    → ((handle f64 crates disk str json env s m now stream).0 ≡ s)
      ⊎ ((head : Text) × (body : Text) × (read_request str stream ≡ ok (head, body))
          × let words = request_line f64 crates disk str json (lines head) in
            MayChange f64 crates disk str json env (first_word words) (second_word words) head)
unfolding handle handle_read
handle-keeps f64 crates disk str json env s m now stream =
    elim (Result-cases (read_request str stream)) [
      | inl (request, e) ↦
          let words = request_line f64 crates disk str json (lines request.0) in
          elim (dispatch-keeps f64 crates disk str json env s
            (record m { requests = u64 (m.requests + 1) }) now (first_word words)
            (second_word words) request.0 request.1) [
              | inl same ↦ inl (rw e same)
              | inr may ↦ inr (request.0, request.1, e, may)
            ]
      | inr (error, e) ↦ inl (rw e refl)
    ]
