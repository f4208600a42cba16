-- ===== src/Cloud/Http/Server.antt =====
-- cloud/src/main.rs: `handle`. `serde_json` is a parameter, and a response's body is what is
-- written as JSON. A request reads the clock once.
use Prim.Native.String.{String}
use fieldbus_control_node.Prelude.{
  ℕ, ◌+◌, not, ◌&&◌, Option, none, some, List, [], ◌∷◌, leb, if◌then◌else◌, length, u64, Result, ok,
  err, ℤ, pos,
}
use fieldbus_control_node.Cloud.Map.Orders.{Text, eq_text}
use fieldbus_control_node.Cloud.Wire.{
  Float64, Envelope, Error, invalid, unauthorized, not_found, FirmwareMetadata, ConfigMetadata,
  max_batch,
}
use fieldbus_control_node.Cloud.Sign.{Crates}
use fieldbus_control_node.Cloud.Store.{
  Store, Disk, register, rotate_credential, publish_firmware, publish_config, health, dashboard,
  reading_count,
}
use fieldbus_control_node.Cloud.Ingest.{ingest}
use fieldbus_control_node.Cloud.Http.Lines.{
  lines, strip_prefix, post, get_method, register_path, rotate_path, firmware_path, config_path,
  ingest_path, healthz_path, dashboard_path, metrics_path, health_prefix, device_id_field,
  secret_hex_field, firmware_version_field,
}
use fieldbus_control_node.Cloud.Http.Request.{Stream, Strings, read_request}
use fieldbus_control_node.Cloud.Http.Admin.{Environment, admin_authorized}
use fieldbus_control_node.Cloud.Http.Answers.{
  Metrics, observe, reject, fail, MetricsPage, Body, Response, is_admin, count_stale, status_of,
  first_word, second_word, map_result, invalid_request, admin_required, healthy, nothing,
  dashboard_of, health_found, public_device, accepted_count, page, failed,
}

module _ (f64 : Float64) where
  -- `serde_json::from_str`, by the type that is read; a field of a `Value` that is no string reads
  -- as the empty one.
  pub record Json : Type 1 where
    pub Value : Type 0
    pub value : Text → Result Value String
    pub field : Value → Text → Text
    pub batch : Text → Result (List (Envelope f64)) String
    pub firmware : Text → Result FirmwareMetadata String
    pub config : Text → Result ConfigMetadata String

  module _ (crates : Crates f64) (disk : Disk f64) (str : Strings) (json : Json) where
    -- What a request makes of the store, the count of accepted readings, and its result.
    abbrev pub Served : Type 0
    Served = Store f64 × ℕ × Result Response Error

    unfoldable pub answer {ℓ} :
        {A : Type ℓ} → String → (A → Body) → Store f64 × Result A Error → Served
    answer status body (s, r) =
        (s, 0, map_result (λ a. record { status = status; body = body a }) r)

    unfoldable pub serve_register : Store f64 → Result json.Value String → Served
    serve_register s (err e) = (s, 0, err (invalid e))
    serve_register s (ok v) = answer "201 Created" public_device (
        register f64 crates disk s (json.field v device_id_field) (json.field v secret_hex_field)
          (json.field v firmware_version_field))

    unfoldable pub serve_rotate : Store f64 → Result json.Value String → Served
    serve_rotate s (err e) = (s, 0, err (invalid e))
    serve_rotate s (ok v) = answer "200 OK" public_device (
        rotate_credential f64 crates disk s (json.field v device_id_field)
          (json.field v secret_hex_field))

    unfoldable pub count_accepted : Store f64 × Result ℕ Error → Served
    count_accepted (s, ok n) = (s, n, ok (record { status = "200 OK"; body = accepted_count n }))
    count_accepted (s, err e) = (s, 0, err e)

    unfoldable pub serve_ingest : Store f64 → ℤ → Result (List (Envelope f64)) String → Served
    serve_ingest s now (err e) = (s, 0, err (invalid e))
    serve_ingest s now (ok b) =
        if leb (length b) max_batch
        then count_accepted (ingest f64 crates disk s b now)
        else (s, 0, err (invalid "batch too large"))

    unfoldable pub serve_firmware : Store f64 → Result FirmwareMetadata String → Served
    serve_firmware s (err e) = (s, 0, err (invalid e))
    serve_firmware s (ok m) =
        answer "201 Created" (λ u. nothing) (publish_firmware f64 crates disk s m)

    unfoldable pub serve_config : Store f64 → Result ConfigMetadata String → Served
    serve_config s (err e) = (s, 0, err (invalid e))
    serve_config s (ok m) = answer "201 Created" (λ u. nothing) (publish_config f64 crates disk s m)

    unfoldable pub serve_health : Store f64 → ℤ → Option Text → Served
    serve_health s now none = (s, 0, err not_found)
    serve_health s now (some id) =
        answer "200 OK" health_found (s, health f64 s id now (pos 120000))

    unfoldable pub serve_get : Store f64 → Text → ℤ → Served
    serve_get s path now =
        if eq_text path healthz_path
        then (s, 0, ok (record { status = "200 OK"; body = healthy }))
        else if eq_text path dashboard_path
        then (
          s,
          0,
          ok (record { status = "200 OK"; body = dashboard_of (dashboard f64 s now (pos 120000)) }),
        )
        else serve_health s now (strip_prefix health_prefix path)

    unfoldable pub serve_post : Store f64 → Text → Text → ℤ → Served
    serve_post s path body now =
        if eq_text path register_path
        then serve_register s (json.value body)
        else if eq_text path rotate_path
        then serve_rotate s (json.value body)
        else if eq_text path ingest_path
        then serve_ingest s now (json.batch body)
        else if eq_text path firmware_path
        then serve_firmware s (json.firmware body)
        else if eq_text path config_path
        then serve_config s (json.config body)
        else (s, 0, err not_found)

    -- The match on the method and the path.
    unfoldable pub serve : Store f64 → Text → Text → Text → ℤ → Served
    serve s method path body now =
        if eq_text method get_method
        then serve_get s path now
        else if eq_text method post
        then serve_post s path body now
        else (s, 0, err not_found)

    -- Behind the match: the counters and the response.
    unfoldable pub conclude : Metrics → Served → Store f64 × Metrics × Response
    conclude m (s, n, ok r) = (s, observe (record m { accepted = u64 (m.accepted + n) }), r)
    conclude m (s, n, err e) =
        (s, reject (fail (observe m)) e, record { status = status_of e; body = failed e })

    unfoldable pub metrics_page : Store f64 → Metrics → ℤ → MetricsPage
    metrics_page s m now =
        let healths = dashboard f64 s now (pos 120000) in
        record {
          counters = m;
          readings_stored = reading_count f64 s;
          devices_stale = count_stale healths;
          devices_registered = length healths;
        }

    -- A request that was read, for a server that has counted it.
    unfoldable pub dispatch :
        Environment
        → Store f64
        → Metrics
        → ℤ
        → Text
        → Text
        → Text
        → Text
        → Store f64 × Metrics × Response
    dispatch env s m now method path head body =
        if is_admin method path && not (admin_authorized str crates.sha256 env head)
        then (
          s,
          observe (reject (fail m) unauthorized),
          record { status = "401 Unauthorized"; body = admin_required },
        )
        else if eq_text method get_method && eq_text path metrics_path
        then (
          s,
          observe m,
          record { status = "200 OK"; body = page (metrics_page s (observe m) now) },
        )
        else conclude m (serve s method path body now)

    unfoldable pub request_line : List Text → List Text
    request_line [] = []
    request_line (line ∷ rest) = str.split_whitespace line

    unfoldable pub handle_read :
        Environment
        → Store f64
        → Metrics
        → ℤ
        → Result (Text × Text) Error
        → Store f64 × Metrics × Response
    handle_read env s m now (err e) = (
      s,
      observe (reject (fail m) (invalid "invalid request")),
      record { status = "400 Bad Request"; body = invalid_request },
    )
    handle_read env s m now (ok (head, body)) =
        let words = request_line (lines head) in
        dispatch env s m now (first_word words) (second_word words) head body

    unfoldable pub handle :
        Environment → Store f64 → Metrics → ℤ → Stream → Store f64 × Metrics × Response
    handle env s m now stream =
        handle_read env s (record m { requests = u64 (m.requests + 1) }) now
          (read_request str stream)

    -- The accept loop, with the time and the bytes of each connection.
    unfoldable pub serve_connections :
        Environment → Store f64 → Metrics → List (ℤ × Stream) → Store f64 × Metrics
    serve_connections env s m [] = (s, m)
    serve_connections env s m ((now, stream) ∷ rest) =
        let (s', m', response) = handle env s m now stream in serve_connections env s' m' rest
