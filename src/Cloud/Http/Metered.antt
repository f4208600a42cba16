-- ===== src/Cloud/Http/Metered.antt =====
-- cloud/src/main.rs: the counters of the server.
use fieldbus_control_node.Prelude.{
  ℕ, ◌+◌, ◌≡◌, refl, arith, List, [], ◌∷◌, u64, Result, ok, err, ℤ, if_lem, ◌&&◌, not,
}
use fieldbus_control_node.Cloud.Map.Orders.{Text, eq_text}
use fieldbus_control_node.Cloud.Wire.{
  Float64, Error, io, invalid, unauthorized, not_found, conflict,
}
use fieldbus_control_node.Cloud.Sign.{Crates}
use fieldbus_control_node.Cloud.Store.{Store, Disk}
use fieldbus_control_node.Cloud.Http.Lines.{get_method, metrics_path}
use fieldbus_control_node.Cloud.Http.Request.{Stream, Strings, read_request}
use fieldbus_control_node.Cloud.Http.Admin.{Environment, admin_authorized}
use fieldbus_control_node.Cloud.Http.Answers.{
  Metrics, observe, reject, fail, Response, is_admin, no_metrics,
}
use fieldbus_control_node.Cloud.Http.Server.{
  Json, Served, serve, conclude, dispatch, handle_read, handle, serve_connections,
}

-- What the reasons add up to.
abbrev pub rejected : Metrics → ℕ
rejected m =
    m.rejected_invalid + m.rejected_unauthorized + m.rejected_conflict + m.rejected_not_found
    + m.rejected_io

-- Every failure has one reason, and every request was timed once, in counters of 64 bits.
pub record IsBalanced (m : Metrics) : Type 0 where
  pub reasons : u64 (rejected m) ≡ u64 m.failures
  pub timed : u64 m.duration_count ≡ u64 m.requests

reject-reasons :
    (m : Metrics) (e : Error)
    → u64 (rejected m) ≡ u64 m.failures
    → let m' = reject (fail m) e in
      (u64 (rejected m') ≡ u64 m'.failures)
      × (m'.duration_count ≡ m.duration_count)
      × (m'.requests ≡ m.requests)
unfolding reject fail
reject-reasons m (io x) h = (omega (arith, h), refl, refl)
reject-reasons m (invalid x) h = (omega (arith, h), refl, refl)
reject-reasons m unauthorized h = (omega (arith, h), refl, refl)
reject-reasons m not_found h = (omega (arith, h), refl, refl)
reject-reasons m conflict h = (omega (arith, h), refl, refl)

-- A request that is counted, and timed once it has been answered.
module _ (m : Metrics) (reasons : u64 (rejected m) ≡ u64 m.failures)
    (timed : u64 (m.duration_count + 1) ≡ u64 m.requests) where
  observe-IsBalanced : IsBalanced (observe m)
  unfolding observe
  observe-IsBalanced = record { reasons = reasons; timed = omega (arith, timed) }

  observe-reject-IsBalanced : (e : Error) → IsBalanced (observe (reject (fail m) e))
  unfolding observe
  observe-reject-IsBalanced e =
      let r = reject-reasons m e reasons in
      record { reasons = r.0; timed = omega (arith, timed, r.1, r.2) }

  reject-observe-IsBalanced : (e : Error) → IsBalanced (reject (fail (observe m)) e)
  unfolding observe
  reject-observe-IsBalanced e =
      let r = reject-reasons (observe m) e reasons in
      record { reasons = r.0; timed = omega (arith, timed, r.1, r.2) }

module _ (f64 : Float64) (crates : Crates f64) (disk : Disk f64) (str : Strings)
    (json : Json f64) where
  conclude-IsBalanced :
      (m : Metrics) (served : Served f64 crates disk str json)
      → u64 (rejected m) ≡ u64 m.failures
      → u64 (m.duration_count + 1) ≡ u64 m.requests
      → IsBalanced (conclude f64 crates disk str json m served).1
  unfolding conclude
  conclude-IsBalanced m (s, n, ok r) reasons timed =
      observe-IsBalanced (record m { accepted = u64 (m.accepted + n) }) reasons timed
  conclude-IsBalanced m (s, n, err e) reasons timed = reject-observe-IsBalanced m reasons timed e

  dispatch-IsBalanced :
      (env : Environment) (s : Store f64) (m : Metrics) (now : ℤ) (method path head body : Text)
      → u64 (rejected m) ≡ u64 m.failures
      → u64 (m.duration_count + 1) ≡ u64 m.requests
      → IsBalanced (dispatch f64 crates disk str json env s m now method path head body).1
  unfolding dispatch
  dispatch-IsBalanced env s m now method path head body reasons timed =
      if_lem (λ (r : Store f64 × Metrics × Response). IsBalanced r.1)
        (is_admin method path && not (admin_authorized str crates.sha256 env head))
        (observe-reject-IsBalanced m reasons timed unauthorized)
        (if_lem (λ (r : Store f64 × Metrics × Response). IsBalanced r.1)
          (eq_text method get_method && eq_text path metrics_path)
          (observe-IsBalanced m reasons timed)
          (conclude-IsBalanced m (serve f64 crates disk str json s method path body now) reasons
            timed))

  handle_read-IsBalanced :
      (env : Environment) (s : Store f64) (m : Metrics) (now : ℤ)
      (request : Result (Text × Text) Error)
      → u64 (rejected m) ≡ u64 m.failures
      → u64 (m.duration_count + 1) ≡ u64 m.requests
      → IsBalanced (handle_read f64 crates disk str json env s m now request).1
  unfolding handle_read
  handle_read-IsBalanced env s m now (err e) reasons timed =
      observe-reject-IsBalanced m reasons timed (invalid "invalid request")
  handle_read-IsBalanced env s m now (ok (head, body)) reasons timed =
      dispatch-IsBalanced env s m now _ _ head body reasons timed

  handle-IsBalanced :
      (env : Environment) (s : Store f64) (m : Metrics) (now : ℤ) (stream : Stream)
      → IsBalanced m
      → IsBalanced (handle f64 crates disk str json env s m now stream).1
  unfolding handle
  handle-IsBalanced env s m now stream h =
      handle_read-IsBalanced env s (record m { requests = u64 (m.requests + 1) }) now
        (read_request str stream) h.reasons (omega (arith, h.timed))

  connections-IsBalanced :
      (connections : List (ℤ × Stream)) (env : Environment) (s : Store f64) (m : Metrics)
      → IsBalanced m
      → IsBalanced (serve_connections f64 crates disk str json env s m connections).1
  unfolding serve_connections
  connections-IsBalanced [] env s m h = h
  connections-IsBalanced ((now, stream) ∷ rest) env s m h =
      connections-IsBalanced rest env _ _ (handle-IsBalanced env s m now stream h)

-- Whatever connects to the server and whatever it sends, after any number of connections the
-- failures are the sum of the reasons' counters, and as many requests were timed as were counted,
-- in 64 bits.
pub serve_connections-IsBalanced :
    (f64 : Float64) (crates : Crates f64) (disk : Disk f64) (str : Strings) (json : Json f64)
    (env : Environment) (s : Store f64) (connections : List (ℤ × Stream))
    → IsBalanced (serve_connections f64 crates disk str json env s no_metrics connections).1
unfolding no_metrics
serve_connections-IsBalanced f64 crates disk str json env s connections =
    connections-IsBalanced f64 crates disk str json connections env s no_metrics
      (record { reasons = refl; timed = refl })
