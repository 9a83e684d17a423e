-- ===== src/Middleware/AccessLog.antt =====
-- hwhkit/middleware/accesslog.go and metrics.go: the statusWriter that both put before the writer,
-- the line that is logged and the labels of the request counter.
pub mod Statuses
use hwhkit_go.Prelude.{
  ℕ, zero, suc, ◌+◌, ◌-◌, ◌*◌, ◌/◌, ◌%◌, ◌^◌, ◌≤◌, ◌<◌, String, ◌≡◌, refl, sym, ap, ◌∙◌, subst, ◌≢◌,
  ◌↔◌, ◌⊎◌, inl, inr, Bool, true, false, not, ◌&&◌, ◌||◌, Option, none, some, List, [], ◌∷◌, ◌++◌,
  map, append-nil, append_assoc, arith, eq_iff, ltb, leb, Eq, ◌==◌, nat_eq, string_eq,
  if◌then◌else◌, ltb→lt, lt→ltb, leb→le, tests, Bool-cases, Option-cases, is_some, or_else, length,
  get_elem?, set, any, all, length-append, length-map, All, All-append,
}
use hwhkit_go.Prelude.Text.{Bytes}
use hwhkit_go.Http.{
  Handler, Middleware, Request, Run, Call, write_header, write, set_header, add_header,
}
use hwhkit_go.Middleware.RequestId.{request_id_from_context}

pub record StatusWriter : Type 0 where
  pub status : ℕ
  pub bytes : ℕ

-- A call on the statusWriter; it passes the call on as it is, and the underlying Write takes every
-- byte.
unfoldable pub observe : StatusWriter → Call → StatusWriter
observe w (write_header code) = record w { status = code }
observe w (write b) = record w {
  status = if w.status == 0 then 200 else w.status;
  bytes = w.bytes + length b;
}
observe w (_) = w

unfoldable pub observe_all : StatusWriter → List Call → StatusWriter
unfolding observe
observe_all w [] = w
observe_all w (c ∷ cs) = observe_all (observe w c) cs

abbrev pub fresh_writer : StatusWriter
fresh_writer = record { status = 0; bytes = 0 }

pub record LogLine : Type 0 where
  pub method : String
  pub path : String
  pub status : ℕ
  pub bytes : ℕ
  pub remote : String
  pub request_id : String

-- AccessLog: what the handler does, and the line, which a panic skips. The duration is left out.
unfoldable pub access_log : {C : Type 0} → Handler C → Request C → Run × Option LogLine
unfolding observe_all request_id_from_context
access_log next r =
    let run = next r in
    let sw = observe_all fresh_writer run.calls in
    (
      run,
      if run.panicked
          then none
          else some (record {
            method = r.method;
            path = r.path;
            status = sw.status;
            bytes = sw.bytes;
            remote = r.remote_addr;
            request_id = request_id_from_context r.context;
          }),
    )

pub record RequestLabels : Type 0 where
  pub method : String
  pub route : String
  pub status : ℕ

-- HTTPMetrics: the labels of the counter; `route_pattern` is chi's pattern of the route, "" if there
-- is none. The duration is left out.
unfoldable pub http_metrics :
    {C : Type 0} → String → Handler C → Request C → Run × Option RequestLabels
unfolding observe_all
http_metrics route_pattern next r =
    let run = next r in
    let sw = observe_all fresh_writer run.calls in
    (
      run,
      if run.panicked
          then none
          else some (record {
            method = r.method;
            route = if route_pattern == "" then r.path else route_pattern;
            status = if sw.status == 0 then 200 else sw.status;
          }),
    )
