-- ===== src/Middleware/AccessLog/Statuses.antt =====
-- The status and the size that the statusWriter reports against those of the response.
use hwhkit_go.Prelude.{
  false, ℕ, ◌<◌, String, ◌≡◌, refl, ◌⊎◌, none, some, List, [], ◌∷◌, arith, ◌==◌, nat_eq, string_eq,
  if◌then◌else◌,
}
use hwhkit_go.Http.{Header, Handler, Request, Call, write_header, write, set_header, add_header}
use hwhkit_go.Http.Response.{
  is_informational, Response, blank_response, perform, perform_all, status_of,
}
use hwhkit_go.Middleware.AccessLog.{
  StatusWriter, observe, observe_all, fresh_writer, LogLine, access_log, RequestLabels,
  http_metrics,
}

-- The handler sends a status at most once, at the start of the response, which is not 0 and not
-- informational.
abbrev pub NoHeader : List Call → Type 0
NoHeader [] = Unit
NoHeader (write_header code ∷ cs) = ⊥
NoHeader (_ ∷ cs) = NoHeader cs

abbrev pub WellBehaved : List Call → Type 0
WellBehaved [] = Unit
WellBehaved (write_header code ∷ cs) = (0 < code) × (is_informational code ≡ false) × NoHeader cs
WellBehaved (write b ∷ cs) = NoHeader cs
WellBehaved (_ ∷ cs) = WellBehaved cs

-- The statusWriter and the response agree: nothing sent and status 0, or the same status.
abbrev Agree : StatusWriter → Response → Type 0
Agree w r = elim r.sent [ none ↦ w.status ≡ 0 | some (code, h) ↦ (w.status ≡ code) × (0 < code) ]

agree_later :
    (w : StatusWriter) (r : Response) (code : ℕ) (h : Header) (cs : List Call)
    → r.sent ≡ some (code, h)
    → w.status ≡ code
    → 0 < code
    → NoHeader cs
    → ((observe_all w cs).status ≡ code) × ((perform_all r cs).sent ≡ some (code, h))
unfolding observe_all observe perform_all perform
agree_later w r code h [] s e p n = (e, s)
agree_later w r code h (set_header k v ∷ cs) s e p n =
    agree_later w (perform r (set_header k v)) code h cs s e p n
agree_later w r code h (add_header k v ∷ cs) s e p n =
    agree_later w (perform r (add_header k v)) code h cs s e p n
agree_later w r code h (write_header c ∷ cs) s e p n = absurd n
agree_later w r code h (write b ∷ cs) s e p n =
    agree_later (observe w (write b)) (perform r (write b)) code h cs (ground arith) (ground arith)
      p n

reported :
    (w : StatusWriter) (r : Response) (cs : List Call)
    → w.status ≡ 0
    → r.sent ≡ none
    → WellBehaved cs
    → (if (observe_all w cs).status == 0 then 200 else (observe_all w cs).status)
      ≡ status_of (perform_all r cs)
unfolding observe_all observe perform_all perform
reported w r [] e s h = ground arith
reported w r (set_header k v ∷ cs) e s h = reported w (perform r (set_header k v)) cs e s h
reported w r (add_header k v ∷ cs) e s h = reported w (perform r (add_header k v)) cs e s h
reported w r (write_header c ∷ cs) e s h =
    let (a, b) =
      agree_later (observe w (write_header c)) (perform r (write_header c)) c r.header cs
        (ground (arith, h.1)) refl h.0 h.2 in
    ground arith
reported w r (write x ∷ cs) e s h =
    let (a, b) =
      agree_later (observe w (write x)) (perform r (write x)) 200 r.header cs (ground arith)
        (ground arith) (omega arith) h in
    ground arith

-- For a handler that does not panic and sends at most one status, at the start of the response, the
-- counter of HTTPMetrics has the status that the client sees, and the access log has that status
-- or 0.
http_metrics_status :
    {C : Type 0} (route_pattern : String) (next : Handler C) (r : Request C)
    (labels : RequestLabels) (line : LogLine)
    → WellBehaved (next r).calls
    → (http_metrics route_pattern next r).1 ≡ some labels
    → (access_log next r).1 ≡ some line
    → (labels.status ≡ status_of (perform_all blank_response (next r).calls))
      × ((line.status ≡ 0) ⊎ (line.status ≡ status_of (perform_all blank_response (next r).calls)))
unfolding http_metrics access_log
http_metrics_status route_pattern next r labels line w m l =
    let e = reported fresh_writer blank_response (next r).calls refl refl w in ground arith
