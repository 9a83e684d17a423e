-- ===== src/Idempotency/Recording.antt =====
-- What the recorder keeps against the response that the client receives.
use hwhkit_go.Prelude.{
  false, subst, sym, ℕ, ◌<◌, String, ◌≡◌, refl, ◌∙◌, none, some, List, [], ◌∷◌, arith, nat_eq,
  string_eq,
}
use hwhkit_go.Prelude.Dict.{Dict}
use hwhkit_go.Http.{Header, Call, set_header, add_header, write_header, write}
use hwhkit_go.Http.Response.{
  Response, blank_response, perform, perform_all, perform_all-append, status_of, is_informational,
  perform_all-final,
}
use hwhkit_go.Middleware.AccessLog.Statuses.{NoHeader, WellBehaved}
use hwhkit_go.Idempotency.{
  Recorder, CachedResponse, record_call, record_calls, new_recorder, cached_of, set_all, replay,
}

body_agrees :
    (rec : Recorder) (r : Response) (cs : List Call)
    → rec.buf ≡ r.body
    → (record_calls rec cs).buf ≡ (perform_all r cs).body
unfolding record_calls record_call perform_all perform
body_agrees rec r [] e = e
body_agrees rec r (set_header k v ∷ cs) e =
    body_agrees (record_call rec (set_header k v)) (perform r (set_header k v)) cs e
body_agrees rec r (add_header k v ∷ cs) e =
    body_agrees (record_call rec (add_header k v)) (perform r (add_header k v)) cs e
body_agrees rec r (write_header c ∷ cs) e =
    body_agrees (record_call rec (write_header c)) (perform r (write_header c)) cs (ground arith)
body_agrees rec r (write b ∷ cs) e =
    body_agrees (record_call rec (write b)) (perform r (write b)) cs (ground arith)

status_later :
    (rec : Recorder) (r : Response) (code : ℕ) (h : Header) (cs : List Call)
    → r.sent ≡ some (code, h)
    → rec.status ≡ code
    → 0 < code
    → NoHeader cs
    → (record_calls rec cs).status ≡ status_of (perform_all r cs)
unfolding record_calls record_call perform_all perform
status_later rec r code h [] s e p n = ground arith
status_later rec r code h (set_header k v ∷ cs) s e p n =
    status_later (record_call rec (set_header k v)) (perform r (set_header k v)) code h cs s e p n
status_later rec r code h (add_header k v ∷ cs) s e p n =
    status_later (record_call rec (add_header k v)) (perform r (add_header k v)) code h cs s e p n
status_later rec r code h (write_header c ∷ cs) s e p n = absurd n
status_later rec r code h (write b ∷ cs) s e p n =
    status_later (record_call rec (write b)) (perform r (write b)) code h cs (ground arith)
      (ground arith) p n

status_agrees :
    (rec : Recorder) (r : Response) (cs : List Call)
    → rec.status ≡ 0
    → r.sent ≡ none
    → WellBehaved cs
    → 0 < (record_calls rec cs).status
    → (record_calls rec cs).status ≡ status_of (perform_all r cs)
unfolding record_calls record_call perform_all perform
status_agrees rec r [] e s w p = absurd (ground arith)
status_agrees rec r (set_header k v ∷ cs) e s w p =
    status_agrees (record_call rec (set_header k v)) (perform r (set_header k v)) cs e s w p
status_agrees rec r (add_header k v ∷ cs) e s w p =
    status_agrees (record_call rec (add_header k v)) (perform r (add_header k v)) cs e s w p
status_agrees rec r (write_header c ∷ cs) e s w p =
    status_later (record_call rec (write_header c)) (perform r (write_header c)) c r.header cs
      (ground (arith, w.1)) refl w.0 w.2
status_agrees rec r (write b ∷ cs) e s w p =
    status_later (record_call rec (write b)) (perform r (write b)) 200 r.header cs (ground arith)
      (ground arith) (omega arith) w

set_all_quiet :
    (d : Dict String) (r : Response)
    → r.sent ≡ none
    → ((perform_all r (set_all d)).sent ≡ none) × ((perform_all r (set_all d)).body ≡ r.body)
unfolding set_all perform_all perform
set_all_quiet [] r e = (e, refl)
set_all_quiet ((k, v) ∷ d) r e = set_all_quiet d (perform r (set_header k v)) e

-- Replaying a cached response sends its status, if it is final, and its body.
replay_sends :
    (c : CachedResponse)
    → is_informational c.status ≡ false
    → (status_of (perform_all blank_response (replay c)) ≡ c.status)
      × ((perform_all blank_response (replay c)).body ≡ c.body)
unfolding replay perform_all perform
replay_sends c final =
    let (quiet, empty) = set_all_quiet c.headers blank_response refl in
    rw perform_all-append (ground (arith, final, quiet, empty))

-- A replay of what was recorded has the status and the body of the response that was recorded, for
-- a handler that sends at most one status, a final one at the start of the response, and sends
-- something.
pub replay_roundtrip :
    (live : Header) (cs : List Call)
    → WellBehaved cs
    → 0 < (record_calls (new_recorder live) cs).status
    → (status_of
          (perform_all blank_response (replay (cached_of (record_calls (new_recorder live) cs))))
        ≡ status_of (perform_all blank_response cs))
      × ((perform_all blank_response
            (replay (cached_of (record_calls (new_recorder live) cs)))).body
          ≡ (perform_all blank_response cs).body)
replay_roundtrip live cs w p =
    let agree = status_agrees (new_recorder live) blank_response cs refl refl w p in
    let final =
      subst (λ code. is_informational code ≡ false) (sym agree)
        (perform_all-final blank_response cs refl) in
    let (status, body) = replay_sends (cached_of (record_calls (new_recorder live) cs)) final in
    (status ∙ agree, body ∙ body_agrees (new_recorder live) blank_response cs refl)
