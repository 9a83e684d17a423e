-- ===== src/Http/Response.antt =====
-- The response that the server of net/http makes of the calls: the first WriteHeader sends the
-- status and the headers, a Write before it sends status 200, and a later WriteHeader is ignored. An
-- informational status (1xx but 101) is sent at once and decides nothing.
use hwhkit_go.Prelude.{
  false, Bool, leb, ltb, not, ◌&&◌, ◌==◌, if◌then◌else◌, ℕ, ◌≡◌, refl, Option, none, some, List, [],
  ◌∷◌, ◌++◌, arith, nat_eq, string_eq,
}
use hwhkit_go.Prelude.Text.{Bytes}
use hwhkit_go.Http.{
  Header, header_set, header_add, Call, set_header, add_header, write_header, write,
}

pub record Response : Type 0 where
  pub header : Header
  -- The status and the headers that were sent, once they are.
  pub sent : Option (ℕ × Header)
  pub body : Bytes

abbrev pub blank_response : Response
blank_response = record { header = []; sent = none; body = [] }

abbrev send : ℕ → Response → Response
send code r = elim r.sent [ none ↦ record r { sent = some (code, r.header) } | some s ↦ r ]

abbrev pub is_informational : ℕ → Bool
is_informational code = leb 100 code && ltb code 200 && not (code == 101)

unfoldable pub perform : Response → Call → Response
unfolding header_set header_add
perform r (set_header k v) = record r { header = header_set k v r.header }
perform r (add_header k v) = record r { header = header_add k v r.header }
perform r (write_header code) = if is_informational code then r else send code r
perform r (write b) = let r' = send 200 r in record r' { body = r'.body ++ b }

unfoldable pub perform_all : Response → List Call → Response
unfolding perform
perform_all r [] = r
perform_all r (c ∷ cs) = perform_all (perform r c) cs

-- The status that the client sees: 200 if the handler returned and sent nothing.
abbrev pub status_of : Response → ℕ
status_of r = elim r.sent [ none ↦ 200 | some (code, h) ↦ code ]

-- The headers that the client sees.
abbrev pub headers_of : Response → Header
headers_of r = elim r.sent [ none ↦ r.header | some (code, h) ↦ h ]

pub perform_all-append :
    (r : Response) (cs ds : List Call)
    → perform_all r (cs ++ ds) ≡ perform_all (perform_all r cs) ds
unfolding perform_all
perform_all-append r [] ds = refl
perform_all-append r (c ∷ cs) ds = perform_all-append (perform r c) cs ds

-- No response is sent with an informational status.
perform-final :
    (r : Response) (c : Call)
    → is_informational (status_of r) ≡ false
    → is_informational (status_of (perform r c)) ≡ false
unfolding perform
perform-final r (set_header k v) h = ground arith
perform-final r (add_header k v) h = ground arith
perform-final r (write_header code) h = ground arith
perform-final r (write b) h = ground arith

pub perform_all-final :
    (r : Response) (cs : List Call)
    → is_informational (status_of r) ≡ false
    → is_informational (status_of (perform_all r cs)) ≡ false
unfolding perform_all
perform_all-final r [] h = h
perform_all-final r (c ∷ cs) h = perform_all-final (perform r c) cs (perform-final r c h)

sent_once :
    (r : Response) (s : ℕ × Header) (c : Call) → r.sent ≡ some s → (perform r c).sent ≡ some s
unfolding perform
sent_once r s (set_header k v) h = h
sent_once r s (add_header k v) h = h
sent_once r s (write_header code) h = ground arith
sent_once r s (write b) h = ground arith

-- What was sent stays.
pub sent_stays :
    (r : Response) (s : ℕ × Header) (cs : List Call)
    → r.sent ≡ some s
    → (perform_all r cs).sent ≡ some s
unfolding perform_all
sent_stays r s [] h = h
sent_stays r s (c ∷ cs) h = sent_stays (perform r c) s cs (sent_once r s c h)
