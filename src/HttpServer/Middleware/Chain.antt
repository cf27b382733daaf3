-- ===== src/HttpServer/Middleware/Chain.antt =====
-- Which requests reach the router through the chain of httpserver/http.go, and what the others get.
use goblocks.Prelude.Text.{Text, codes}
use goblocks.Prelude.Eq.{◌==◌, nat_eq, int_eq, string_eq}
use goblocks.Prelude.Int.{leb_ℤ}
use goblocks.Prelude.{
  ℕ, String, ◌≡◌, refl, inl, inr, Bool, false, not, ◌||◌, Option, none, some, ◌++◌, arith,
  if◌then◌else◌, Bool-cases,
}
use goblocks.HttpServer.Middleware.{
  Writer, Request, Reply, returned, panicked, Handler, set_header, write_header, write, http_error,
  reply, error_json, reply_error, authorized, panic_logger_middleware, Wrapping, safety_wrappers,
}

-- The status of a response, if one was sent.
abbrev pub status : Writer → Option ℕ
status w = elim w.sent [ none ↦ none | some r ↦ some r.0 ]

-- The verdict on a request: refused with a status, or let through.
pub data Verdict : Type 0 where
  refused : ℕ → Verdict
  let_through : Verdict

abbrev pub is_authorized : String → Request → Bool
is_authorized token r = token == "" || r.api_token == token

module _ {S : Type 0} (c : Wrapping S) (s : S) (r : Request) where
  -- The verdict, and the state after it: a request refused for the connections takes no token of the
  -- rate limiter, and the API token is compared only after one was taken.
  abbrev pub judged : S × Verdict
  judged =
      if leb_ℤ c.open_conn_limit (c.count s)
      then (s, refused 429)
      else if not (c.allow s).1
      then ((c.allow s).0, refused 429)
      else if not (is_authorized c.token r)
      then ((c.allow s).0, refused 401)
      else ((c.allow s).0, let_through)

-- What the chain answers by the verdict, with the router behind the panic logger and sentry.
abbrev pub Answers :
    {S : Type 0} → Wrapping S → Handler S → Request → Writer → S × Verdict → S × Reply → Type 0
Answers c router r w (s, refused code) (t, returned v) = (t ≡ s) × (status v ≡ some code)
Answers c router r w (s, refused code) (t, panicked e v) = ⊥
Answers c router r w (s, let_through) out =
    out ≡ c.sentry (panic_logger_middleware router c.log_panic) s r w

status-http_error :
    (w : Writer) (message : Text) (code : ℕ)
    → w.sent ≡ none
    → status (http_error w message code) ≡ some code
unfolding http_error
status-http_error w message code h = ground arith

-- Without CORS, a request whose response has not been started is refused with 429 if there are at
-- least as many open connections as the limit, else with 429 if the rate limiter refuses it, else
-- with 401 if a token is configured and the request has another; only then it reaches the router.
-- Only a request within the connection limit takes a token of the rate limiter.
pub safety_wrappers-Answers :
    {S : Type 0} (c : Wrapping S) (router : Handler S) (s : S) (r : Request) (w : Writer)
    → c.cors ≡ false
    → w.sent ≡ none
    → Answers c router r w (judged c s r) (safety_wrappers c router s r w)
unfolding safety_wrappers authorized
safety_wrappers-Answers c router s r w nocors fresh =
    elim (Bool-cases (leb_ℤ c.open_conn_limit (c.count s))) [
      | inl full ↦
          rw (nocors) (rw full (refl, status-http_error w (codes "Too Many Requests") 429 fresh))
      | inr free ↦ rw (nocors) (
          rw free (elim (Bool-cases (c.allow s).1) [
            | inl ok ↦ rw ok (elim (Bool-cases (c.token == "")) [
              | inl unguarded ↦ rw unguarded refl
              | inr closed ↦ rw closed (elim (Bool-cases (r.api_token == c.token)) [
                | inl same ↦ rw same refl
                | inr other ↦ rw other (refl, status-http_error w (codes "Unauthorized") 401 fresh)
              ])
            ])
            | inr limited ↦
                rw limited (refl, status-http_error w (codes "Too Many Requests") 429 fresh)
          ]))
    ]

pub reply_error_sent :
    (v : Writer) (err : Option Text)
    → v.sent ≡ none
    → (status (reply_error v err 500) ≡ some 500)
      × ((reply_error v err 500).body ≡ v.body ++ error_json err)
unfolding reply_error reply set_header write_header write
reply_error_sent v err fresh = ground arith

-- After a panic of the handler behind it, on a response that has not been started, the panic logger
-- returns: the panic is logged, and the response has the status 500 and the error as its body.
pub panic_logger_returns :
    {S : Type 0} (next : Handler S) (log_panic : S → S) (s t : S) (r : Request) (w v : Writer)
    (err : Option Text)
    → next s r w ≡ (t, panicked err v)
    → v.sent ≡ none
    → (u : Writer) × (panic_logger_middleware next log_panic s r w ≡ (log_panic t, returned u))
      × (status u ≡ some 500)
      × (u.body ≡ v.body ++ error_json err)
unfolding panic_logger_middleware reply_error
panic_logger_returns next log_panic s t r w v err h fresh = rw (h) (
  reply_error v err 500,
  refl,
  (reply_error_sent v err fresh).0,
  (reply_error_sent v err fresh).1,
)
