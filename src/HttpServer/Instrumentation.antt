-- ===== src/HttpServer/Instrumentation.antt =====
-- httpserver/middleware.go, instrumentationMiddleware, and httpserver/metrics.go: what surrounds the
-- handler of a service. `S` is the state that a handler can change, with the clock in it; `D` is the
-- session data. A log holds the messages of one request, as Flush hands them on.
pub mod Scores
pub mod Flushed
mod Tests
use goblocks.Prelude.Text.{Text}
use goblocks.Prelude.Eq.{◌==◌, nat_eq, int_eq, string_eq}
use goblocks.Prelude.Map
use goblocks.Prelude.Map.{Map, get}
use goblocks.Prelude.{
  ℕ, suc, ◌-◌, String, ◌⊎◌, inl, inr, Bool, ◌&&◌, Option, none, some, List, [], ◌∷◌, ◌++◌, nat_beq,
  if◌then◌else◌,
}
use goblocks.HttpServer.Middleware.{
  Writer, Request, Reply, returned, panicked, Handler, reply_error,
}

-- the address that the header or the connection gives
unfoldable pub remote : Request → Text
remote r = elim (get r.header "X-Forwarded-For") [
  | some (x, more) ↦ x
  | none ↦ elim (get r.header "X-Real-Ip") [
    | some (x, more) ↦ x
    | none ↦ elim (get r.header "X-Real-IP") [ some (x, more) ↦ x | none ↦ r.remote_addr ]
  ]
]

-- strings.Split(s, ":")[0], where 58 is the colon
unfoldable pub before_colon : Text → Text
before_colon [] = []
before_colon (c ∷ s) = let rest = before_colon s in if nat_beq c 58 then [] else c ∷ rest

pub data Entry : Type 0 where
  session_failed : Text → Entry
  missing_cookie start : Entry
  finish : ℕ → Entry
  runtime : Text → Text → Entry

-- a context logger with its fields
pub record ContextLog : Type 0 where
  pub method : String
  pub uri : Text
  pub remote : Text
  pub rid : Text
  pub entries : List Entry

-- serviceMetrics, by the labels service and endpoint
pub record ServiceMetrics : Type 0 where
  pub errors_counter : String → String → ℕ
  pub latency : String → String → List ℕ

abbrev pub labelled : String → String → String → String → Bool
labelled service endpoint s e = (service == s) && (endpoint == e)

-- ScoreMethod
pub score_method : ServiceMetrics → String → String → ℕ → Option Text → ServiceMetrics
score_method m service endpoint took err = record {
  errors_counter = λ s e. elim err [
    | none ↦ m.errors_counter s e
    | some x ↦
        if labelled service endpoint s e then suc (m.errors_counter s e) else m.errors_counter s e
  ];
  latency =
      λ s e. if labelled service endpoint s e then m.latency s e ++ took ∷ [] else m.latency s e;
}

-- What the handler sees of the request's context.
pub record Context (D : Type 0) : Type 0 where
  pub remote_addr : Text
  pub request_id : Text
  pub session_data : Option D

-- How a handler ends: with a status and an error, or in a panic, with the text of its error.
pub data Ended : Type 0 where
  finished : Writer → ℕ → Option Text → Ended
  crashed : Option Text → Writer → Ended

pub record World (S : Type 0) : Type 0 where
  pub state : S
  pub metrics : ServiceMetrics
  pub logs : List ContextLog

abbrev pub HandlerWithResult : Type 0 → Type 0 → Type 0
HandlerWithResult S D = S → Request → Context D → Writer → S × Ended

-- The session data of the cookie SID, with what is logged. `none` is a nil getter.
unfoldable pub query_session :
    {D : Type 0} → Option (Text → (Text ⊎ D)) → Option Text → List Entry × Option D
query_session none cookie = ([], none)
query_session (some getter) none = (missing_cookie ∷ [], none)
query_session (some getter) (some value) = elim (getter value) [
  | inl err ↦ (session_failed err ∷ [], none)
  | inr found ↦ ([], some found)
]

-- The handler's end, then the deferred calls of ScoreMethod and Flush; ScoreMethod is deferred only
-- once the handler has returned.
abbrev pub conclude :
    {S : Type 0} → World S → String → String → ContextLog → ℕ → S × Ended → World S × Reply
conclude world service endpoint logger took (s, crashed err w) =
    (record world { state = s; logs = world.logs ++ logger ∷ [] }, panicked err w)
conclude world service endpoint logger took (s, finished w code err) =
    let finished_log = logger.entries ++ finish took ∷ [] in
    (
      record {
        state = s;
        metrics = score_method world.metrics service endpoint took err;
        logs =
            world.logs
            ++ (record logger {
              entries = finished_log ++ elim err [ none ↦ [] | some e ↦ runtime logger.rid e ∷ [] ];
            })
              ∷ [];
      },
      returned (elim err [ none ↦ w | some e ↦ reply_error w (some e) code ]),
    )

-- the context of the handler
pub handler_context : {D : Type 0} → Option (Text → (Text ⊎ D)) → Text → Request → Context D
unfolding remote before_colon query_session
handler_context session_getter req_id r = record {
  remote_addr = before_colon (remote r);
  request_id = req_id;
  session_data = (query_session session_getter r.sid_cookie).1;
}

-- instrumentationMiddleware; `now` is time.Now, `req_id` the new UUID
unfoldable pub instrumentation_middleware :
    {S D : Type 0}
    → HandlerWithResult S D
    → (S → ℕ)
    → String
    → String
    → Option (Text → (Text ⊎ D))
    → Text
    → Handler (World S)
unfolding remote before_colon query_session score_method
instrumentation_middleware handler now service endpoint session_getter req_id world r w =
    let logger : ContextLog = record {
      method = r.method;
      uri = r.request_uri;
      remote = before_colon (remote r);
      rid = req_id;
      entries = (query_session session_getter r.sid_cookie).0 ++ start ∷ [];
    } in
    let ended = handler world.state r (handler_context session_getter req_id r) w in
    conclude world service endpoint logger (now ended.0 - now world.state) ended
