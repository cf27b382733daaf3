-- ===== src/HttpServer/Instrumentation/Flushed/Tests.antt =====
-- The log of a request whose handler fails, and whose cookie is missing.
use goblocks.Prelude.Text.{Text, codes}
use goblocks.Prelude.{
  ℕ, ◌+◌, String, ◌≡◌, refl, true, arith, ◌⊎◌, inr, Option, none, some, [], ◌∷◌, ◌++◌,
}
use goblocks.Prelude.Int.{pos}
use goblocks.Logger
use goblocks.HttpServer.Middleware.{Writer, Request}
use goblocks.HttpServer.Instrumentation.{
  ContextLog, World, HandlerWithResult, finished, instrumentation_middleware, query_session,
}
use goblocks.HttpServer.Instrumentation.Flushed.{handed}
use goblocks.HttpServer.Instrumentation.Flushed.Summary.{summary, request-summary}

abbrev fresh : Writer
fresh = record { header = []; sent = none; body = [] }

abbrev request : Request
request = record {
  method = "GET";
  request_uri = codes "/";
  remote_addr = codes "10.0.0.1:80";
  header = [];
  api_token = "";
  sid_cookie = none;
}

abbrev handler : HandlerWithResult ℕ ℕ
handler s r ctx w = (s + 5, finished w 404 (some (codes "none")))

abbrev getter : Option (Text → (Text ⊎ ℕ))
getter = some (λ sid. inr 1)

abbrev world : World ℕ
world = record {
  state = 0;
  metrics = record { errors_counter = λ s e. 0; latency = λ s e. [] };
  logs = [];
}

abbrev spelt : Text → String
spelt t = "?"

-- a parent that holds back a message at the level Info
abbrev shared : Logger.Logger
shared = record { oneline = true; level = pos 0; message = "up"; fields = []; context = [] }

request-summary_example :
    let out =
      instrumentation_middleware handler
        (λ s. s)
        "app"
        "list"
        getter
        (codes "1")
        world
        request
        fresh in
    (l : ContextLog) × (out.0.logs ≡ [] ++ l ∷ [])
    × (handed spelt shared l
        ≡ summary spelt
            (query_session getter none).0
            (codes "1")
            5
            (finished fresh 404 (some (codes "none")))
          ∷ [])
request-summary_example =
    request-summary spelt handler (λ s. s) "app" "list" getter (codes "1") world request fresh
      shared refl (omega arith)
