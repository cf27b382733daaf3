-- ===== src/HttpServer/Serving/Tests.antt =====
-- The server tried out: a handler that panics, behind the whole chain.
use goblocks.Prelude.Text.{codes}
use goblocks.Prelude.Int.{pos}
use goblocks.Prelude.{ℕ, suc, refl, true, false, Option, none, some, []}
use goblocks.HttpServer.Middleware.{Writer, Request, returned, Handler, Wrapping}
use goblocks.HttpServer.Middleware.Chain.{judged}
use goblocks.HttpServer.Instrumentation.{World, crashed, HandlerWithResult}
use goblocks.HttpServer.Serving.{Registered, serve_http}
use goblocks.HttpServer.Serving.Once.{Served, serve_http-Served}

-- the state counts the calls, then the panics logged, then the tokens taken
abbrev Counts : Type 0
Counts = ℕ × ℕ × ℕ

abbrev wrapping : Wrapping (World Counts)
wrapping = record {
  cors = false;
  domain = "";
  token = "secret";
  open_conn_limit = pos 10;
  count = λ s. pos 3;
  allow = λ s. (record s { state = (s.state.0, s.state.1, suc s.state.2) }, true);
  log_panic = λ s. record s { state = (s.state.0, suc s.state.1, s.state.2) };
  sentry = λ handler. handler;
}

abbrev handler : HandlerWithResult Counts ℕ
handler (calls, panics, tokens) r ctx w =
    ((suc calls, panics, tokens), crashed (some (codes "boom")) w)

abbrev registered : Registered Counts ℕ
registered = record { handler = handler; service = "app"; endpoint = "list"; session_getter = none }

abbrev find : Request → Option (Registered Counts ℕ)
find r = some registered

abbrev request : Request
request = record {
  method = "GET";
  request_uri = codes "/";
  remote_addr = codes "10.0.0.1:80";
  header = [];
  api_token = "secret";
  sid_cookie = none;
}

abbrev fresh : Writer
fresh = record { header = []; sent = none; body = [] }

abbrev world : World Counts
world = record {
  state = (0, 0, 0);
  metrics = record { errors_counter = λ s e. 0; latency = λ s e. [] };
  logs = [];
}

abbrev not_found : Handler (World Counts)
not_found s r w = (s, returned w)

serve_http-Served_example :
    Served wrapping registered "app" "list" request
      (codes "1")
      fresh
      (judged wrapping world request)
      (serve_http (λ s. 0) (codes "1") wrapping find not_found world request fresh)
serve_http-Served_example =
    serve_http-Served wrapping registered (λ s. 0) find not_found "app" "list" world request
      (codes "1") fresh refl (λ next s t r w v q. q) refl refl
