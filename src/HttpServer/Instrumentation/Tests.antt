-- ===== src/HttpServer/Instrumentation/Tests.antt =====
-- The instrumentation tried out on three requests of one endpoint.
use goblocks.Prelude.Text.{codes}
use goblocks.Prelude.{ℕ, zero, suc, ◌≡◌, refl, none, some, [], ◌∷◌}
use goblocks.HttpServer.Middleware.{Writer, Request}
use goblocks.HttpServer.Instrumentation.{finished, crashed, World, HandlerWithResult, before_colon}
use goblocks.HttpServer.Instrumentation.Scores.{Call, Counted, serve_all-Counted}

abbrev writer : Writer
writer = record { header = []; sent = none; body = [] }

abbrev request : Request
request = record {
  method = "GET";
  request_uri = codes "/";
  remote_addr = codes "10.0.0.1:80";
  header = [];
  api_token = "";
  sid_cookie = some (codes "x");
}

-- The state counts the calls; the second fails, the third panics.
abbrev handler : HandlerWithResult ℕ ℕ
handler zero r ctx w = (1, finished w 200 none)
handler (suc zero) r ctx w = (2, finished w 404 (some (codes "none")))
handler n r ctx w = (suc n, crashed none w)

abbrev call : Call ℕ ℕ
call = record {
  handler = handler;
  service = "app";
  endpoint = "list";
  session_getter = none;
  req_id = codes "1";
  request = request;
  writer = writer;
}

abbrev world : World ℕ
world = record {
  state = 0;
  metrics = record { errors_counter = λ s e. 0; latency = λ s e. [] };
  logs = [];
}

serve_all-Counted_example : Counted (λ n. n) world 0 (call ∷ call ∷ call ∷ []) "app" "list"
serve_all-Counted_example = serve_all-Counted (λ n. n) world (call ∷ call ∷ call ∷ []) "app" "list"

port_is_cut : before_colon (codes "10.0.0.1:80") ≡ codes "10.0.0.1"
unfolding before_colon
port_is_cut = refl

-- An IPv6 address is cut at its first colon.
ipv6_is_cut : before_colon (codes "[::1]:80") ≡ codes "["
unfolding before_colon
ipv6_is_cut = refl
