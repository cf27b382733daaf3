-- ===== src/Factorial/Tests.antt =====
-- The factorial service at concrete numbers, by itself and behind the server.
use goblocks.Prelude.Text.{codes}
use goblocks.Prelude.Int.{pos}
use goblocks.Prelude.{ℕ, ◌≡◌, refl, true, false, Option, none, some, []}
use goblocks.HttpServer.Middleware.{Writer, Request, returned, Handler, Wrapping}
use goblocks.HttpServer.Instrumentation.{World, handler_context}
use goblocks.HttpServer.Serving.{Registered, serve_http}
use goblocks.Factorial.{
  ServiceConfig, factorial, decimal, bit_len, factorial_handler, json_number, multiply, halvings,
  digits,
}
use goblocks.Factorial.Loop.{fact, HasBits}
use goblocks.Factorial.Handler.{
  answered, factorial_handler-answered, registered, Answered, serve_http-factorial,
}

abbrev config : ServiceConfig
config = record { api_root = codes "/api"; count_bits = false }

abbrev request : Request
request = record {
  method = "GET";
  request_uri = codes "/api/factorial/5";
  remote_addr = codes "10.0.0.1:80";
  header = [];
  api_token = "";
  sid_cookie = none;
}

abbrev fresh : Writer
fresh = record { header = []; sent = none; body = [] }

five : decimal 5 ≡ codes "5"
unfolding decimal digits
five = refl

bits_of_120 : bit_len 120 ≡ 7
unfolding bit_len halvings
bits_of_120 = refl

body_of_5 : json_number (codes "factorial") (factorial (pos 5)) ≡ codes "{\"factorial\":120}"
unfolding json_number decimal digits factorial multiply
body_of_5 = refl

factorial_handler-answered_example :
    (factorial_handler {S = ℕ} {D = ℕ} config
        (λ r. decimal 5)
        0
        request
        (handler_context none (codes "1") request)
        fresh
      ≡ (0, answered config 5 fresh))
    × HasBits (fact 5) (bit_len (fact 5))
factorial_handler-answered_example =
    factorial_handler-answered config (λ r. decimal 5) 0 request
      (handler_context none (codes "1") request) fresh 5 refl

-- nothing refuses a request
abbrev wrapping : Wrapping (World ℕ)
wrapping = record {
  cors = false;
  domain = "";
  token = "";
  open_conn_limit = pos 10;
  count = λ s. pos 0;
  allow = λ s. (s, true);
  log_panic = λ s. s;
  sentry = λ handler. handler;
}

abbrev world : World ℕ
world = record {
  state = 0;
  metrics = record { errors_counter = λ s e. 0; latency = λ s e. [] };
  logs = [];
}

abbrev find : Request → Option (Registered ℕ ℕ)
find r = some (registered config (λ r. decimal 5))

abbrev not_found : Handler (World ℕ)
not_found s r w = (s, returned w)

serve_http-factorial_example :
    Answered config world fresh 5
      (serve_http (λ s. s) (codes "1") wrapping find not_found world request fresh)
serve_http-factorial_example =
    serve_http-factorial wrapping config (λ r. decimal 5) world request fresh 5 (λ s. s) find
      not_found world (codes "1") refl (λ next s t r w v q. q) refl refl refl refl refl
