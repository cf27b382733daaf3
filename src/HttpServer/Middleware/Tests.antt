-- ===== src/HttpServer/Middleware/Tests.antt =====
-- The theorems on httpserver/middleware.go at concrete inputs.
use goblocks.Prelude.Text.{codes}
use goblocks.Prelude.Int.{pos}
use goblocks.Prelude.{ℕ, suc, ◌≡◌, refl, true, false, none, some, [], ◌++◌}
use goblocks.HttpServer.Middleware.{
  Writer, Request, returned, panicked, Handler, Wrapping, panic_logger_middleware, safety_wrappers,
  error_json,
}
use goblocks.HttpServer.Middleware.Chain.{
  Answers, judged, safety_wrappers-Answers, panic_logger_returns, status,
}

-- A router that panics with an error, and a state that counts the tokens taken and the panics logged.
abbrev router : Handler (ℕ × ℕ)
router s r w = (s, panicked (some (codes "boom")) w)

abbrev wrapping : Wrapping (ℕ × ℕ)
wrapping = record {
  cors = false;
  domain = "example.org";
  token = "secret";
  open_conn_limit = pos 10;
  count = λ s. pos 3;
  allow = λ s. ((suc s.0, s.1), true);
  log_panic = λ s. (s.0, suc s.1);
  sentry = λ handler. handler;
}

abbrev intruder : Request
intruder = record {
  method = "GET";
  request_uri = codes "/";
  remote_addr = codes "10.0.0.1:80";
  header = [];
  api_token = "guess";
  sid_cookie = none;
}

abbrev fresh : Writer
fresh = record { header = []; sent = none; body = [] }

safety_wrappers-Answers_example :
    Answers wrapping router intruder fresh
      (judged wrapping (0, 0) intruder)
      (safety_wrappers wrapping router (0, 0) intruder fresh)
safety_wrappers-Answers_example =
    safety_wrappers-Answers wrapping router (0, 0) intruder fresh refl refl

panic_logger_returns_tried :
    (u : Writer) × (panic_logger_middleware router (λ s. (s.0, suc s.1)) (4, 0) intruder fresh
      ≡ ((4, 1), returned u))
    × (status u ≡ some 500)
    × (u.body ≡ fresh.body ++ error_json (some (codes "boom")))
panic_logger_returns_tried =
    panic_logger_returns router (λ s. (s.0, suc s.1)) (4, 0) (4, 0) intruder fresh fresh
      (some (codes "boom")) refl refl
