-- ===== src/Www/Tests.antt =====
-- Downloads tried out: the first two requests time out, the third is answered.
use goblocks.Prelude.Text.{codes}
use goblocks.Prelude.{
  ℕ, zero, suc, ◌+◌, ◌≡◌, refl, inr, true, false, none, [], arith, ltb, if◌then◌else◌,
}
use goblocks.File.Example.{os}
use goblocks.Www.{Response, timed_out, responds, Network, World, fetch}
use goblocks.Www.Delayed.{Retry, retry_loop, retry_policy}
use goblocks.Www.Saved.{Stored, fetch-Saved}
use goblocks.Www.Delayed.Retries.{answers, called_after, retry_loop-called}

abbrev response : Response
response = record {
  status_code = 200;
  content_type = "text/html";
  content_encoding = "";
  body = codes "hello";
  body_error = none;
  request_url = none;
}

abbrev net : Network
net = record {
  answer = λ n url. if ltb n 2 then timed_out else responds response;
  gunzip = λ text e. inr (text, e);
}

abbrev world : World
world = record { fs = []; requests = 0; names = 0 }

abbrev retry : Retry
retry = record { url = "u"; root = "r"; path = "p"; fname = "f"; delays = retry_policy }

-- a body in gzip
abbrev zipped : Network
zipped = record {
  answer = λ n url. responds (record response { content_encoding = "gzip" });
  gunzip = λ text e. inr (codes "hello hello", e);
}

fetch-Saved_example : Stored os zipped [] "p" "f" true response (codes "hello hello") none (
  (fetch os zipped world "u" "r" "p" "f" true []).0.fs,
  (fetch os zipped world "u" "r" "p" "f" true []).1,
)
fetch-Saved_example = fetch-Saved os zipped world "u" "r" "p" "f" true [] refl

two_time_out : (j : ℕ) → ltb j 2 ≡ true → answers (net.answer (0 + j) "u") ≡ false
two_time_out zero h = refl
two_time_out (suc zero) h = refl
two_time_out (suc (suc j)) h = ground (arith, h)

retry_loop-called_example :
    retry_loop os net world retry retry_policy 0 ≡ called_after os net world retry retry_policy 0 2
retry_loop-called_example =
    retry_loop-called os net world retry retry_policy 0 2 refl two_time_out refl
