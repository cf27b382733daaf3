-- ===== src/Factorial/Handler.antt =====
-- What the handler of examples/factorial/factorial.go answers, by itself and behind the server.
use goblocks.Prelude.Text.{Text, codes}
use goblocks.Prelude.{
  ℕ, ◌≡◌, refl, ap, ◌∙◌, inl, inr, true, false, ◌&&◌, Option, none, some, ltb, if◌then◌else◌,
  Bool-cases,
}
use mathlib.Core.Path.{subst}
use goblocks.HttpServer.Middleware.{Writer, Request, Reply, returned, Handler, Wrapping}
use goblocks.HttpServer.Middleware.Chain.{let_through, judged}
use goblocks.HttpServer.Instrumentation.{Context, World, Ended, finished, handler_context, labelled}
use goblocks.HttpServer.Instrumentation.Scores.{Scored}
use goblocks.HttpServer.Serving.{Registered, serve_http}
use goblocks.HttpServer.Serving.Once.{PassesOn, Handled, Served, serve_http-Served}
use goblocks.Factorial.{
  ServiceConfig, number, atoi, decimal, bit_len, json_number, object, invalid_number,
  factorial_reply, factorial_handler,
}
use goblocks.Factorial.Loop.{fact, factorial-fact, HasBits, bit_len-HasBits}
use goblocks.Factorial.Digits.{atoi-decimal}

-- the body of the reply to the number n
abbrev pub answer : ServiceConfig → ℕ → Text
answer cfg n =
    if cfg.count_bits
    then json_number (codes "bits") (bit_len (fact n))
    else json_number (codes "factorial") (fact n)

-- how the handler ends on the decimal digits of n
abbrev pub answered : ServiceConfig → ℕ → Writer → Ended
answered cfg n w =
    if ltb n 9_223_372_036_854_775_808
    then finished (object w (answer cfg n)) 200 none
    else finished w 400 (some (invalid_number (decimal n) (codes "value out of range")))

number_answered :
    (cfg : ServiceConfig) (n : ℕ) (s : Text) (w : Writer)
    → factorial_reply cfg s w (number n) ≡ finished (object w (answer cfg n)) 200 none
unfolding factorial_reply
number_answered cfg n s w =
    rw (factorial-fact n)
      (elim (Bool-cases cfg.count_bits) [ inl b ↦ rw b refl | inr b ↦ rw b refl ])

reply_answered :
    (cfg : ServiceConfig) (n : ℕ) (w : Writer)
    → factorial_reply cfg (decimal n) w (atoi (decimal n)) ≡ answered cfg n w
unfolding factorial_reply
reply_answered cfg n w = rw (atoi-decimal n) (elim (Bool-cases (ltb n 9_223_372_036_854_775_808)) [
  | inl b ↦ rw b (number_answered cfg n (decimal n) w)
  | inr b ↦ rw b refl
])

-- If the path has the decimal digits of n, the handler replies with n! or, if the configuration asks for
-- it, with the number of bits of n!, in decimal digits; from 2^63 on it ends with the status 400 and
-- an error. The state does not change.
pub factorial_handler-answered :
    {S D : Type 0} (cfg : ServiceConfig) (vars : Request → Text) (s : S) (r : Request)
    (ctx : Context D) (w : Writer) (n : ℕ)
    → vars r ≡ decimal n
    → (factorial_handler cfg vars s r ctx w ≡ (s, answered cfg n w))
      × HasBits (fact n) (bit_len (fact n))
unfolding factorial_handler
factorial_handler-answered cfg vars s r ctx w n q =
    (rw (q) (ap (λ e. (s, e)) (reply_answered cfg n w)), bit_len-HasBits (fact n))

-- the service as HandleFunc registers it, without a session getter
abbrev pub registered : {S D : Type 0} → ServiceConfig → (Request → Text) → Registered S D
registered cfg vars = record {
  handler = factorial_handler cfg vars;
  service = "factorial";
  endpoint = "factorial";
  session_getter = none;
}

-- The response to n, the state, and what is counted for the endpoint.
abbrev pub Answered : {S : Type 0} → ServiceConfig → World S → Writer → ℕ → World S × Reply → Type 0
Answered cfg t w n out =
    (out.1 ≡ returned (object w (answer cfg n)))
    × (out.0.state ≡ t.state)
    × Scored t out.0 "factorial" "factorial" true false

small_answered :
    (cfg : ServiceConfig) (n : ℕ) (w : Writer)
    → ltb n 9_223_372_036_854_775_808 ≡ true
    → answered cfg n w ≡ finished (object w (answer cfg n)) 200 none
small_answered cfg n w small = rw (small) refl

Handled-Answered :
    {S D : Type 0} (c : Wrapping (World S)) (e : Registered S D) (cfg : ServiceConfig) (t : World S)
    (w : Writer) (n : ℕ) (ended : S × Ended) (out : World S × Reply)
    → e.service ≡ "factorial"
    → e.endpoint ≡ "factorial"
    → ended ≡ (t.state, finished (object w (answer cfg n)) 200 none)
    → Handled c e "factorial" "factorial" t ended out
    → Answered cfg t w n out
Handled-Answered c e cfg t w n ended out qs qe q h =
    let handled = subst (λ x. Handled c e "factorial" "factorial" t x out) q h in
    let own : labelled e.service e.endpoint "factorial" "factorial" ≡ true = rw (qs, qe) refl in
    (
      handled.2,
      handled.0,
      subst (λ b. Scored t out.0 "factorial" "factorial" (b && true) (b && false)) own handled.1,
    )

module _ {S D : Type 0} (c : Wrapping (World S)) (cfg : ServiceConfig) (vars : Request → Text)
    (t : World S) (r : Request) (w : Writer) (n : ℕ) where
  -- Behind the server without CORS, with a sentry handler that passes on what a handler that returns
  -- has done: a request for the decimal digits of n < 2^63 that the middlewares let through, with a
  -- response that has not been started, is answered with n!, or the number of its bits; the state is
  -- the one that the middlewares left, and the request counts for the endpoint, without an error.
  pub serve_http-factorial :
      (now : S → ℕ) (find : Request → Option (Registered S D)) (not_found : Handler (World S))
      (s : World S) (req_id : Text)
      → c.cors ≡ false
      → PassesOn c.sentry
      → w.sent ≡ none
      → find r ≡ some (registered cfg vars)
      → vars r ≡ decimal n
      → ltb n 9_223_372_036_854_775_808 ≡ true
      → judged c s r ≡ (t, let_through)
      → Answered cfg t w n (serve_http now req_id c find not_found s r w)
  serve_http-factorial now find not_found s req_id nocors passes fresh found digits small through =
      let out = serve_http now req_id c find not_found s r w in
      let e : Registered S D = registered cfg vars in
      let served : Served c e "factorial" "factorial" r req_id w (judged c s r) out =
        serve_http-Served c e now find not_found "factorial" "factorial" s r req_id w nocors passes
          fresh found in
      let handled =
        subst (λ v. Served c e "factorial" "factorial" r req_id w v out) through served in
      Handled-Answered c e cfg t w n (e.handler t.state r (handler_context none req_id r) w) out
        refl refl
        ((factorial_handler-answered cfg vars t.state r (handler_context {D = D} none req_id r) w n
            digits).0
          ∙ ap (λ x. (t.state, x)) (small_answered cfg n w small))
        handled
