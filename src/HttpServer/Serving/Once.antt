-- ===== src/HttpServer/Serving/Once.antt =====
-- What a request to the server does, from the chain of middlewares to the handler of the service.
use goblocks.Prelude.Text.{Text}
use goblocks.Prelude.{ℕ, String, ◌≡◌, refl, sym, ◌∙◌, Bool, true, false, ◌&&◌, Option, none, some}
use mathlib.Core.Path.{subst}
use goblocks.HttpServer.Middleware.{
  Writer, Request, Reply, returned, panicked, Handler, reply_error, panic_logger_middleware,
  recovered, Wrapping,
}
use goblocks.HttpServer.Middleware.Chain.{
  status, Verdict, refused, let_through, judged, Answers, safety_wrappers-Answers,
}
use goblocks.HttpServer.Instrumentation.{
  ContextLog, World, Ended, finished, crashed, labelled, conclude, handler_context,
  instrumentation_middleware,
}
use goblocks.HttpServer.Instrumentation.Scores.{Scored, conclude-Scored}
use goblocks.HttpServer.Serving.{Registered, instrumented, router, serve_http}

-- The sentry handler passes on what a handler that returns has done.
abbrev pub PassesOn : {S : Type 0} → (Handler S → Handler S) → Type 0
PassesOn {S} sentry =
    (next : Handler S) (s t : S) (r : Request) (w v : Writer)
    → next s r w ≡ (t, returned v)
    → sentry next s r w ≡ (t, returned v)

-- the response to a handler that has returned
abbrev pub response : Writer → ℕ → Option Text → Writer
response v code err = elim err [ none ↦ v | some e ↦ reply_error v (some e) code ]

abbrev pub is_error : Option Text → Bool
is_error none = false
is_error (some e) = true

returns_after_recovery :
    {S : Type 0} (log_panic : S → S) (out : S × Reply)
    → (p : S × Writer) × (recovered log_panic out ≡ (p.0, returned p.1))
unfolding recovered
returns_after_recovery log_panic (s, returned v) = ((s, v), refl)
returns_after_recovery log_panic (s, panicked err v) = ((log_panic s, reply_error v err 500), refl)

sentry_sees_no_panic :
    {S : Type 0} (sentry : Handler S → Handler S) (next : Handler S) (log_panic : S → S) (s : S)
    (r : Request) (w : Writer)
    → PassesOn sentry
    → sentry (panic_logger_middleware next log_panic) s r w
      ≡ panic_logger_middleware next log_panic s r w
unfolding panic_logger_middleware
sentry_sees_no_panic sentry next log_panic s r w passes =
    let p = returns_after_recovery log_panic (next s r w) in
    passes (panic_logger_middleware next log_panic) s p.0.0 r w p.0.1 p.1 ∙ sym p.1

module _ {S D : Type 0} (c : Wrapping (World S)) (e : Registered S D) where
  -- What the server leaves and answers after the handler has ended so, from the state `s`; the metrics
  -- are those under the labels `service` and `endpoint`.
  abbrev pub Handled : String → String → World S → S × Ended → World S × Reply → Type 0
  Handled service endpoint s (u, finished v code err) (end, reply) =
      let own = labelled e.service e.endpoint service endpoint in
      (end.state ≡ u)
      × Scored s end service endpoint (own && true) (own && is_error err)
      × (reply ≡ returned (response v code err))
  Handled service endpoint s (u, crashed err v) (end, reply) =
      let own = labelled e.service e.endpoint service endpoint in
      (m : World S) × (end ≡ c.log_panic m)
      × (m.state ≡ u)
      × Scored s m service endpoint (own && false) (own && false)
      × (reply ≡ returned (reply_error v err 500))

  -- What a request gets by the verdict of the chain, with the handler found for it.
  abbrev pub Served :
      String → String → Request → Text → Writer → World S × Verdict → World S × Reply → Type 0
  Served service endpoint r req_id w (s, refused code) (end, returned v) =
      (end ≡ s) × (status v ≡ some code)
  Served service endpoint r req_id w (s, refused code) (end, panicked err v) = ⊥
  Served service endpoint r req_id w (s, let_through) out =
      Handled service endpoint s (e.handler s.state r (handler_context e.session_getter req_id r) w)
        out

  recovered-Handled :
      (service endpoint : String) (s : World S) (l : ContextLog) (took : ℕ) (ended : S × Ended)
      → Handled service endpoint s ended
          (recovered c.log_panic (conclude s e.service e.endpoint l took ended))
  unfolding recovered
  recovered-Handled service endpoint s l took (u, finished v code none) = (
    refl,
    conclude-Scored s e.service e.endpoint service endpoint l took (u, finished v code none),
    refl,
  )
  recovered-Handled service endpoint s l took (u, finished v code (some x)) = (
    refl,
    conclude-Scored s e.service e.endpoint service endpoint l took (u, finished v code (some x)),
    refl,
  )
  recovered-Handled service endpoint s l took (u, crashed err v) = (
    (conclude s e.service e.endpoint l took (u, crashed err v)).0,
    refl,
    refl,
    conclude-Scored s e.service e.endpoint service endpoint l took (u, crashed err v),
    refl,
  )

  -- behind the panic logger, the router calls the handler once
  router-Handled :
      (now : S → ℕ) (find : Request → Option (Registered S D)) (not_found : Handler (World S))
      (service endpoint : String) (s : World S) (r : Request) (req_id : Text) (w : Writer)
      → find r ≡ some e
      → Handled service endpoint s
          (e.handler s.state r (handler_context e.session_getter req_id r) w)
          (panic_logger_middleware (router now req_id find not_found) c.log_panic s r w)
  unfolding panic_logger_middleware router instrumented instrumentation_middleware
  router-Handled now find not_found service endpoint s r req_id w found =
      rw (router, found)
        (recovered-Handled service endpoint s _ _
          (e.handler s.state r (handler_context e.session_getter req_id r) w))

  answered :
      (now : S → ℕ) (find : Request → Option (Registered S D)) (not_found : Handler (World S))
      (service endpoint : String) (r : Request) (req_id : Text) (w : Writer) (v : World S × Verdict)
      (out : World S × Reply)
      → PassesOn c.sentry
      → find r ≡ some e
      → Answers c (router now req_id find not_found) r w v out
      → Served service endpoint r req_id w v out
  answered now find not_found service endpoint r req_id w (s, refused code) (end, returned v) p f
        a =
      a
  answered now find not_found service endpoint r req_id w (s, refused code) (end, panicked x v) p f
        a =
      a
  answered now find not_found service endpoint r req_id w (s, let_through) out p f a =
      subst
        (Handled service endpoint s
          (e.handler s.state r (handler_context e.session_getter req_id r) w))
        (sym (
          a ∙ sentry_sees_no_panic c.sentry (router now req_id find not_found) c.log_panic s r w p))
        (router-Handled now find not_found service endpoint s r req_id w f)

  -- Without CORS, if the sentry handler passes on what a handler that returns has done, a request for
  -- which the router finds the handler `e`, with a response that has not been started, is either
  -- refused with the status of the chain's verdict, and nothing has changed but the rate limiter; or
  -- the handler of the service runs once. If it returns, the state is the one it left, its writer is
  -- the response, with the error added if there is one, the request is logged, and it counts for the
  -- labels of `e` and no others. If it panics, the panic is logged and the error is written with the
  -- status 500 to the handler's writer, and no metric counts the request.
  pub serve_http-Served :
      (now : S → ℕ) (find : Request → Option (Registered S D)) (not_found : Handler (World S))
      (service endpoint : String) (s : World S) (r : Request) (req_id : Text) (w : Writer)
      → c.cors ≡ false
      → PassesOn c.sentry
      → w.sent ≡ none
      → find r ≡ some e
      → Served service endpoint r req_id w
          (judged c s r)
          (serve_http now req_id c find not_found s r w)
  unfolding serve_http
  serve_http-Served now find not_found service endpoint s r req_id w nocors passes fresh found =
      answered now find not_found service endpoint r req_id w (judged c s r)
        (serve_http now req_id c find not_found s r w) passes found
        (safety_wrappers-Answers c (router now req_id find not_found) s r w nocors fresh)
