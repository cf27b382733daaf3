-- ===== src/HttpServer/Instrumentation/Scores.antt =====
-- What the metrics and the logs hold after any requests.
use goblocks.Prelude.Text.{Text}
use goblocks.Prelude.{
  ℕ, ◌+◌, String, ◌≡◌, refl, ◌⊎◌, Bool, true, false, ◌&&◌, Option, none, some, List, [], ◌∷◌, arith,
  if◌then◌else◌, length, length-append,
}
use mathlib.Core.Path.{subst}
use goblocks.HttpServer.Middleware.{Writer, Request}
use goblocks.HttpServer.Instrumentation.{
  ContextLog, labelled, score_method, Ended, finished, crashed, World, HandlerWithResult, conclude,
  handler_context, instrumentation_middleware,
}

-- a request, with the handler and the endpoint that the router found for it
pub record Call (S : Type 0) (D : Type 0) : Type 1 where
  pub handler : HandlerWithResult S D
  pub service : String
  pub endpoint : String
  pub session_getter : Option (Text → (Text ⊎ D))
  pub req_id : Text
  pub request : Request
  pub writer : Writer

module _ {S D : Type 0} (now : S → ℕ) where
  abbrev pub serve : World S → Call S D → World S
  serve w c =
      (instrumentation_middleware c.handler now c.service c.endpoint c.session_getter c.req_id w
        c.request c.writer).0

  abbrev pub serve_all : World S → List (Call S D) → World S
  serve_all w [] = w
  serve_all w (c ∷ cs) = serve_all (serve w c) cs

-- the handler alone, with the context it gets
abbrev pub handle : {S D : Type 0} → S → Call S D → S × Ended
handle s c = c.handler s c.request (handler_context c.session_getter c.req_id c.request) c.writer

abbrev pub returns : Ended → Bool
returns (finished w code err) = true
returns (crashed x w) = false

abbrev pub fails : Ended → Bool
fails (finished w code none) = false
fails (finished w code (some e)) = true
fails (crashed x w) = false

module _ {S D : Type 0} where
  -- how many of the calls of an endpoint end as `p` says, by the handlers alone
  abbrev pub count_ended : (Ended → Bool) → String → String → S → List (Call S D) → ℕ
  count_ended p service endpoint s [] = 0
  count_ended p service endpoint s (c ∷ cs) =
      (if labelled c.service c.endpoint service endpoint && p (handle s c).1 then 1 else 0)
      + count_ended p service endpoint (handle s c).0 cs

  abbrev pub final_state : S → List (Call S D) → S
  final_state s [] = s
  final_state s (c ∷ cs) = final_state (handle s c).0 cs

abbrev pub Scored : {S : Type 0} → World S → World S → String → String → Bool → Bool → Type 0
Scored w end service endpoint returned failed =
    (end.metrics.errors_counter service endpoint
      ≡ w.metrics.errors_counter service endpoint + (if failed then 1 else 0))
    × (length (end.metrics.latency service endpoint)
        ≡ length (w.metrics.latency service endpoint) + (if returned then 1 else 0))
    × (length end.logs ≡ length w.logs + 1)

pub conclude-Scored :
    {S : Type 0} (w : World S) (service endpoint s e : String) (l : ContextLog) (took : ℕ)
    (ended : S × Ended)
    → Scored w
        (conclude w service endpoint l took ended).0
        s
        e
        (labelled service endpoint s e && returns ended.1)
        (labelled service endpoint s e && fails ended.1)
unfolding score_method
conclude-Scored w service endpoint s e l took (t, crashed x v) = grind (arith, length-append)
conclude-Scored w service endpoint s e l took (t, finished v code none) =
    grind (arith, length-append)
conclude-Scored w service endpoint s e l took (t, finished v code (some x)) =
    grind (arith, length-append)

serve-Scored :
    {S D : Type 0} (now : S → ℕ) (w : World S) (c : Call S D) (s e : String)
    → Scored w
        (serve now w c)
        s
        e
        (labelled c.service c.endpoint s e && returns (handle w.state c).1)
        (labelled c.service c.endpoint s e && fails (handle w.state c).1)
unfolding instrumentation_middleware
serve-Scored now w c s e = conclude-Scored w c.service c.endpoint s e _ _ (handle w.state c)

pub conclude-state :
    {S : Type 0} (w : World S) (service endpoint : String) (l : ContextLog) (took : ℕ)
    (ended : S × Ended)
    → (conclude w service endpoint l took ended).0.state ≡ ended.0
conclude-state w service endpoint l took (t, crashed x v) = refl
conclude-state w service endpoint l took (t, finished v code err) = refl

serve-state :
    {S D : Type 0} (now : S → ℕ) (w : World S) (c : Call S D)
    → (serve now w c).state ≡ (handle w.state c).0
unfolding instrumentation_middleware
serve-state now w c = conclude-state w c.service c.endpoint _ _ (handle w.state c)

-- From `w`, whose state is `t`, the metrics count what the handlers do, and each request leaves a log.
abbrev pub Counted :
    {S D : Type 0} → (S → ℕ) → World S → S → List (Call S D) → String → String → Type 0
Counted now w t cs s e =
    ((serve_all now w cs).metrics.errors_counter s e
      ≡ w.metrics.errors_counter s e + count_ended fails s e t cs)
    × (length ((serve_all now w cs).metrics.latency s e)
        ≡ length (w.metrics.latency s e) + count_ended returns s e t cs)
    × (length (serve_all now w cs).logs ≡ length w.logs + length cs)
    × ((serve_all now w cs).state ≡ final_state t cs)

-- After any requests, served one after another: the counter of an endpoint's errors has grown by the
-- number of its handlers' calls that returned an error, its latencies by the number of those that
-- returned at all (a handler that panicked leaves neither), each request has left one log, and the
-- state is the one that the handlers alone would have left.
pub serve_all-Counted :
    {S D : Type 0} (now : S → ℕ) (w : World S) (cs : List (Call S D)) (s e : String)
    → Counted now w w.state cs s e
serve_all-Counted now w [] s e = ground arith
serve_all-Counted now w (c ∷ cs) s e =
    let ih =
      subst (λ t. Counted now (serve now w c) t cs s e) (serve-state now w c)
        (serve_all-Counted now (serve now w c) cs s e) in
    let sc = serve-Scored now w c s e in ground (arith, ih, sc)
