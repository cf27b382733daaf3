-- ===== src/HttpServer/Instrumentation/Flushed/Summary.antt =====
-- The one entry that the log of a request gives.
use goblocks.Prelude.Text.{Text}
use goblocks.Prelude.Int.{pos, ◌≤ℤ◌, ltb_ℤ}
use goblocks.Prelude.{
  ℕ, ◌-◌, String, ◌≡◌, refl, arith, true, false, Bool-cases, ap, ◌⊎◌, inl, inr, Option, none, some,
  List, [], ◌∷◌, ◌++◌,
}
use goblocks.Logger.{
  Field, flush, with_fields, string_field, duration_field, error_field, main_message, log,
  direct_log, gather,
}
use goblocks.Logger
use goblocks.Logger.Gathering.{Call, log_all}
use goblocks.HttpServer.Middleware.{Writer, Request}
use goblocks.HttpServer.Instrumentation.{
  ContextLog, session_failed, missing_cookie, start, finish, runtime, Ended, finished, crashed,
  World, HandlerWithResult, query_session, conclude, handler_context, instrumentation_middleware,
  remote, before_colon,
}
use goblocks.HttpServer.Instrumentation
use goblocks.HttpServer.Instrumentation.Flushed.{call_of, calls_of, context_fields, handed}

module _ (string_of : Text → String) where
  -- the entry by the call that the session gave rise to, if any, and by how the handler ended: the
  -- fields of a call that is lower than an earlier one are lost
  abbrev pub summary : List Instrumentation.Entry → Text → ℕ → Ended → Logger.Entry
  summary [] rid took (crashed err w) = record { level = pos 0; message = "start"; fields = [] }
  summary [] rid took (finished w code none) = record {
    level = pos 0;
    message = "start";
    fields = duration_field "took" (pos took) ∷ [];
  }
  summary [] rid took (finished w code (some e)) = record {
    level = pos 2;
    message = "runtime";
    fields =
        duration_field "took" (pos took)
        ∷ string_field "rid" (string_of rid)
        ∷ error_field (some (string_of e))
        ∷ [];
  }
  summary (s ∷ ss) rid took (crashed err w) = record {
    level = pos 2;
    message = (call_of string_of s).message;
    fields = (call_of string_of s).fields;
  }
  summary (s ∷ ss) rid took (finished w code none) = record {
    level = pos 2;
    message = (call_of string_of s).message;
    fields = (call_of string_of s).fields;
  }
  summary (s ∷ ss) rid took (finished w code (some e)) = record {
    level = pos 2;
    message = "runtime";
    fields =
        (call_of string_of s).fields
        ++ string_field "rid" (string_of rid) ∷ error_field (some (string_of e)) ∷ [];
  }

  -- the entries of the log of a request
  abbrev pub entries_of : List Instrumentation.Entry → Text → ℕ → Ended → List Instrumentation.Entry
  entries_of session rid took (crashed err w) = session ++ start ∷ []
  entries_of session rid took (finished w code err) =
      ((session ++ start ∷ []) ++ finish took ∷ [])
      ++ elim err [ none ↦ [] | some e ↦ runtime rid e ∷ [] ]

  -- the context logger after a first call
  abbrev started : Call → List Field → Logger.Logger
  started c context = record {
    oneline = true;
    level = c.level;
    message = c.message;
    fields = c.fields;
    context = context;
  }

  -- what is handed to zap after a first call
  abbrev handed_from : Call → List Field → List Instrumentation.Entry → List Logger.Entry
  handed_from c context es =
      let logged = log_all (started c context) (calls_of string_of es) in
      logged.1 ++ (flush logged.0).1

  -- A logger in one-line mode, at the level Info or below, takes the first call as it is.
  log-with_fields :
      (parent : Logger.Logger) (context : List Field) (c : Call)
      → parent.oneline ≡ true
      → parent.level ≤ℤ pos 0
      → pos 0 ≤ℤ c.level
      → gather c.message "" [] c.fields ≡ ("", c.fields)
      → log (with_fields parent context) c.level c.message c.fields
        ≡ (started c (parent.context ++ context), [])
  unfolding log with_fields
  log-with_fields parent context c one low high g =
      let held : ltb_ℤ c.level parent.level ≡ false = ground (arith, low, high) in
      rw (log, one, held, g)
        (elim (Bool-cases (ltb_ℤ parent.level c.level)) [
          | inl q ↦ rw (q) refl
          | inr q ↦ rw (q) refl
        ])

  -- A call that hands nothing to zap is followed by the others.
  log_all-quiet :
      (before after : Logger.Logger) (c : Call) (cs : List Call)
      → log before c.level c.message c.fields ≡ (after, [])
      → log_all before (c ∷ cs) ≡ log_all after cs
  unfolding log_all
  log_all-quiet before after c cs q = rw (log_all, q) refl

  handed-first :
      (parent : Logger.Logger) (l : ContextLog) (e : Instrumentation.Entry)
      (es : List Instrumentation.Entry)
      → parent.oneline ≡ true
      → parent.level ≤ℤ pos 0
      → pos 0 ≤ℤ (call_of string_of e).level
      → gather (call_of string_of e).message "" [] (call_of string_of e).fields
        ≡ ("", (call_of string_of e).fields)
      → handed string_of parent (record l { entries = e ∷ es })
        ≡ handed_from
            (call_of string_of e)
            (parent.context ++ context_fields string_of (record l { entries = e ∷ es }))
            es
  unfolding handed calls_of
  handed-first parent l e es one low high g =
      let fields = context_fields string_of (record l { entries = e ∷ es }) in
      let first = call_of string_of e in
      ap (λ (logged : Logger.Logger × List Logger.Entry). logged.1 ++ (flush logged.0).1)
        (log_all-quiet (with_fields parent fields) (started first (parent.context ++ fields)) first
          (calls_of string_of es) (log-with_fields parent fields first one low high g))

  -- the log `l` gives one entry, by the session's call and the end of the handler
  Handed : Logger.Logger → ContextLog → List Instrumentation.Entry → ℕ → Ended → Type 0
  Handed parent l session took ended =
      handed string_of parent (record l { entries = entries_of session l.rid took ended })
      ≡ summary session l.rid took ended ∷ []

  module _ (parent : Logger.Logger) (one : parent.oneline ≡ true)
      (low : parent.level ≤ℤ pos 0) where
    one_when_free : (l : ContextLog) (took : ℕ) (ended : Ended) → Handed parent l ([]) took ended
    unfolding Handed calls_of call_of context_fields log_all flush log direct_log gather
        string_field duration_field error_field main_message
    one_when_free l took (crashed err w) = handed-first parent l start [] one low (omega arith) refl
    one_when_free l took (finished w code none) =
        handed-first parent l start (finish took ∷ []) one low (omega arith) refl
    one_when_free l took (finished w code (some e)) =
        handed-first parent l start (finish took ∷ runtime l.rid e ∷ []) one low (omega arith) refl

    one_when_missing :
        (l : ContextLog) (took : ℕ) (ended : Ended)
        → Handed parent l (missing_cookie ∷ []) took ended
    unfolding Handed calls_of call_of context_fields log_all flush log direct_log gather
        string_field duration_field error_field main_message
    one_when_missing l took (crashed err w) =
        handed-first parent l missing_cookie (start ∷ []) one low (omega arith) refl
    one_when_missing l took (finished w code none) =
        handed-first parent l missing_cookie (start ∷ finish took ∷ []) one low (omega arith) refl
    one_when_missing l took (finished w code (some e)) =
        handed-first parent l missing_cookie (start ∷ finish took ∷ runtime l.rid e ∷ []) one low
          (omega arith) refl

    one_when_refused :
        (l : ContextLog) (x : Text) (took : ℕ) (ended : Ended)
        → Handed parent l (session_failed x ∷ []) took ended
    unfolding Handed calls_of call_of context_fields log_all flush log direct_log gather
        string_field duration_field error_field main_message
    one_when_refused l x took (crashed err w) =
        handed-first parent l (session_failed x) (start ∷ []) one low (omega arith) refl
    one_when_refused l x took (finished w code none) =
        handed-first parent l (session_failed x) (start ∷ finish took ∷ []) one low (omega arith)
          refl
    one_when_refused l x took (finished w code (some e)) =
        handed-first parent l (session_failed x) (start ∷ finish took ∷ runtime l.rid e ∷ []) one
          low (omega arith) refl

    query_session-Handed :
        {D : Type 0} (l : ContextLog) (took : ℕ) (ended : Ended)
        (getter : Option (Text → (Text ⊎ D))) (cookie : Option Text)
        → Handed parent l (query_session getter cookie).0 took ended
    unfolding query_session
    query_session-Handed l took ended none cookie = one_when_free l took ended
    query_session-Handed l took ended (some getter) none = one_when_missing l took ended
    query_session-Handed {D} l took ended (some getter) (some value) =
        elim (getter value)
          as (λ a.
            Handed parent l
              (elim a as (λ x. List Instrumentation.Entry × Option D) [
                | inl err ↦ (session_failed err ∷ [], none)
                | inr found ↦ ([], some found)
              ]).0
              took ended) [
                | inl x ↦ one_when_refused l x took ended
                | inr found ↦ one_when_free l took ended
              ]

  -- the log that a request leaves
  Logged : {S : Type 0} → World S → World S → ContextLog → List Instrumentation.Entry → Type 0
  Logged w end logger entries = end.logs ≡ w.logs ++ (record logger { entries = entries }) ∷ []

  conclude-Logged :
      {S : Type 0} (w : World S) (service endpoint : String) (logger : ContextLog)
      (session : List Instrumentation.Entry) (took : ℕ) (s : S) (ended : Ended)
      → logger.entries ≡ session ++ start ∷ []
      → Logged w
          (conclude w service endpoint logger took (s, ended)).0
          logger
          (entries_of session logger.rid took ended)
  unfolding Logged
  conclude-Logged w service endpoint logger session took s (crashed err v) q =
      ap (λ es. w.logs ++ (record logger { entries = es }) ∷ []) q
  conclude-Logged w service endpoint logger session took s (finished v code err) q =
      ap
        (λ es.
          w.logs
          ++ (record logger {
            entries =
                (es ++ finish took ∷ [])
                ++ elim err [ none ↦ [] | some e ↦ runtime logger.rid e ∷ [] ];
          })
            ∷ [])
        q

  -- With a parent logger in one-line mode whose level is not above Info, a request leaves one log, and
  -- that hands one entry to zap: at the level Error with the message "runtime" if the handler returned
  -- an error; else at the level Error with the message on the session, if its data was not got; else
  -- "start" at the level Info, with the time taken if the handler returned. After an error with the
  -- session the time taken is lost.
  pub request-summary :
      {S D : Type 0} (handler : HandlerWithResult S D) (now : S → ℕ) (service endpoint : String)
      (getter : Option (Text → (Text ⊎ D))) (req_id : Text) (world : World S) (r : Request)
      (w : Writer) (parent : Logger.Logger)
      → parent.oneline ≡ true
      → parent.level ≤ℤ pos 0
      → let out = instrumentation_middleware handler now service endpoint getter req_id world r w in
        let ended = handler world.state r (handler_context getter req_id r) w in
        let session = (query_session getter r.sid_cookie).0 in
        (l : ContextLog) × (out.0.logs ≡ world.logs ++ l ∷ [])
        × (handed string_of parent l
            ≡ summary session req_id (now ended.0 - now world.state) ended.1 ∷ [])
  unfolding instrumentation_middleware Logged Handed
  request-summary handler now service endpoint getter req_id world r w parent one low =
      let ended = handler world.state r (handler_context getter req_id r) w in
      let session = (query_session getter r.sid_cookie).0 in
      let took = now ended.0 - now world.state in
      let logger : ContextLog = record {
        method = r.method;
        uri = r.request_uri;
        remote = before_colon (remote r);
        rid = req_id;
        entries = session ++ start ∷ [];
      } in
      (
        record logger { entries = entries_of session req_id took ended.1 },
        conclude-Logged world service endpoint logger session took ended.0 ended.1 refl,
        query_session-Handed parent one low logger took ended.1 getter r.sid_cookie,
      )
