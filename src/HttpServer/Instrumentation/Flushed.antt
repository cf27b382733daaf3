-- ===== src/HttpServer/Instrumentation/Flushed.antt =====
-- httpserver/middleware.go with log/logger.go: what Flush hands to zap of the log of one request, when
-- the logger is in one-line mode.
pub mod Summary
mod Tests
use goblocks.Prelude.Text.{Text}
use goblocks.Prelude.Eq.{nat_eq, int_eq, string_eq}
use goblocks.Prelude.Int.{pos}
use goblocks.Prelude.Map
use goblocks.Prelude.Map.{Map, get}
use goblocks.Prelude.{String, some, List, [], ◌∷◌, ◌++◌}
use goblocks.Logger.{
  Field, flush, with_fields, string_field, duration_field, error_field, main_message,
}
use goblocks.Logger.Gathering.{Call, log_all}
use goblocks.HttpServer.Instrumentation.{
  ContextLog, session_failed, missing_cookie, start, finish, runtime,
}
use goblocks.HttpServer.Instrumentation
use goblocks.Logger

module _ (string_of : Text → String) where
  -- the calls of the context logger, in the levels' numbers; 0 is info and 2 error
  pub call_of : Instrumentation.Entry → Call
  unfolding string_field duration_field error_field main_message
  call_of (session_failed e) = record {
    level = pos 2;
    message = "failed to get session data";
    fields = error_field (some (string_of e)) ∷ [];
  }
  call_of missing_cookie = record { level = pos 2; message = "missing SID cookie"; fields = [] }
  call_of start = record { level = pos 0; message = "start"; fields = [] }
  call_of (finish took) = record {
    level = pos 0;
    message = "finish";
    fields = duration_field "took" (pos took) ∷ [];
  }
  call_of (runtime rid e) = record {
    level = pos 2;
    message = "runtime";
    fields =
        string_field "rid" (string_of rid) ∷ error_field (some (string_of e)) ∷ main_message ∷ [];
  }

  pub calls_of : List Instrumentation.Entry → List Call
  unfolding call_of
  calls_of [] = []
  calls_of (e ∷ es) = call_of e ∷ calls_of es

  -- the fields of the context logger
  pub context_fields : ContextLog → List Field
  unfolding string_field
  context_fields l =
      string_field "method" l.method
      ∷ string_field "uri" (string_of l.uri)
      ∷ string_field "remote" (string_of l.remote)
      ∷ string_field "rid" (string_of l.rid)
      ∷ []

  -- what the calls of a request and its Flush hand to zap, by a context logger made from `parent`
  pub handed : Logger.Logger → ContextLog → List Logger.Entry
  unfolding calls_of context_fields with_fields log_all flush
  handed parent l =
      let logged = log_all (with_fields parent (context_fields l)) (calls_of l.entries) in
      logged.1 ++ (flush logged.0).1
