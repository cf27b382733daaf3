-- ===== src/HttpServer/Server.antt =====
-- httpserver/http.go: HandleFunc and Run of the server. The router keeps the routes, in the order of the
-- calls, with the labels for the instrumentation; net/http serves. An error is a number.
use goblocks.Prelude.Text.{Text}
use goblocks.Prelude.{
  ℕ, String, ◌≡◌, refl, Option, none, some, List, [], ◌∷◌, ◌++◌, nat_beq, if◌then◌else◌,
}

pub record Route : Type 0 where
  pub method : String
  pub pattern : Text
  pub service : String
  pub endpoint : String

-- strings.TrimPrefix(path, "/"), where 47 is the slash
abbrev pub trim_slash : Text → Text
trim_slash [] = []
trim_slash (c ∷ cs) = if nat_beq c 47 then cs else c ∷ cs

pub pattern_of : Text → Text
pattern_of path = 47 ∷ trim_slash path

-- HandleFunc
unfoldable pub handle_func : List Route → String → String → String → Text → List Route
unfolding pattern_of
handle_func routes service endpoint method path =
    routes
    ++ (record {
      method = method;
      pattern = pattern_of path;
      service = service;
      endpoint = endpoint;
    })
      ∷ []

-- How Serve ends.
pub data ServeEnd : Type 0 where
  server_closed : ServeEnd
  serve_failed : ℕ → ServeEnd

-- What the select of Run receives first.
pub data Received : Type 0 where
  ended : ServeEnd → Received
  -- the context is done; the result of Shutdown
  done : Option ℕ → Received

pub data Message : Type 0 where
  starting_server closed_server : Message
  failed_to_shutdown : ℕ → Message

-- Run: the messages that it logs, and its error
pub run : Received → List Message × Option ℕ
run (ended server_closed) = (starting_server ∷ closed_server ∷ [], none)
run (ended (serve_failed e)) = (starting_server ∷ [], some e)
run (done none) = (starting_server ∷ [], none)
run (done (some e)) = (starting_server ∷ failed_to_shutdown e ∷ [], none)

-- A path with a slash and one without give one pattern.
pattern_of_slash : (path : Text) → pattern_of (pattern_of path) ≡ pattern_of path
unfolding pattern_of
pattern_of_slash path = refl
