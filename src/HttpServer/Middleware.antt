-- ===== src/HttpServer/Middleware.antt =====
-- httpserver/middleware.go, httpreply/common.go and apiauth/token/token.go: middlewares as functions
-- from handlers to handlers, over a state `S` that holds what a request can change: the rate limiter,
-- the log and the service's own data.
pub mod Chain
pub mod Replies
mod Tests
use goblocks.Prelude.Text.{Text, codes}
use goblocks.Prelude.Eq.{◌==◌, nat_eq, int_eq, string_eq}
use goblocks.Prelude.Int.{ℤ, leb_ℤ}
use goblocks.Prelude.Map
use goblocks.Prelude.Map.{Map, put, delete}
use goblocks.Prelude.{
  ℕ, String, Bool, true, not, Option, none, some, List, [], ◌∷◌, ◌++◌, ltb, if◌then◌else◌, length,
}

pub data HeaderValue : Type 0 where
  text : String → HeaderValue
  -- the decimal digits of a number
  number : ℕ → HeaderValue

abbrev pub Header : Type 0
Header = Map String HeaderValue

-- http.ResponseWriter: the first WriteHeader sends the status with the header of that moment.
pub record Writer : Type 0 where
  pub header : Header
  pub sent : Option (ℕ × Header)
  pub body : Text

-- http.Request; a value of the header is a list with at least one item
pub record Request : Type 0 where
  pub method : String
  pub request_uri : Text
  pub remote_addr : Text
  pub header : Map String (Text × List Text)
  -- Header.Get("Api-Token")
  pub api_token : String
  -- a cookie that is `none` is http.ErrNoCookie
  pub sid_cookie : Option Text

-- How a call of a handler ends.
pub data Reply : Type 0 where
  returned : Writer → Reply
  -- recover gives an error with this text, or a value that is no error
  panicked : Option Text → Writer → Reply

abbrev pub Handler : Type 0 → Type 0
Handler S = S → Request → Writer → S × Reply

pub set_header : Writer → String → HeaderValue → Writer
set_header w key value = record w { header = put w.header key value }

pub write_header : Writer → ℕ → Writer
write_header w code = elim w.sent [ none ↦ record w { sent = some (code, w.header) } | some r ↦ w ]

-- Write, which sends the status 200 if none was sent
pub write : Writer → Text → Writer
unfolding write_header
write w content = let w' = write_header w 200 in record w' { body = w'.body ++ content }

-- http.Error
pub http_error : Writer → Text → ℕ → Writer
unfolding set_header write_header write
http_error w message code =
    let h = record w { header = delete w.header "Content-Length" } in
    let h = set_header h "Content-Type" (text "text/plain; charset=utf-8") in
    let h = set_header h "X-Content-Type-Options" (text "nosniff") in
    write (write_header h code) (message ++ 10 ∷ [])

-- httpreply.Reply
unfoldable pub reply : Writer → ℕ → String → Text → Writer
unfolding set_header write_header write
reply w code content_type content =
    let typed = if content_type == "" then w else set_header w "Content-Type" (text content_type) in
    let sized =
      if ltb 0 (length content)
      then set_header typed "Content-Length" (number (length content))
      else typed in
    write (write_header sized code) content

-- fmt.Sprintf("%s", err), where `none` is a nil error
abbrev pub sprint : Option Text → Text
sprint none = codes "%!s(<nil>)"
sprint (some e) = e

-- {"error":"..."}, where 34 is the quotation mark
abbrev pub error_json : Option Text → Text
error_json err = 123 ∷ 34 ∷ codes "error" ++ 34 ∷ 58 ∷ 34 ∷ sprint err ++ 34 ∷ 125 ∷ []

-- httpreply.Error
pub reply_error : Writer → Option Text → ℕ → Writer
unfolding reply
reply_error w err code = reply w code "application/json" (error_json err)

-- token.Auth.Authorized; `true` is no error
pub authorized : String → Request → Bool
authorized secret r = r.api_token == secret

abbrev pub cors_headers : Writer → String → Writer
cors_headers w domain =
    set_header
      (set_header
        (set_header (set_header w "Access-Control-Allow-Origin" (text domain))
          "Access-Control-Allow-Methods" (text "POST, DELETE, OPTIONS"))
        "Access-Control-Allow-Headers" (text "Content-Type"))
      "Access-Control-Allow-Credentials" (text "true")

module _ {S : Type 0} where
  pub conn_limiter_middleware : Handler S → (S → ℤ) → ℤ → Handler S
  conn_limiter_middleware next count open_conn_limit s req w =
      if leb_ℤ open_conn_limit (count s)
      then (s, returned (http_error w (codes "Too Many Requests") 429))
      else next s req w

  -- `allow` takes a token of the limiter, which may change it also when it refuses
  pub rate_limiter_middleware : Handler S → (S → S × Bool) → Handler S
  rate_limiter_middleware next allow s req w =
      let (s', allowed) = allow s in
      if not allowed
      then (s', returned (http_error w (codes "Too Many Requests") 429))
      else next s' req w

  -- `none` is a nil provider
  pub auth_middleware : Handler S → Option String → Handler S
  auth_middleware next auth s r w = elim auth [
    | none ↦ next s r w
    | some secret ↦
        if not (authorized secret r)
        then (s, returned (http_error w (codes "Unauthorized") 401))
        else next s r w
  ]

  -- the deferred function of panicLoggerMiddleware; `log_panic` is logger.Error and logger.Flush
  unfoldable pub recovered : (S → S) → S × Reply → S × Reply
  recovered log_panic (s, returned w) = (s, returned w)
  recovered log_panic (s, panicked err w) = (log_panic s, returned (reply_error w err 500))

  unfoldable pub panic_logger_middleware : Handler S → (S → S) → Handler S
  unfolding recovered
  panic_logger_middleware next log_panic s r w = recovered log_panic (next s r w)

  pub cors_middleware : Handler S → String → Handler S
  cors_middleware next domain s req w =
      let w' = cors_headers w domain in
      if req.method == "OPTIONS" then (s, returned (write_header w' 204)) else next s req w'

-- What safetyWrappers takes from the configuration and from the other parts.
pub record Wrapping (S : Type 0) : Type 0 where
  pub cors : Bool
  pub domain : String
  pub token : String
  pub open_conn_limit : ℤ
  pub count : S → ℤ
  pub allow : S → S × Bool
  pub log_panic : S → S
  -- the sentry handler around a handler
  pub sentry : Handler S → Handler S

-- the provider of NewServer, none for an empty token
abbrev pub auth_provider : String → Option String
auth_provider token = if token == "" then none else some token

-- safetyWrappers of NewServer
pub safety_wrappers : {S : Type 0} → Wrapping S → Handler S → Handler S
unfolding panic_logger_middleware auth_middleware rate_limiter_middleware conn_limiter_middleware
    cors_middleware
safety_wrappers c router =
    let handler = panic_logger_middleware router c.log_panic in
    let handler = c.sentry handler in
    let handler = auth_middleware handler (auth_provider c.token) in
    let handler = rate_limiter_middleware handler c.allow in
    let handler = conn_limiter_middleware handler c.count c.open_conn_limit in
    if c.cors then cors_middleware handler c.domain else handler
