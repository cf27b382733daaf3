-- ===== src/Telegram/Transport.antt =====
-- telegram/telegram.go: New, Run, and the HTTP request of send; telegram/message.go: Type and ToChat.
-- The encoder and the HTTP client are parameters; an error of theirs is a number.
use goblocks.Prelude.Text.{Text, codes}
use goblocks.Prelude.Int.{ℤ}
use goblocks.Prelude.{
  ℕ, String, ◌≡◌, refl, ◌⊎◌, inl, inr, Bool, true, false, Option, none, some, List, [], ◌∷◌, ◌++◌,
  nat_beq, if◌then◌else◌,
}
use goblocks.Telegram.{Payload, Tg, Message}

-- New's Config
pub record Config : Type 0 where
  pub endpoint : Text
  pub port : ℕ
  pub bot_token : String
  pub chat_id : ℤ

-- New, which starts to number the messages from 0
pub new_tg : {S : Type 0} → Config → S → Tg S
new_tg cfg s = record {
  msg_id = 0;
  bot_token = cfg.bot_token;
  chat_id = cfg.chat_id;
  callbacks = [];
  state = s;
  calls = [];
}

-- How ListenAndServe ends.
pub data ServeEnd : Type 0 where
  server_closed : ServeEnd
  serve_failed : ℕ → ServeEnd

pub data RunMessage : Type 0 where
  webhook_listening : ℕ → RunMessage
  webhook_closed : ℕ → RunMessage

-- the goroutine of Run: what it logs and what it sends, where `none` is a nil error
abbrev pub served : ServeEnd → List RunMessage × Option ServeEnd
served server_closed = ([], some server_closed)
served (serve_failed e) = (webhook_closed e ∷ [], none)

-- Run by what its select receives first, the end of the server or, for `none`, that of the context
pub run : Config → Option ServeEnd → List RunMessage × Option ServeEnd
run cfg none = (webhook_listening cfg.port ∷ [], none)
run cfg (some end) = (webhook_listening cfg.port ∷ (served end).0, (served end).1)

-- Type and ToChat
pub typed : Message → String → Message
typed m parse_mode = record m { parse_mode = parse_mode }

pub to_chat : Message → ℤ → Message
to_chat m chat_id = record m { chat_id = chat_id }

-- http.Response: the status code, its text and the body
pub record HttpResponse : Type 0 where
  pub status_code : ℕ
  pub status : Text
  pub body : Text

pub record HttpRequest : Type 0 where
  pub url : Text
  pub content_type : String
  pub body : Text

pub record Client : Type 0 where
  pub marshal : Payload → ℕ ⊎ Text
  pub request_failure : Text → Option ℕ
  pub perform : HttpRequest → ℕ ⊎ HttpResponse

pub data SendError : Type 0 where
  marshal_failed create_failed request_failed : ℕ → SendError
  non_200 : Text → Text → SendError

-- https://api.telegram.org/bot%s/%s
pub api_url : Text → Text → Text
api_url token method = codes "https://api.telegram.org/bot" ++ token ++ 47 ∷ method

abbrev pub checked : HttpResponse → Option SendError
checked r = if nat_beq r.status_code 200 then none else some (non_200 r.status r.body)

-- send, as far as its result goes
pub send_result : Client → Text → Text → Payload → Option SendError
unfolding api_url
send_result c token method payload = elim (c.marshal payload) [
  | inl e ↦ some (marshal_failed e)
  | inr json ↦ elim (c.request_failure (api_url token method)) [
    | some e ↦ some (create_failed e)
    | none ↦
        elim (c.perform
          (record { url = api_url token method; content_type = "application/json"; body = json })) [
            | inl e ↦ some (request_failed e)
            | inr r ↦ checked r
          ]
  ]
]

-- whether the server went on until it was closed
abbrev is_close : ServeEnd → Bool
is_close server_closed = true
is_close (serve_failed e) = false

-- Run returns an error only if the server was closed; a failure to listen is logged and forgotten.
run_errors :
    (cfg : Config) (end : ServeEnd)
    → elim (run cfg (some end)).1 [ none ↦ false | some e ↦ true ] ≡ is_close end
unfolding run
run_errors cfg server_closed = refl
run_errors cfg (serve_failed e) = refl
