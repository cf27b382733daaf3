-- ===== src/Telegram.antt =====
-- telegram/: messages, their buttons' callbacks and the webhook. The JSON coding and the HTTP client
-- are parameters: `send` answers a method call and its payload with an error or none.
pub mod Callbacks
pub mod Transport
mod Tests
use goblocks.Prelude.Eq.{◌==◌, nat_eq, int_eq, string_eq}
use goblocks.Prelude.Int.{ℤ, pos, negsuc}
use goblocks.Prelude.Map
use goblocks.Prelude.Map.{Map, get, put, delete}
use goblocks.Prelude.{
  ℕ, suc, String, Bool, true, false, not, ◌||◌, Option, none, some, List, [], ◌∷◌, ◌++◌, ltb,
  if◌then◌else◌, length, get_elem?,
}

-- a UserCallback, by what it does with the program's own state `S`
abbrev pub UserCallback : Type 0 → Type 0
UserCallback S = S → S × String × Bool

-- the values of a payload map[string]any
pub data Value : Type 0 where
  int : ℤ → Value
  text_value : String → Value
  flag : Bool → Value
  -- one row of inline buttons: their text and callback data, a message id and an index
  markup : List (String × ℤ × ℕ) → Value
  entities_value : ℕ → Value

abbrev pub Payload : Type 0
Payload = Map String Value

-- A call of tg.send: the method and its payload.
abbrev pub Call : Type 0
Call = String × Payload

-- type tg, with the calls sent so far. `none` as a callback is a nil function.
pub record Tg (S : Type 0) : Type 0 where
  pub msg_id : ℕ
  pub bot_token : String
  pub chat_id : ℤ
  pub callbacks : Map ℤ (List (Option (UserCallback S)))
  pub state : S
  pub calls : List Call

-- type Message without its sender
pub record Message : Type 0 where
  pub id : ℤ
  pub text : String
  pub chat_id : ℤ
  pub parse_mode : String
  pub buttons : List String

-- How a callback or a handler ends: with a value, or with a panic of the runtime.
pub data Ends (A : Type 0) : Type 0 where
  value : A → Ends A
  panic : Ends A

-- a[iButton], where an index out of range panics
pub nth : {A : Type 0} → List A → ℤ → Ends A
nth a (negsuc n) = panic
nth a (pos n) = elim (get_elem? a n) [ some x ↦ value x | none ↦ panic ]

abbrev pub or_empty : {A : Type 0} → Option (List A) → List A
or_empty none = []
or_empty (some a) = a

abbrev pub put_entities : Payload → Option ℕ → Payload
put_entities payload none = payload
put_entities payload (some n) = put payload "entities" (entities_value n)

abbrev pub put_markup : Payload → Option (List (String × ℤ × ℕ)) → Payload
put_markup payload none = payload
put_markup payload (some rows) = put payload "reply_markup" (markup rows)

module _ {S : Type 0} where
  -- createMessage
  pub create_message : Tg S → String → Tg S × Message
  create_message t message =
      let next_id = suc t.msg_id in
      (
        record t { msg_id = next_id },
        record { id = pos next_id; text = message; chat_id = pos 0; parse_mode = ""; buttons = [] },
      )

  pub add_callback : Tg S → ℤ → Option (UserCallback S) → Tg S
  add_callback t message_id fn =
      let a = or_empty (get t.callbacks message_id) in
      record t { callbacks = put t.callbacks message_id (a ++ fn ∷ []) }

  pub with_button : Tg S → Message → String → Option (UserCallback S) → Tg S × Message
  unfolding add_callback
  with_button t m text fn = (add_callback t m.id fn, record m { buttons = m.buttons ++ text ∷ [] })

  pub run_callback : Tg S → Option (UserCallback S) → Tg S × String × Bool
  run_callback t none = (t, "", true)
  run_callback t (some fn) =
      let (s, appendix, success) = fn t.state in (record t { state = s }, appendix, success)

  pub callback : Tg S → ℤ → ℤ → Ends (Tg S × String × Bool)
  unfolding nth run_callback
  callback t message_id i_button = elim (get t.callbacks message_id) [
    | none ↦ value (t, "", false)
    | some a ↦ elim (nth a i_button) [
      | panic ↦ panic
      | value fn ↦ value (run_callback (record t { callbacks = delete t.callbacks message_id }) fn)
    ]
  ]

  -- tg.send, as far as the calls made go
  pub send : Tg S → String → Payload → Tg S
  send t method payload = record t { calls = t.calls ++ (method, payload) ∷ [] }

  pub answer_callback_query : Tg S → String → String → Bool → Tg S
  unfolding send
  answer_callback_query t query_id message alert =
      let payload = put [] "callback_query_id" (text_value query_id) in
      let payload = if message == "" then payload else put payload "text" (text_value message) in
      let payload = if alert then put payload "show_alert" (flag true) else payload in
      send t "answerCallbackQuery" payload

  pub append_message : Tg S → ℤ → ℤ → String → Option ℕ → Tg S
  unfolding send
  append_message t chat_id message_id content ents =
      let payload = put [] "chat_id" (int chat_id) in
      let payload = put payload "message_id" (int message_id) in
      let payload = put payload "text" (text_value content) in
      let payload = put_entities payload ents in send t "editMessageText" payload

  pub send_message : Tg S → String → ℤ → String → Option (List (String × ℤ × ℕ)) → Tg S
  unfolding send
  send_message t message chat_id parse_mode reply_markup =
      let chat_id = if chat_id == pos 0 then t.chat_id else chat_id in
      let payload = put (put [] "chat_id" (int chat_id)) "text" (text_value message) in
      let payload =
        if parse_mode == "" then payload else put payload "parse_mode" (text_value parse_mode) in
      let payload = put_markup payload reply_markup in
      if t.bot_token == "" || chat_id == pos 0 then t else send t "sendMessage" payload

-- the buttons of Message.Send from index `i` on
pub numbered : ℤ → ℕ → List String → List (String × ℤ × ℕ)
numbered id i [] = []
numbered id i (btn ∷ rest) = (btn, id, i) ∷ numbered id (suc i) rest

-- Message.Send
pub send_out : {S : Type 0} → Tg S → Message → Tg S
unfolding send_message numbered
send_out t m =
    let reply_markup =
      if ltb 0 (length m.buttons) then some (numbered m.id 0 m.buttons) else none in
    send_message t m.text m.chat_id m.parse_mode reply_markup

-- The parts of a CallbackQuery that the webhook reads.
pub record CallbackQuery : Type 0 where
  pub id : String
  pub data_text : String
  pub message_id : ℤ
  pub chat_id : ℤ
  pub message_text : String
  pub entities_of : Option ℕ

module _ {S : Type 0} (parts : String → List String) (atoi : String → ℤ)
    (concat : String → String → String) where
  -- WebhookHandler after the decoding. `parts` is strings.Split at ":", `atoi` is strconv.Atoi
  -- without its error, `concat` joins two texts.
  pub webhook_handler : Tg S → Option CallbackQuery → Ends (Tg S)
  unfolding callback append_message answer_callback_query
  webhook_handler t none = value t
  webhook_handler t (some q) = elim (parts q.data_text) [
    | [] ↦ value t
    | p ∷ ps ↦ elim ps [
      | [] ↦ value t
      | p' ∷ ps' ↦ elim ps' [
        | x ∷ xs ↦ value t
        | [] ↦ elim (callback t (atoi p) (atoi p')) [
          | panic ↦ panic
          | value (t', appendix, success) ↦
              let edited =
                if success
                then append_message t' q.chat_id q.message_id (concat q.message_text appendix)
                    q.entities_of
                else t' in
              value (
                answer_callback_query edited q.id (if success then "Done" else "Error")
                  (not success))
        ]
      ]
    ]
  ]
