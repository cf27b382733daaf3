-- ===== src/Mailer.antt =====
-- mailer/mailer.go: the message that SendMailHTML hands to net/smtp, which is a parameter. The order in
-- which the range visits the map of headers is one too.
pub mod Parsed
mod Tests
use goblocks.Prelude.Text.{Text, codes}
use goblocks.Prelude.Eq.{nat_eq, int_eq, string_eq}
use goblocks.Prelude.Map
use goblocks.Prelude.Map.{Map}
use goblocks.Prelude.{ℕ, Option, none, some, List, [], ◌∷◌, ◌++◌}

pub record Mailer : Type 0 where
  pub username : Text
  pub password : Text
  pub server : Text
  pub port : ℕ
  pub from : Text

abbrev pub Headers : Type 0
Headers = List (Text × Text)

-- the map of headers
pub headers : Mailer → Text → Text → Headers
headers m to subject =
    (codes "From", m.from)
    ∷ (codes "To", to)
    ∷ (codes "Subject", subject)
    ∷ (codes "Content-Type", codes "text/html; charset=utf-8")
    ∷ []

-- "%s: %s\r\n"
abbrev pub header_line : Text × Text → Text
header_line (key, value) = key ++ 58 ∷ 32 ∷ (value ++ 13 ∷ 10 ∷ [])

-- the message, from the headers in the order of the range
pub message : Headers → Text → Text
message [] body = 13 ∷ 10 ∷ body
message (h ∷ hs) body = header_line h ++ message hs body

-- the arguments of smtp.SendMail, with those of its PlainAuth
pub record Mail : Type 0 where
  pub server : Text
  pub port : ℕ
  pub auth : Text × Text
  pub sender : Text
  pub recipients : List Text
  pub content : Text

pub mail_of : Mailer → (Headers → Headers) → Text → Text → Text → Mail
unfolding headers message
mail_of m order to subject body = record {
  server = m.server;
  port = m.port;
  auth = (m.username, m.password);
  sender = m.from;
  recipients = to ∷ [];
  content = message (order (headers m to subject)) body;
}

pub data MailError : Type 0 where
  send_failed : ℕ → MailError

-- SendMailHTML
pub send_mail_html :
    (Mail → Option ℕ) → Mailer → (Headers → Headers) → Text → Text → Text → Option MailError
unfolding mail_of
send_mail_html smtp m order to subject body = elim (smtp (mail_of m order to subject body)) [
  | none ↦ none
  | some e ↦ some (send_failed e)
]
