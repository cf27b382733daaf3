-- ===== src/Mailer/Tests.antt =====
-- Mails tried out: a clean one, and one whose subject brings a header of its own.
use goblocks.Prelude.Text.{Text, codes}
use goblocks.Prelude.{ℕ, ◌≡◌, refl, Option, none, some, [], ◌∷◌, ◌++◌, length}
use goblocks.Mailer.{Mailer, Headers, headers, mail_of}
use goblocks.Mailer.Parsed.{parse, parse-mail_of}

abbrev mailer : Mailer
mailer = record {
  username = codes "u";
  password = codes "p";
  server = codes "s";
  port = 587;
  from = codes "a@x";
}

parse-mail_of_example :
    parse 5 (mail_of mailer (λ hs. hs) (codes "b@x") (codes "hi") (codes "text")).content
    ≡ some (headers mailer (codes "b@x") (codes "hi"), codes "text")
parse-mail_of_example =
    parse-mail_of mailer (λ hs. hs) (codes "b@x") (codes "hi") (codes "text") (λ hs. (refl, refl))
      refl refl refl

abbrev number_of_headers : Option (Headers × Text) → ℕ
number_of_headers none = 0
number_of_headers (some (hs, body)) = length hs

-- A subject with a line break adds a header.
subject_adds_header :
    number_of_headers (
      parse 9
        (mail_of mailer
          (λ hs. hs)
          (codes "b@x")
          (codes "hi" ++ 13 ∷ 10 ∷ codes "Bcc: c@x")
          []).content)
    ≡ 5
unfolding mail_of
subject_adds_header = refl
