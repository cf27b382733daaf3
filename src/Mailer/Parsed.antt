-- ===== src/Mailer/Parsed.antt =====
-- The messages of mailer/mailer.go, read as a mail reader does.
use goblocks.Prelude.Text.{Text}
use goblocks.Prelude.{
  ℕ, zero, suc, ◌≡◌, refl, ap, ◌∙◌, Bool, true, false, not, ◌&&◌, Option, none, some, [], ◌∷◌, ◌++◌,
  append_assoc, arith, ltb, nat_beq, if◌then◌else◌, length, nat_beq_iff,
}
use goblocks.Mailer.{Mailer, Headers, headers, header_line, message, mail_of}

-- what stands before the first `a` followed by `b`, and after it
abbrev pub split_at : ℕ → ℕ → Text → Option (Text × Text)
split_at a b [] = none
split_at a b (c ∷ []) = none
split_at a b (c ∷ d ∷ cs) =
    let rest = split_at a b (d ∷ cs) in
    if nat_beq c a && nat_beq d b
    then some ([], cs)
    else elim rest [ none ↦ none | some (l, r) ↦ some (c ∷ l, r) ]

-- A message as lines that end in CR LF: headers up to an empty line, then the body.
abbrev pub parse : ℕ → Text → Option (Headers × Text)
parse zero t = none
parse (suc n) t = elim (split_at 13 10 t) [
  | none ↦ none
  | some ([], body) ↦ some ([], body)
  | some (c ∷ l, rest) ↦ elim (split_at 58 32 (c ∷ l)) [
    | none ↦ none
    | some h ↦ elim (parse n rest) [ none ↦ none | some (hs, body) ↦ some (h ∷ hs, body) ]
  ]
]

abbrev pub lacks : ℕ → Text → Bool
lacks a [] = true
lacks a (c ∷ cs) = not (nat_beq c a) && lacks a cs

split_at-lacks :
    (a b : ℕ) (l r : Text) → lacks a l ≡ true → split_at a b (l ++ a ∷ b ∷ r) ≡ some (l, r)
split_at-lacks a b [] r h = ground (arith, nat_beq_iff a a, nat_beq_iff b b)
split_at-lacks a b (c ∷ []) r h = ground (arith, h, split_at-lacks a b [] r refl)
split_at-lacks a b (c ∷ d ∷ l) r h = ground (arith, h, split_at-lacks a b (d ∷ l) r)

lacks-append : (a : ℕ) (xs ys : Text) → lacks a (xs ++ ys) ≡ (lacks a xs && lacks a ys)
lacks-append a [] ys = refl
lacks-append a (x ∷ xs) ys = ground (arith, lacks-append a xs ys)

-- A header that a line can hold: the key is not empty and has no colon, and there is no CR.
abbrev pub is_clean : Text × Text → Bool
is_clean ([], value) = false
is_clean (c ∷ key, value) = lacks 58 (c ∷ key) && lacks 13 (c ∷ key) && lacks 13 value

abbrev pub all_clean : Headers → Bool
all_clean [] = true
all_clean (h ∷ hs) = is_clean h && all_clean hs

-- a header without the end of its line
abbrev field_text : Text × Text → Text
field_text (key, value) = key ++ 58 ∷ 32 ∷ value

line-field_text :
    (h : Text × Text) (rest : Text) → header_line h ++ rest ≡ field_text h ++ 13 ∷ 10 ∷ rest
line-field_text (key, value) rest = simp (append_assoc)

field_text-lacks : (h : Text × Text) → is_clean h ≡ true → lacks 13 (field_text h) ≡ true
field_text-lacks ([], value) q = cc q
field_text-lacks (c ∷ key, value) q = ground (arith, q, lacks-append 13 (c ∷ key) (58 ∷ 32 ∷ value))

parse-split :
    (n c : ℕ) (t l rest : Text) (h : Text × Text) (hs : Headers) (body : Text)
    → split_at 13 10 t ≡ some (c ∷ l, rest)
    → split_at 58 32 (c ∷ l) ≡ some h
    → parse n rest ≡ some (hs, body)
    → parse (suc n) t ≡ some (h ∷ hs, body)
parse-split n c t l rest h hs body p q r = rw (parse, p) (rw (q) (rw (r)))

parse-line :
    (n : ℕ) (h : Text × Text) (rest : Text) (hs : Headers) (body : Text)
    → is_clean h ≡ true
    → parse n rest ≡ some (hs, body)
    → parse (suc n) (header_line h ++ rest) ≡ some (h ∷ hs, body)
parse-line n ([], value) rest hs body q p = cc q
parse-line n (c ∷ key, value) rest hs body q p =
    let h : Text × Text = (c ∷ key, value) in
    parse-split n c (header_line h ++ rest) (key ++ 58 ∷ 32 ∷ value) rest h hs body
      (ap (split_at 13 10) (line-field_text h rest)
        ∙ split_at-lacks 13 10 (field_text h) rest (field_text-lacks h q))
      (split_at-lacks 58 32 (c ∷ key) value (ground (arith, q))) p

parse-message :
    (n : ℕ) (hs : Headers) (body : Text)
    → all_clean hs ≡ true
    → ltb (length hs) n ≡ true
    → parse n (message hs body) ≡ some (hs, body)
unfolding message
parse-message zero hs body q f = ground (arith, f)
parse-message (suc n) [] body q f = refl
parse-message (suc n) (h ∷ hs) body q f =
    parse-line n h (message hs body) hs body (ground (arith, q))
      (parse-message n hs body (ground (arith, q)) (ground (arith, f)))

-- A mail whose sender, recipient and subject have no CR is read back, whatever the order of the range,
-- as the four headers with their values, and then the body, whatever it is.
pub parse-mail_of :
    (m : Mailer) (order : Headers → Headers) (to subject body : Text)
    → ((hs : Headers) → (all_clean (order hs) ≡ all_clean hs) × (length (order hs) ≡ length hs))
    → lacks 13 m.from ≡ true
    → lacks 13 to ≡ true
    → lacks 13 subject ≡ true
    → parse 5 (mail_of m order to subject body).content ≡ some (order (headers m to subject), body)
unfolding mail_of headers
parse-mail_of m order to subject body law f t s =
    let hs = headers m to subject in
    parse-message 5 (order hs) body ((law hs).0 ∙ ground (arith, f, t, s))
      (ground (arith, (law hs).1))
