-- ===== src/HttpServer/Listener/Combined.antt =====
-- The file that CertFile names.
use goblocks.Prelude.Text.{Text}
use goblocks.Prelude.Eq.{==_refl, nat_eq, int_eq, string_eq}
use goblocks.Prelude.Map.{get, put, get-put}
use goblocks.Prelude.{
  ℕ, String, ◌≡◌, refl, ◌∙◌, ◌⊎◌, inl, inr, Option, none, some, List, [], ◌∷◌, ◌++◌, append-nil,
  append_assoc,
}
use mathlib.Core.Path.{subst}
use goblocks.HttpServer.Listener.{
  Config, Host, Platform, FileError, not_exist, failed, close_file, append_certificate,
  append_separator, append_ca, read_ca, ListenerError, Result, read_file, append_file, write_all,
  cert_file, from_certs, combine,
}

-- the texts of the writes, in order
abbrev joined : List (Text × (ℕ → ListenerError)) → Text
joined [] = []
joined ((b, wrap) ∷ ws) = b ++ joined ws

module _ (os : Platform) where
  -- the certificates that the server presents: its own, followed by the CA's if there is a CA file
  abbrev pub chain : Config → Host → Option Text
  chain t h = elim (read_file os h t.tls_ca) [
    | inl e ↦ get h.files t.tls_cert
    | inr ca ↦ elim (read_file os h t.tls_cert) [
      | inl e ↦ none
      | inr cert ↦ some (cert ++ (10 ∷ ca))
    ]
  ]

  -- If CertFile returns a name, the file of that name holds `text`.
  abbrev pub Holds : Option Text → Host × Result String → Type 0
  Holds text (end, inr name) = get end.files name ≡ text
  Holds text (end, inl e) = Unit

  get-append_file :
      (h : Host) (name : String) (old b : Text)
      → get h.files name ≡ some old
      → get (append_file os h name b).files name ≡ some (old ++ b)
  get-append_file h name old b q = get-put h.files name name _ ∙ rw (==_refl name, q) refl

  write_all-Holds :
      (h : Host) (name : String) (old : Text) (ws : List (Text × (ℕ → ListenerError)))
      → get h.files name ≡ some old
      → Holds (some (old ++ joined ws)) (write_all os h name ws)
  write_all-Holds h name old [] q =
      elim os.close_failure
        as (λ o.
          Holds (some (old ++ []))
            (elim o [ none ↦ (h, inr name) | some e ↦ (h, inl (close_file e)) ])) [
              | none ↦ rw (append-nil old) q
              | some e ↦ tt
            ]
  write_all-Holds h name old ((b, wrap) ∷ ws) q =
      elim (os.write_failure b)
        as (λ o. Holds (some (old ++ (b ++ joined ws))) (elim o [
          | none ↦ write_all os (append_file os h name b) name ws
          | some e ↦ (h, inl (wrap e))
        ])) [
          | some e ↦ tt
          | none ↦
              subst (λ text. Holds (some text) (write_all os (append_file os h name b) name ws))
                (append_assoc old b (joined ws))
                (write_all-Holds (append_file os h name b) name (old ++ b) ws
                  (get-append_file h name old b q))
        ]

  from_certs-Holds :
      (h : Host) (ca : Text) (r : FileError ⊎ Text)
      → Holds (elim r [ inl e ↦ none | inr cert ↦ some (cert ++ (10 ∷ ca)) ]) (from_certs os h ca r)
  from_certs-Holds h ca (inl e) = tt
  from_certs-Holds h ca (inr cert) =
      elim (os.create_temp h) as (λ c. Holds (some (cert ++ (10 ∷ ca))) (combine os h ca cert c)) [
        | inl e ↦ tt
        | inr name ↦
            subst (λ text. Holds (some text) (combine os h ca cert (inr name)))
              (rw (append-nil ca) refl)
              (write_all-Holds (record h { files = put h.files name [] }) name []
                ((cert, append_certificate) ∷ (10 ∷ [], append_separator) ∷ (ca, append_ca) ∷ [])
                (get-put h.files name name [] ∙ (rw (==_refl name))))
      ]

  -- If CertFile returns the name of a file, then it is one that holds the server certificate,
  -- followed by a newline and the CA certificate if the CA file exists.
  pub cert_file-Holds : (t : Config) (h : Host) → Holds (chain t h) (cert_file os t h)
  unfolding cert_file
  cert_file-Holds t h =
      elim (read_file os h t.tls_ca)
        as (λ r.
          Holds
            (elim r [
              | inl e ↦ get h.files t.tls_cert
              | inr ca ↦ elim (read_file os h t.tls_cert) [
                | inl e ↦ none
                | inr cert ↦ some (cert ++ (10 ∷ ca))
              ]
            ])
            (elim r [
              | inl not_exist ↦ (h, inr t.tls_cert)
              | inl (failed e) ↦ (h, inl (read_ca (failed e)))
              | inr ca ↦ from_certs os h ca (read_file os h t.tls_cert)
            ])) [
              | inl not_exist ↦ refl
              | inl (failed e) ↦ tt
              | inr ca ↦ from_certs-Holds h ca (read_file os h t.tls_cert)
            ]
