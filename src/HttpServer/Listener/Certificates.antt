-- ===== src/HttpServer/Listener/Certificates.antt =====
-- What the server listens with, and which sockets it leaves open.
use mathlib.Core.Path.{subst}
use goblocks.Prelude.Text.{Text}
use goblocks.Prelude.Eq.{◌==◌, nat_eq, int_eq, string_eq}
use goblocks.Prelude.Map.{get}
use goblocks.Prelude.{
  ℕ, String, ◌≡◌, refl, inl, ◌⊎◌, inr, Bool, true, false, not, ◌&&◌, none, some, List, [], ◌∷◌,
  arith, leb, if◌then◌else◌, Option, Bool-cases, Option-cases,
}
use goblocks.HttpServer.Listener.{
  FileError, not_exist, failed, read_file, Config, Host, Platform, ListenerError, domain_not_set,
  read_key_pair, decoded_pem_is_blank, bad_key_pair, failed_to_read_ca_certificate,
  failed_to_parse_ca_certificate, Result, request_client_cert, require_and_verify_client_cert,
  validate, append_file, write_all, cert_file, CertificateGetter, load, TlsConfig, ListenerConfig,
  setup_client_ca, prepare_tls_config, with_client_auth, Listener, plain, tls, new_listener,
  listener_config, listener_from, init_listener, new_server,
}

-- the errors that come after the port is taken
abbrev pub is_late : ListenerError → Bool
is_late (read_key_pair e) = true
is_late decoded_pem_is_blank = true
is_late (bad_key_pair e) = true
is_late failed_to_read_ca_certificate = true
is_late failed_to_parse_ca_certificate = true
is_late _ = false

module _ (os : Platform) where
  -- The pool of client certificates: the contents of the file `ca`, if one is to be read, and no pool
  -- otherwise.
  abbrev pub ClientCas : Host → Bool → String → Option Text → Type 0
  ClientCas h true ca cas =
      (pem : Text) × (get h.files ca ≡ some pem) × (os.parses_certs pem ≡ true) × (cas ≡ some pem)
  ClientCas h false ca cas = cas ≡ none

  -- The certificate is made of the contents of its file and of the file `key`.
  abbrev pub Loaded : Host → String → CertificateGetter os → Type 0
  Loaded h key cg =
      (cert_block key_block : Text) × (k : os.Certificate) × (get h.files cg.cert_file_name
        ≡ some cert_block)
      × (get h.files key ≡ some key_block)
      × (os.x509_key_pair cert_block key_block ≡ inr k)
      × (cg.cert ≡ some k)

  -- TLS 1.2 or 1.3 with the certificate loaded; clients are verified just when they have to be,
  -- against the contents of the CA file `ca` if one is named.
  abbrev pub Safe : Host → String → Bool → String → TlsConfig os → Type 0
  Safe h key use_client_cert ca c =
      (leb 771 c.min_version ≡ true)
      × (leb c.max_version 772 ≡ true)
      × Loaded h key c.certificates
      × (c.client_auth
          ≡ (if use_client_cert then require_and_verify_client_cert else request_client_cert))
      × ClientCas h (use_client_cert && not (ca == "")) ca c.client_cas

  -- A server without TLS is plain; one with TLS is safe, with the key and the client CA that the
  -- configuration names, as the host's files hold them.
  abbrev pub Secured : Config → Host → Listener os → Type 0
  Secured cfg h (plain port) = (cfg.use_tls ≡ false) × (port ≡ cfg.port)
  Secured cfg h (tls port c) =
      (cfg.use_tls ≡ true)
      × (port ≡ cfg.port)
      × Safe h cfg.tls_key cfg.tls_use_client_cert cfg.tls_client_ca c

  abbrev pub Opened : Config → List ℕ → Host × Result (Listener os) → Type 0
  Opened cfg ports (end, inr l) = (end.listening ≡ cfg.port ∷ ports) × Secured cfg end l
  Opened cfg ports (end, inl e) = end.listening ≡ (if is_late e then cfg.port ∷ ports else ports)

  write_all-listening :
      (h : Host) (name : String) (ws : List (Text × (ℕ → ListenerError)))
      → (write_all os h name ws).0.listening ≡ h.listening
  write_all-listening h name [] = ground arith
  write_all-listening h name ((b, wrap) ∷ ws) =
      ground (arith, write_all-listening (append_file os h name b) name ws)

  -- A file that is read stands there.
  read_file-cases :
      (h : Host) (name : String)
      → ((e : FileError) × (read_file os h name ≡ inl e))
        ⊎ ((b : Text) × (read_file os h name ≡ inr b) × (get h.files name ≡ some b))
  read_file-cases h name = elim (Option-cases (get h.files name)) [
    | inl g ↦ inl (not_exist, (rw (read_file, g) refl))
    | inr (b, g) ↦ elim (Option-cases (os.read_failure name)) [
      | inl f ↦ inr (b, (rw (read_file, g, f) refl), g)
      | inr (e, f) ↦ inl (failed e, (rw (read_file, g, f) refl))
    ]
  ]

  -- a loaded certificate of the files `cert` and `key`, or an error that comes late
  abbrev LoadedFrom : Host → String → String → Result (CertificateGetter os) → Type 0
  LoadedFrom h cert key (inl e) = is_late e ≡ true
  LoadedFrom h cert key (inr cg) = Loaded h key cg

  key_pair-LoadedFrom :
      (cg : CertificateGetter os) (h : Host) (cert_block key_block : Text)
      → get h.files cg.cert_file_name ≡ some cert_block
      → get h.files cg.key_file_name ≡ some key_block
      → (r : ℕ ⊎ os.Certificate) → os.x509_key_pair cert_block key_block ≡ r
      → LoadedFrom h cg.cert_file_name cg.key_file_name
          (elim r [ inl e ↦ inl (bad_key_pair e) | inr c ↦ inr (record cg { cert = some c }) ])
  key_pair-LoadedFrom cg h cert_block key_block g k (inl e) x = refl
  key_pair-LoadedFrom cg h cert_block key_block g k (inr c) x =
      (cert_block, key_block, c, g, k, x, refl)

  load-LoadedFrom :
      (cg : CertificateGetter os) (h : Host)
      → LoadedFrom h cg.cert_file_name cg.key_file_name (load os cg h)
  unfolding load
  load-LoadedFrom cg h = elim (read_file-cases h cg.cert_file_name) [
    | inl (e, r) ↦ rw (load, r) refl
    | inr (cert_block, r, g) ↦ elim (read_file-cases h cg.key_file_name) [
      | inl (e, s) ↦ rw (load, r, s) refl
      | inr (key_block, s, k) ↦ elim (Bool-cases (os.decodes key_block)) [
        | inl d ↦
            rw (load, r, s, d)
              (key_pair-LoadedFrom cg h cert_block key_block g k
                (os.x509_key_pair cert_block key_block) refl)
        | inr d ↦ rw (load, r, s, d) refl
      ]
    ]
  ]

  cert_file-listening : (t : Config) (h : Host) → (cert_file os t h).0.listening ≡ h.listening
  unfolding cert_file
  cert_file-listening t h = grind (arith, write_all-listening)

  abbrev Prepared : ListenerConfig → Host → Result (TlsConfig os) → Type 0
  Prepared l h (inl e) = is_late e ≡ true
  Prepared l h (inr c) = Safe h l.tls_key_file l.tls_use_client_cert l.tls_client_ca_file c

  setup_client_ca-Prepared :
      (l : ListenerConfig) (h : Host) (c : TlsConfig os)
      → leb 771 c.min_version ≡ true
      → leb c.max_version 772 ≡ true
      → Loaded h l.tls_key_file c.certificates
      → c.client_cas ≡ none
      → l.tls_use_client_cert ≡ true
      → Prepared l h (setup_client_ca os c l h)
  unfolding setup_client_ca
  setup_client_ca-Prepared l h c low high loaded empty needed =
      elim (Bool-cases (l.tls_client_ca_file == "")) [
        | inl q ↦ rw (setup_client_ca, q, needed) (low, high, loaded, refl, (rw (q) empty))
        | inr q ↦ elim (read_file-cases h l.tls_client_ca_file) [
          | inl (e, r) ↦ rw (setup_client_ca, q, r) refl
          | inr (pem, r, g) ↦ elim (Bool-cases (os.parses_certs pem)) [
            | inl s ↦
                rw (setup_client_ca, q, r, s, needed)
                  (low, high, loaded, refl, (rw (q) (pem, g, s, refl)))
            | inr s ↦ rw (setup_client_ca, q, r, s) refl
          ]
        ]
      ]

  if_used-Prepared :
      (l : ListenerConfig) (h : Host) (c : TlsConfig os) (b : Bool)
      → leb 771 c.min_version ≡ true
      → leb c.max_version 772 ≡ true
      → Loaded h l.tls_key_file c.certificates
      → c.client_auth ≡ request_client_cert
      → c.client_cas ≡ none
      → l.tls_use_client_cert ≡ b
      → Prepared l h (if b then setup_client_ca os c l h else inr c)
  if_used-Prepared l h c true low high loaded only empty needed =
      setup_client_ca-Prepared l h c low high loaded empty needed
  if_used-Prepared l h c false low high loaded only empty needed =
      rw needed (low, high, loaded, only, empty)

  with_client_auth-Prepared :
      (l : ListenerConfig) (h : Host) (cg : CertificateGetter os)
      → Loaded h l.tls_key_file cg
      → Prepared l h (with_client_auth os l h cg)
  unfolding with_client_auth
  with_client_auth-Prepared l h cg loaded =
      let c : TlsConfig os = record {
        min_version = 771;
        max_version = 772;
        certificates = cg;
        client_auth = request_client_cert;
        client_cas = none;
      } in
      if_used-Prepared l h c l.tls_use_client_cert refl refl loaded refl refl refl

  loaded-Prepared :
      (l : ListenerConfig) (h : Host) (r : Result (CertificateGetter os))
      → LoadedFrom h l.tls_cert_file l.tls_key_file r
      → Prepared l h (elim r [ inl e ↦ inl e | inr cg ↦ with_client_auth os l h cg ])
  loaded-Prepared l h (inl e) q = q
  loaded-Prepared l h (inr cg) q = with_client_auth-Prepared l h cg q

  prepare_tls_config-Prepared :
      (l : ListenerConfig) (h : Host) → Prepared l h (prepare_tls_config os l h)
  unfolding prepare_tls_config
  prepare_tls_config-Prepared l h =
      let cg : CertificateGetter os = record {
        cert = none;
        cert_file_name = l.tls_cert_file;
        key_file_name = l.tls_key_file;
      } in
      loaded-Prepared l h (load os cg h) (load-LoadedFrom cg h)

  abbrev bind : Config → Host → Host
  bind cfg h = record h { listening = cfg.port ∷ h.listening }

  Prepared-Opened :
      (cfg : Config) (h : Host) (cert : String) (r : Result (TlsConfig os))
      → Prepared (listener_config cfg cert) (bind cfg h) r
      → cfg.use_tls ≡ true
      → Opened cfg h.listening
          (elim r [ inl e ↦ (bind cfg h, inl e) | inr c ↦ (bind cfg h, inr (tls cfg.port c)) ])
  Prepared-Opened cfg h cert (inl e) p q = rw p refl
  Prepared-Opened cfg h cert (inr c) p q = (refl, (q, refl, p))

  bind-Opened :
      (cfg : Config) (h : Host) (cert : String) (b : Bool)
      → cfg.use_tls ≡ b
      → Opened cfg h.listening (
          if b
          then elim (prepare_tls_config os (listener_config cfg cert) (bind cfg h)) [
            | inl e ↦ (bind cfg h, inl e)
            | inr c ↦ (bind cfg h, inr (tls cfg.port c))
          ]
          else (bind cfg h, inr (plain cfg.port)))
  bind-Opened cfg h cert true q =
      let l = listener_config cfg cert in
      Prepared-Opened cfg h cert (prepare_tls_config os l (bind cfg h))
        (prepare_tls_config-Prepared l (bind cfg h)) q
  bind-Opened cfg h cert false q = (refl, (q, refl))

  new_listener-Opened :
      (cfg : Config) (h : Host) (cert : String)
      → Opened cfg h.listening (new_listener os (listener_config cfg cert) h)
  unfolding new_listener
  new_listener-Opened cfg h cert = elim (Option-cases (os.listen_failure cfg.port h.listening)) [
    | inr (e, q) ↦ rw (new_listener, q) refl
    | inl q ↦ rw (new_listener, q) (bind-Opened cfg h cert cfg.use_tls refl)
  ]

  -- whether an error of CertFile is not one of those that come after the port is taken
  abbrev is_early : Result String → Bool
  is_early (inl e) = not (is_late e)
  is_early (inr name) = true

  listener_from-Opened :
      (cfg : Config) (h : Host) (found : Host × Result String)
      → is_early found.1 ≡ true
      → found.0.listening ≡ h.listening
      → Opened cfg h.listening (listener_from os cfg found)
  listener_from-Opened cfg ports (end, inl e) early q = ground (arith, early, q)
  listener_from-Opened cfg h (end, inr cert) early q =
      subst (λ ports. Opened cfg ports (new_listener os (listener_config cfg cert) end)) q
        (new_listener-Opened cfg end cert)

  cert_file-is_early : (t : Config) (h : Host) → is_early (cert_file os t h).1 ≡ true
  unfolding cert_file
  cert_file-is_early t h = grind (arith)

  init_listener-Opened : (cfg : Config) (h : Host) → Opened cfg h.listening (init_listener os cfg h)
  unfolding init_listener
  init_listener-Opened cfg h =
      elim cfg.use_tls
        as (λ b. Opened cfg h.listening (
          if b
          then listener_from os cfg (cert_file os cfg h)
          else new_listener os (listener_config cfg "") h)) [
            | true ↦
                listener_from-Opened cfg h (cert_file os cfg h) (cert_file-is_early cfg h)
                  (cert_file-listening cfg h)
            | false ↦ new_listener-Opened cfg h ""
          ]

  -- NewServer's listener. If it returns one, the port is taken; without TLS it is plain, and with TLS
  -- it speaks TLS 1.2 or 1.3, its certificate is made of the contents of the file that its
  -- CertificateGetter names and of the key file of the configuration, and it verifies clients just when
  -- the configuration says so, against the contents of the client CA file if one is named. If it
  -- returns an error, the port is still taken when the error came from the certificates of a listener
  -- that was opened before, and not otherwise.
  pub new_server-Opened : (cfg : Config) (h : Host) → Opened cfg h.listening (new_server os cfg h)
  unfolding new_server validate
  new_server-Opened cfg h =
      elim (cfg.cors && (cfg.domain == ""))
        as (λ b. Opened cfg h.listening (elim (if b then some domain_not_set else none) [
          | none ↦ init_listener os cfg h
          | some e ↦ (h, inl e)
        ])) [ true ↦ refl | false ↦ init_listener-Opened cfg h ]
