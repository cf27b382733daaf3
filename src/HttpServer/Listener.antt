-- ===== src/HttpServer/Listener.antt =====
-- httpserver/config.go and httpserver/tls.go, with the part of NewServer and Run of httpserver/http.go
-- that depends on the listener. The file system is a map of the files' contents, and the operating
-- system (with crypto/tls, crypto/x509 and encoding/pem) a record of parameters. An error of theirs is
-- a number.
pub mod Certificates
pub mod Combined
mod Tests
use goblocks.Prelude.Text.{Text}
use goblocks.Prelude.Eq.{◌==◌, nat_eq, int_eq, string_eq}
use goblocks.Prelude.Map
use goblocks.Prelude.Map.{Map, get, put}
use goblocks.Prelude.{
  ℕ, String, ◌⊎◌, inl, inr, Bool, ◌&&◌, Option, none, some, List, [], ◌∷◌, ◌++◌, if◌then◌else◌,
}

-- Config, as far as the listener and Validate depend on it.
pub record Config : Type 0 where
  pub port : ℕ
  pub use_tls : Bool
  pub tls_cert : String
  pub tls_key : String
  pub tls_ca : String
  pub tls_use_client_cert : Bool
  pub tls_client_ca : String
  pub cors : Bool
  pub domain : String

-- The files, and the ports that sockets of this process listen on.
pub record Host : Type 0 where
  pub files : Map String Text
  pub listening : List ℕ

-- What the operating system and Go's packages answer.
pub record Platform : Type 1 where
  pub Certificate : Type 0
  -- the failure of os.ReadFile for a file that exists
  pub read_failure : String → Option ℕ
  -- os.CreateTemp: the new name, or the failure
  pub create_temp : Host → (ℕ ⊎ String)
  pub write_failure : Text → Option ℕ
  pub close_failure : Option ℕ
  -- net.Listen
  pub listen_failure : ℕ → List ℕ → Option ℕ
  -- pem.Decode finds a block
  pub decodes : Text → Bool
  -- tls.X509KeyPair
  pub x509_key_pair : Text → Text → (ℕ ⊎ Certificate)
  -- AppendCertsFromPEM on an empty pool
  pub parses_certs : Text → Bool

pub data FileError : Type 0 where
  not_exist : FileError
  failed : ℕ → FileError

pub data ListenerError : Type 0 where
  domain_not_set : ListenerError
  read_ca read_server_certificate : FileError → ListenerError
  create_temp_file append_certificate append_separator append_ca close_file : ℕ → ListenerError
  listener_failed : ℕ → ListenerError
  read_key_pair : FileError → ListenerError
  decoded_pem_is_blank nil_certificate : ListenerError
  bad_key_pair : ℕ → ListenerError
  failed_to_read_ca_certificate failed_to_parse_ca_certificate : ListenerError

abbrev pub Result {ℓ} : Type ℓ → Type ℓ
Result A = ListenerError ⊎ A

pub data ClientAuth : Type 0 where
  request_client_cert require_and_verify_client_cert : ClientAuth

pub record ListenerConfig : Type 0 where
  pub address : ℕ
  pub tls_enabled : Bool
  pub tls_cert_file : String
  pub tls_key_file : String
  pub tls_use_client_cert : Bool
  pub tls_client_ca_file : String

abbrev pub listener_config : Config → String → ListenerConfig
listener_config cfg cert = record {
  address = cfg.port;
  tls_enabled = cfg.use_tls;
  tls_cert_file = cert;
  tls_key_file = cfg.tls_key;
  tls_use_client_cert = cfg.tls_use_client_cert;
  tls_client_ca_file = cfg.tls_client_ca;
}

-- Validate
unfoldable pub validate : Config → Option ListenerError
validate t = if t.cors && (t.domain == "") then some domain_not_set else none

module _ (os : Platform) where
  abbrev pub read_file : Host → String → (FileError ⊎ Text)
  read_file h name = elim (get h.files name) [
    | none ↦ inl not_exist
    | some bytes ↦ elim (os.read_failure name) [ none ↦ inr bytes | some e ↦ inl (failed e) ]
  ]

  -- f.Write: what was written before stays in the file
  abbrev pub append_file : Host → String → Text → Host
  append_file h name bytes = record h {
    files = put h.files name (elim (get h.files name) [ none ↦ bytes | some b ↦ b ++ bytes ]);
  }

  -- The writes of CertFile, with the error that each would give, and its Close.
  abbrev pub write_all : Host → String → List (Text × (ℕ → ListenerError)) → Host × Result String
  write_all h name [] = elim os.close_failure [
    | none ↦ (h, inr name)
    | some e ↦ (h, inl (close_file e))
  ]
  write_all h name ((bytes, wrap) ∷ rest) =
      let written = write_all (append_file h name bytes) name rest in
      elim (os.write_failure bytes) [ none ↦ written | some e ↦ (h, inl (wrap e)) ]

  -- CertFile, from the outcome of CreateTemp on
  abbrev pub combine : Host → Text → Text → (ℕ ⊎ String) → Host × Result String
  combine h ca cert (inl e) = (h, inl (create_temp_file e))
  combine h ca cert (inr name) =
      write_all (record h { files = put h.files name [] }) name
        ((cert, append_certificate) ∷ (10 ∷ [], append_separator) ∷ (ca, append_ca) ∷ [])

  -- CertFile, from the outcome of reading the server's certificate on
  abbrev pub from_certs : Host → Text → (FileError ⊎ Text) → Host × Result String
  from_certs h ca (inl e) = (h, inl (read_server_certificate e))
  from_certs h ca (inr cert) = combine h ca cert (os.create_temp h)

  -- CertFile
  pub cert_file : Config → Host → Host × Result String
  cert_file t h = elim (read_file h t.tls_ca) [
    | inl not_exist ↦ (h, inr t.tls_cert)
    | inl (failed e) ↦ (h, inl (read_ca (failed e)))
    | inr ca ↦ from_certs h ca (read_file h t.tls_cert)
  ]

  -- CertificateGetter; `cert` is nil until it is loaded
  pub record CertificateGetter : Type 0 where
    pub cert : Option os.Certificate
    pub cert_file_name : String
    pub key_file_name : String

  -- Load
  pub load : CertificateGetter → Host → Result CertificateGetter
  load cg h = elim (read_file h cg.cert_file_name) [
    | inl e ↦ inl (read_key_pair e)
    | inr cert_block ↦ elim (read_file h cg.key_file_name) [
      | inl e ↦ inl (read_key_pair e)
      | inr key_block ↦
          if os.decodes key_block
          then elim (os.x509_key_pair cert_block key_block) [
            | inl e ↦ inl (bad_key_pair e)
            | inr c ↦ inr (record cg { cert = some c })
          ]
          else inl decoded_pem_is_blank
    ]
  ]

  -- GetCertificate
  pub get_certificate : CertificateGetter → Result os.Certificate
  get_certificate cg = elim cg.cert [ none ↦ inl nil_certificate | some c ↦ inr c ]

  -- tls.Config: versions as Go numbers them; `client_cas` is the PEM text of the pool
  pub record TlsConfig : Type 0 where
    pub min_version : ℕ
    pub max_version : ℕ
    pub certificates : CertificateGetter
    pub client_auth : ClientAuth
    pub client_cas : Option Text

  -- setupClientCA
  pub setup_client_ca : TlsConfig → ListenerConfig → Host → Result TlsConfig
  setup_client_ca c l h =
      let required = record c { client_auth = require_and_verify_client_cert } in
      if l.tls_client_ca_file == "" then inr required else elim (read_file h l.tls_client_ca_file) [
        | inl e ↦ inl failed_to_read_ca_certificate
        | inr pem ↦
            if os.parses_certs pem
            then inr (record required { client_cas = some pem })
            else inl failed_to_parse_ca_certificate
      ]

  -- prepareTLSConfig, once the certificate is loaded
  pub with_client_auth : ListenerConfig → Host → CertificateGetter → Result TlsConfig
  unfolding setup_client_ca
  with_client_auth l h cg =
      let c : TlsConfig = record {
        min_version = 771;
        max_version = 772;
        certificates = cg;
        client_auth = request_client_cert;
        client_cas = none;
      } in
      if l.tls_use_client_cert then setup_client_ca c l h else inr c

  -- prepareTLSConfig
  pub prepare_tls_config : ListenerConfig → Host → Result TlsConfig
  unfolding load with_client_auth
  prepare_tls_config l h =
      elim (load
        (record { cert = none; cert_file_name = l.tls_cert_file; key_file_name = l.tls_key_file })
        h) [ inl e ↦ inl e | inr cg ↦ with_client_auth l h cg ]

  pub data Listener : Type 0 where
    plain : ℕ → Listener
    tls : ℕ → TlsConfig → Listener

  -- newListener: the port is taken before the TLS configuration is prepared
  pub new_listener : ListenerConfig → Host → Host × Result Listener
  unfolding prepare_tls_config
  new_listener l h = elim (os.listen_failure l.address h.listening) [
    | some e ↦ (h, inl (listener_failed e))
    | none ↦
        let bound = record h { listening = l.address ∷ h.listening } in
        if l.tls_enabled
        then elim (prepare_tls_config l bound) [
          | inl e ↦ (bound, inl e)
          | inr c ↦ (bound, inr (tls l.address c))
        ]
        else (bound, inr (plain l.address))
  ]

  -- what InitListener does with the outcome of CertFile
  abbrev pub listener_from : Config → Host × Result String → Host × Result Listener
  listener_from cfg (h, inl e) = (h, inl e)
  listener_from cfg (h, inr cert) = new_listener (listener_config cfg cert) h

  -- InitListener
  pub init_listener : Config → Host → Host × Result Listener
  unfolding cert_file new_listener
  init_listener cfg h =
      if cfg.use_tls
      then listener_from cfg (cert_file cfg h)
      else new_listener (listener_config cfg "") h

  -- NewServer as far as it can fail
  pub new_server : Config → Host → Host × Result Listener
  unfolding init_listener
  new_server cfg h = elim (validate cfg) [ none ↦ init_listener cfg h | some e ↦ (h, inl e) ]
