-- ===== src/HttpServer/Listener/Tests.antt =====
-- The listener tried out: a server with a CA, and one whose key is missing.
use goblocks.Prelude.Text.{Text}
use goblocks.Prelude.Eq.{nat_eq, int_eq, string_eq}
use goblocks.Prelude.Map.{get, put}
use goblocks.Prelude.{◌≡◌, refl, inl, inr, true, false, none, [], ◌∷◌}
use goblocks.HttpServer.Listener.{
  Config, Host, Platform, not_exist, read_key_pair, cert_file, new_server, init_listener,
  new_listener, prepare_tls_config, load, validate,
}
use goblocks.HttpServer.Listener.Certificates.{Opened, new_server-Opened}
use goblocks.HttpServer.Listener.Combined.{chain, Holds, cert_file-Holds}

-- Nothing fails, and a certificate is the text that it was read from.
abbrev os : Platform
os = record {
  Certificate = Text;
  read_failure = λ name. none;
  create_temp = λ h. inr "/tmp/1";
  write_failure = λ b. none;
  close_failure = none;
  listen_failure = λ port ports. none;
  decodes = λ b. true;
  x509_key_pair = λ cert key. inr cert;
  parses_certs = λ b. true;
}

abbrev config : Config
config = record {
  port = 443;
  use_tls = true;
  tls_cert = "cert";
  tls_key = "key";
  tls_ca = "ca";
  tls_use_client_cert = true;
  tls_client_ca = "ca";
  cors = false;
  domain = "";
}

abbrev host : Host
host = record { files = ("cert", 1 ∷ []) ∷ ("ca", 2 ∷ []) ∷ []; listening = [] }

abbrev with_key : Host
with_key = record host { files = put host.files "key" (3 ∷ []) }

-- The key is missing: the port stays taken.
leaks :
    ((new_server os config host).0.listening ≡ 443 ∷ [])
    × ((new_server os config host).1 ≡ inl (read_key_pair not_exist))
unfolding new_server init_listener new_listener cert_file prepare_tls_config load validate get put
leaks = (refl, refl)

new_server-Opened_example : Opened os config [] (new_server os config with_key)
new_server-Opened_example = new_server-Opened os config with_key

combined_certificate : Holds os (chain os config host) (cert_file os config host)
combined_certificate = cert_file-Holds os config host
