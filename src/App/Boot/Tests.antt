-- ===== src/App/Boot/Tests.antt =====
-- Run tried out: a service with a section in the configuration file, and a plain HTTP server.
use goblocks.Prelude.Text.{Text, codes}
use goblocks.Prelude.Eq.{◌==◌, nat_eq, int_eq, string_eq}
use goblocks.Prelude.Int.{pos}
use goblocks.Prelude.{ℕ, String, refl, inr, true, false, none, some, [], ◌∷◌, if◌then◌else◌}
use goblocks.Conftool.Fields.{text, int, no_more, leaf, syntax_error, parsed, Parsers}
use goblocks.App.Config.{Application}
use goblocks.App.Startup.{Factory}
use goblocks.HttpServer.Listener.{Config, Host, Platform}
use goblocks.App.Boot.{Process, run}
use goblocks.App.Boot.Booted.{Booted, run-Booted}

abbrev platform : Platform
platform = record {
  Certificate = Text;
  read_failure = λ name. none;
  create_temp = λ h. inr "/tmp/1";
  write_failure = λ b. none;
  close_failure = none;
  listen_failure = λ port ports. none;
  decodes = λ b. true;
  x509_key_pair = λ cert key. inr cert;
  parses_certs = λ b. true;
}

abbrev server : Config
server = record {
  port = 8080;
  use_tls = false;
  tls_cert = "";
  tls_key = "";
  tls_ca = "";
  tls_use_client_cert = false;
  tls_client_ca = "";
  cors = false;
  domain = "";
}

abbrev parsers : Parsers
parsers = record {
  parse_int = λ s. if s == "8080" then parsed (pos 8080) else syntax_error;
  parse_duration = λ s. none;
  parse_uint = λ s. none;
  parse_float = λ s. none;
  parse_bool = λ s. none;
}

-- a node is a text, and a section gives a struct its one field
abbrev process : Process String
process = record {
  maxprocs = none;
  getwd = inr (codes "/");
  config_file = codes "app.yaml";
  dir = λ name. codes ".";
  absolute = λ name. inr (codes "/app.yaml");
  read_file = λ name. inr (codes "shop: corner");
  getenv = λ name. [];
  unmarshal = λ doc. some (some ("shop" ∷ "corner" ∷ []));
  value = λ s. s;
  decode = λ s cfg.
      some (leaf "Name" (record { required = some "true"; default = none }) true (text s) no_more);
  new_registry = λ cfg. none;
  new_logger = λ cfg. none;
  new_sentry = λ cfg. none;
  http = λ cfg. server;
}

abbrev application : Application
application = record {
  cfg = record {
    typ = "app.Config";
    fields =
        leaf "Port" (record { required = none; default = some "8080" }) true (int 64 (pos 0))
          no_more;
  };
  service_defs =
      record {
        name = "shop";
        config = record {
          typ = "shop.Config";
          fields =
              leaf "Name" (record { required = some "true"; default = none }) true (text "")
                no_more;
        };
      }
      ∷ [];
}

abbrev factory : Factory ℕ
factory reg reporter = ([], inr 1)

abbrev host : Host
host = record { files = []; listening = [] }

run-Booted_example :
    Booted platform parsers process factory application host
      (run platform parsers process factory 3 application none host)
run-Booted_example =
    run-Booted platform parsers process factory application host 3 (λ reg reporter. refl)
