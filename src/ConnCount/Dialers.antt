-- ===== src/ConnCount/Dialers.antt =====
-- conncount/transport.go, NewTransport: which dialers it wraps. The transport is the one that was
-- passed, whose fields it changes; a function is named by a number.
use goblocks.Prelude.{ℕ, ◌≡◌, Option, none, some, arith}

pub data Dialer : Type 0 where
  -- DialContext or DialTLSContext of the transport
  given : ℕ → Dialer
  -- Dial or DialTLS, whose context is dropped
  without_context : ℕ → Dialer
  -- DialContext of a zero net.Dialer
  default_dialer : Dialer
  -- what dialWithCounter makes of a dialer
  with_counter : Dialer → Dialer

-- the dialers of http.Transport
pub record HttpTransport : Type 0 where
  pub dial_context : Option Dialer
  pub dial : Option ℕ
  pub dial_tls_context : Option Dialer
  pub dial_tls : Option ℕ

-- getPreviousDialer
pub get_previous_dialer : HttpTransport → Dialer
get_previous_dialer t = elim t.dial_context [
  | some d ↦ d
  | none ↦ elim t.dial [ some f ↦ without_context f | none ↦ default_dialer ]
]

-- getPreviousTLSDialer
pub get_previous_tls_dialer : HttpTransport → Option Dialer
get_previous_tls_dialer t = elim t.dial_tls_context [
  | some d ↦ some d
  | none ↦ elim t.dial_tls [ some f ↦ some (without_context f) | none ↦ none ]
]

-- dialWithCounter, which leaves nil as it is
pub dial_with_counter : Option Dialer → Option Dialer
dial_with_counter none = none
dial_with_counter (some d) = some (with_counter d)

-- NewTransport's changes of the transport
pub wrap_dialers : HttpTransport → HttpTransport
unfolding get_previous_dialer get_previous_tls_dialer dial_with_counter
wrap_dialers t = record t {
  dial_context = dial_with_counter (some (get_previous_dialer t));
  dial_tls_context = dial_with_counter (get_previous_tls_dialer t);
}

-- The dialer of a TLS connection: http.Transport uses DialContext if it has no dialer for TLS.
abbrev tls_dialer : HttpTransport → Dialer
tls_dialer t = elim (get_previous_tls_dialer t) [ some d ↦ d | none ↦ get_previous_dialer t ]

-- After NewTransport each dialer is the one before with the counter around it, for TLS as well.
wrap_dialers_lem :
    (t : HttpTransport)
    → (get_previous_dialer (wrap_dialers t) ≡ with_counter (get_previous_dialer t))
      × (tls_dialer (wrap_dialers t) ≡ with_counter (tls_dialer t))
unfolding wrap_dialers get_previous_dialer get_previous_tls_dialer dial_with_counter
wrap_dialers_lem t = ground arith
