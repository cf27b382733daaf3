-- ===== src/Logger/Gathering.antt =====
-- What log/logger.go hands to zap, directly and in one-line mode.
use goblocks.Prelude.Eq.{◌==◌, nat_eq, int_eq, string_eq}
use goblocks.Prelude.Int.{ℤ, pos, int_beq, negsuc, ◌≤ℤ◌, ltb_ℤ}
use goblocks.Prelude.{
  String, ◌≡◌, refl, ◌∙◌, ◌⊎◌, inl, inr, Bool, true, false, not, ◌||◌, none, some, Bool-cases, List,
  [], ◌∷◌, ◌++◌, arith, if◌then◌else◌, All,
}
use mathlib.Core.List.{append-nil, append_assoc}
use goblocks.Logger.{
  Level, debug, dpanic, level_value, zero_level, Field, Entry, Logger, direct_log, is_message,
  gather, log, flush, new, is_final,
}
use goblocks.Logger.Convert.{convert}

pub record Call : Type 0 where
  pub level : ℤ
  pub message : String
  pub fields : List Field

-- A sequence of calls, with all that is handed to zap.
unfoldable pub log_all : Logger → List Call → Logger × List Entry
log_all l [] = (l, [])
log_all l (c ∷ cs) =
    let (l', es) = log l c.level c.message c.fields in
    let (l'', fs) = log_all l' cs in (l'', es ++ fs)

abbrev pub is_dpanic : Level → Bool
is_dpanic dpanic = true
is_dpanic _ = false

-- Outside the one-line mode a call at any level hands exactly one entry to zap, with its level,
-- message and fields, but one at the level DPanic hands none; the logger does not change.
pub log_direct :
    (l : Logger) (v : Level) (msg : String) (fields : List Field)
    → l.oneline ≡ false
    → log l (level_value v) msg fields ≡ (
      l,
      if is_dpanic v
          then []
          else record { level = level_value v; message = msg; fields = fields } ∷ [],
    )
unfolding log level_value
log_direct l debug msg fields h = rw (h, log)
log_direct l _ msg fields h = rw (h, log)

-- A call with a message, at a level from Debug on, with no MainMessage among its fields, and with
-- fields on which convert does not panic.
pub record IsPlain (c : Call) : Type 0 where
  pub has_message : (c.message == "") ≡ false
  pub at_level : negsuc 0 ≤ℤ c.level
  pub no_main : All (λ (f : Field). is_message f.typ ≡ false) c.fields
  pub converted : elim (convert c.fields) [ none ↦ false | some zs ↦ true ] ≡ true

-- The level and message of the first call at the highest level, from the given ones on.
abbrev pub main_call : ℤ → String → List Call → ℤ × String
main_call level msg [] = (level, msg)
main_call level msg (c ∷ cs) =
    main_call (if ltb_ℤ level c.level then c.level else level)
      (if ltb_ℤ level c.level then c.message else msg) cs

-- The fields of the calls that are at least as high as every call before them.
abbrev pub kept_fields : ℤ → List Call → List Field
kept_fields level [] = []
kept_fields level (c ∷ cs) =
    (if ltb_ℤ c.level level then [] else c.fields)
    ++ kept_fields (if ltb_ℤ level c.level then c.level else level) cs

gather_plain :
    (msg message : String) (held fs : List Field)
    → All (λ (f : Field). is_message f.typ ≡ false) fs
    → gather msg message held fs ≡ (message, held ++ fs)
unfolding gather
gather_plain msg message held [] a = rw append-nil
gather_plain msg message held (f ∷ fs) a =
    rw (a.0, gather) (gather_plain msg message (held ++ f ∷ []) fs a.1 ∙ (rw append_assoc))

-- One call on a logger in one-line mode.
log_plain :
    (l : Logger) (c : Call)
    → l.oneline ≡ true
    → IsPlain c
    → (l.message == "") ≡ false ⊎ (l.level ≡ zero_level)
    → log l c.level c.message c.fields ≡ (
      record l {
        level = if ltb_ℤ l.level c.level then c.level else l.level;
        message = if ltb_ℤ l.level c.level then c.message else l.message;
        fields = l.fields ++ (if ltb_ℤ c.level l.level then [] else c.fields);
      },
      [],
    )
unfolding log
log_plain l c h p m =
    ground
      (arith, gather_plain c.message l.message l.fields c.fields p.no_main, append-nil l.fields)

abbrev raised : Logger → Call → Logger
raised l c = record l {
  level = if ltb_ℤ l.level c.level then c.level else l.level;
  message = if ltb_ℤ l.level c.level then c.message else l.message;
  fields = l.fields ++ (if ltb_ℤ c.level l.level then [] else c.fields);
}

abbrev gathered : Logger → List Call → Logger
gathered l cs = record l {
  level = (main_call l.level l.message cs).0;
  message = (main_call l.level l.message cs).1;
  fields = l.fields ++ kept_fields l.level cs;
}

log_all_plain :
    (l : Logger) (cs : List Call)
    → l.oneline ≡ true
    → (l.message == "") ≡ false
    → All IsPlain cs
    → log_all l cs ≡ (gathered l cs, [])
unfolding log_all
log_all_plain l [] h m a = rw append-nil
log_all_plain l (c ∷ cs) h m a =
    let next = log_all_plain (raised l c) cs h (ground (arith, m, a.0.has_message)) a.1 in
    rw (log_plain l c h a.0 (inl m), log_all) (rw next (rw append_assoc))

-- The logger after a first call.
abbrev started : Call → Logger
started c = record {
  oneline = true;
  level = c.level;
  message = c.message;
  fields = c.fields;
  context = [];
}

log_first : (c : Call) → IsPlain c → log (new true) c.level c.message c.fields ≡ (started c, [])
unfolding log new
log_first c p = ground (arith, p.at_level, gather_plain c.message "" [] c.fields p.no_main)

main_call_message :
    (level : ℤ) (msg : String) (cs : List Call)
    → (msg == "") ≡ false
    → All IsPlain cs
    → ((main_call level msg cs).1 == "") ≡ false
main_call_message level msg [] m a = m
main_call_message level msg (c ∷ cs) m a =
    main_call_message (if ltb_ℤ level c.level then c.level else level)
      (if ltb_ℤ level c.level then c.message else msg) cs (ground (arith, m, a.0.has_message)) a.1

has_content_of_message :
    (b : Bool) (fs : List Field)
    → b ≡ false
    → elim fs as (λ x. Bool) [ [] ↦ not b | _ ∷ _ ↦ true ] ≡ true
has_content_of_message b [] h = rw h
has_content_of_message b (f ∷ fs) h = refl

flush_lem :
    (l : Logger)
    → l.oneline ≡ true
    → (l.message == "") ≡ false
    → flush l ≡ (
      if is_final l.level then l else record l { message = ""; level = zero_level; fields = [] },
      direct_log l.level l.message l.fields,
    )
unfolding flush
flush_lem l h m =
    rw (h, flush)
      (rw (has_content_of_message (l.message == "") l.fields m)
        (elim (Bool-cases (is_final l.level)) [ inl q ↦ rw (q) refl | inr q ↦ rw (q) refl ]))

-- In one-line mode a sequence of calls, each with a message, at a level from Debug on, with no
-- MainMessage and with fields on which convert does not panic, hands nothing to zap before Flush.
-- Flush hands one entry, or none at the level DPanic: its level and message are those of the first
-- call at the highest level, and its fields those of the calls at least as high as every call before
-- them, in order. After that the logger is as new, unless the level is Panic or Fatal: then zap does
-- not return, and the logger still holds all that it gathered.
pub flush-log_all :
    (c : Call) (cs : List Call)
    → IsPlain c
    → All IsPlain cs
    → let r = log_all (new true) (c ∷ cs) in
      let m = main_call c.level c.message cs in
      let kept = c.fields ++ kept_fields c.level cs in
      (r.1 ≡ [])
      × (flush r.0 ≡ (
        if int_beq m.0 (pos 4) || int_beq m.0 (pos 5)
            then record (new true) { level = m.0; message = m.1; fields = kept }
            else new true,
        direct_log m.0 m.1 kept,
      ))
unfolding log_all new
flush-log_all c cs p a =
    let rest = log_all_plain (started c) cs refl p.has_message a in
    rw (log_first c p, log_all)
      (rw rest (
        refl,
        flush_lem (gathered (started c) cs) refl
            (main_call_message c.level c.message cs p.has_message a),
      ))
