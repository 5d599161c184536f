-- ===== src/Mitra/FrameParser/Kinds.antt =====
-- What the fields of a parsed frame say of one another, and which messages are malformed.
use saarathi.Common.{
  ℕ, Text, codes, Bool, true, false, none, some, List, [], ◌≡◌, refl, ◌≢◌, ◌⊎◌, inl, inr, arith,
  is_empty, if◌then◌else◌,
}
use saarathi.Python.{
  ℤ, pos, Json, null, bool, str, dict, Fields, Result, ok, raised, Runtime, get, truthy,
}
use saarathi.Python.Conversions.{str_of}
use saarathi.Python.Conversions.Truth.{FloatsHaveText, str_of-truthy}
use saarathi.Mitra.Frame.{FrameKind, bot_chunk, bot_final, error, Frame}
use saarathi.Mitra.Coercions.{truthy_text, coerce_str, coerce_int}
use saarathi.Mitra.Envelopes.{
  text_frame, parse_text_envelope, parse_legacy_envelope, legacy_turn, legacy_options,
  legacy_control, legacy_unknown, legacy_frame,
}
use saarathi.Mitra.FrameParser.{
  Raw, parse, route, parse_payload, parse_loaded, decoded, or_error, degenerate_frame, error_frame,
}

-- the test `if f.finish_reason` by which the channel ends a turn
abbrev pub ends_turn : Frame → Bool
ends_turn f = elim f.finish_reason [ none ↦ false | some reason ↦ truthy_text reason ]

abbrev pub IsBot : FrameKind → Type 0
IsBot kind = (kind ≡ bot_chunk) ⊎ (kind ≡ bot_final)

pub record WellFormed (f : Frame) : Type 0 where
  pub final_ends : f.kind ≡ bot_final → ends_turn f ≡ true
  pub ends_final : ends_turn f ≡ true → f.kind ≡ bot_final
  pub bot_offers : f.options ≢ [] → IsBot f.kind
  pub bot_unblamed : IsBot f.kind → f.error_text ≡ []
  pub error_blamed : f.kind ≡ error → f.error_text ≢ []

error_frame-WellFormed : (reason : Text) → reason ≢ [] → WellFormed (error_frame reason)
error_frame-WellFormed reason h = ground arith

Result-cases :
    {A : Type 0} (r : Result A) → ((a : A) × (r ≡ ok a)) ⊎ ((reason : Text) × (r ≡ raised reason))
Result-cases (ok a) = inl (a, refl)
Result-cases (raised reason) = inr (reason, refl)

module _ (rt : Runtime) where
  coerce_str-truthy :
      FloatsHaveText rt → (v : Json) → truthy v ≡ true → is_empty (coerce_str rt v []) ≡ false
  unfolding coerce_str str_of
  coerce_str-truthy fl null h = unfold truthy in cc
  coerce_str-truthy fl (str s) h = str_of-truthy rt fl (str s) h
  coerce_str-truthy fl (bool b) h = str_of-truthy rt fl (bool b) h
  coerce_str-truthy fl v h = str_of-truthy rt fl v h

  text_frame-WellFormed :
      FloatsHaveText rt → (text : Fields) (step : ℤ) → WellFormed (text_frame rt text step)
  unfolding text_frame
  text_frame-WellFormed fl text step =
      ground (arith, coerce_str-truthy fl (get (codes "finish_reason") text))

  legacy_turn-WellFormed :
      (raw : Fields) (msg : Text) (control : Bool) → WellFormed (legacy_turn rt raw msg control)
  unfolding legacy_turn
  legacy_turn-WellFormed raw msg control = ground arith

  degenerate_frame-WellFormed :
      (payload : Fields) (text : Text) → WellFormed (degenerate_frame rt payload text)
  unfolding degenerate_frame
  degenerate_frame-WellFormed payload text = ground arith

  legacy_options-WellFormed :
      (raw : Fields) (msg : Text) (control : Bool) → WellFormed (legacy_options rt raw msg control)
  unfolding legacy_options
  legacy_options-WellFormed raw msg control = ground arith

  legacy_control-WellFormed :
      (raw : Fields) (kind msg : Text) (control : Bool) (error_val : Text)
      → WellFormed (legacy_control rt raw kind msg control error_val)
  unfolding legacy_control
  legacy_control-WellFormed raw kind msg control error_val = ground arith

  legacy_unknown-WellFormed :
      (raw : Fields) (kind msg : Text) → WellFormed (legacy_unknown rt raw kind msg)
  unfolding legacy_unknown
  legacy_unknown-WellFormed raw kind msg = ground arith

  if-WellFormed :
      (b : Bool) {f g : Frame} → WellFormed f → WellFormed g → WellFormed (if b then f else g)
  if-WellFormed true hf hg = hf
  if-WellFormed false hf hg = hg

  legacy_frame-WellFormed :
      (raw : Fields) (kind msg : Text) (control : Bool) (error_val : Text)
      → WellFormed (legacy_frame rt raw kind msg control error_val)
  unfolding legacy_frame
  legacy_frame-WellFormed raw kind msg control error_val =
      if-WellFormed _ (legacy_control-WellFormed raw kind msg control error_val) (
        if-WellFormed _ (legacy_options-WellFormed raw msg control) (
          if-WellFormed _ (legacy_turn-WellFormed raw msg control)
            (legacy_unknown-WellFormed raw kind msg)))

  legacy-WellFormed : (raw : Fields) → WellFormed (parse_legacy_envelope rt raw)
  unfolding parse_legacy_envelope
  legacy-WellFormed raw = legacy_frame-WellFormed raw _ _ _ _

  envelope-WellFormed :
      FloatsHaveText rt → (text : Fields) → WellFormed (or_error (parse_text_envelope rt text))
  unfolding parse_text_envelope or_error
  envelope-WellFormed fl text =
      elim (Result-cases (coerce_int rt (get (codes "step") text) (pos 0))) [
        | inl (z, e) ↦ rw e (text_frame-WellFormed fl text z)
        | inr (reason, e) ↦ rw e (error_frame-WellFormed _ (λ e. cc))
      ]

  route-WellFormed :
      FloatsHaveText rt → (payload : Fields) (text : Json) → WellFormed (route rt payload text)
  unfolding route
  route-WellFormed fl payload (dict text) = envelope-WellFormed fl text
  route-WellFormed fl payload (str text) = degenerate_frame-WellFormed payload text
  route-WellFormed fl payload text =
      if-WellFormed _ (legacy-WellFormed payload) (error_frame-WellFormed _ (λ e. cc))

  payload-WellFormed : FloatsHaveText rt → (v : Json) → WellFormed (parse_payload rt v)
  unfolding parse_payload
  payload-WellFormed fl (dict payload) = route-WellFormed fl payload (get (codes "text") payload)
  payload-WellFormed fl v = error_frame-WellFormed _ (λ e. cc)

  loaded-WellFormed : FloatsHaveText rt → (r : Result Json) → WellFormed (parse_loaded rt r)
  unfolding parse_loaded
  loaded-WellFormed fl (ok v) = payload-WellFormed fl v
  loaded-WellFormed fl (raised reason) = error_frame-WellFormed _ (λ e. cc)

-- Whatever arrives, `parse` answers a frame in which the end-of-turn test of the channel holds
-- exactly at BOT_FINAL, only a bot frame offers options, a bot frame carries no error text, and an
-- ERROR frame names its reason.
pub parse-WellFormed :
    (rt : Runtime) (decode : List ℕ → Text) (loads : Text → Result Json) (raw : Raw)
    → FloatsHaveText rt
    → WellFormed (parse rt decode loads raw)
unfolding parse
parse-WellFormed rt decode loads raw fl = loaded-WellFormed rt fl (loads (decoded decode raw))
