-- ===== src/Mitra/FrameParser/Malformed.antt =====
-- Which messages the parser answers with an ERROR frame.
use saarathi.Common.{
  ℕ, Text, codes, false, List, ◌≡◌, refl, ◌≢◌, ◌↔◌, inl, inr, arith, Bool-cases, if◌then◌else◌,
}
use saarathi.Python.{ℤ, pos, Json, str, dict, Fields, Result, ok, raised, ◌>>=◌, Runtime, get}
use saarathi.Python.Conversions.{int_of, IntResult, number, not_a_number, overflow}
use saarathi.Mitra.Frame.{error}
use saarathi.Mitra.Coercions.{coerce_int, int_or_default}
use saarathi.Mitra.Envelopes.{
  text_frame, parse_text_envelope, parse_legacy_envelope, final_if, legacy_turn, legacy_options,
  legacy_control, legacy_unknown, legacy_frame,
}
use saarathi.Mitra.FrameParser.{
  Raw, parse, route, parse_payload, parse_loaded, decoded, or_error, degenerate_frame, error_frame,
  has_legacy_key,
}

-- the test `if f.finish_reason` by which the channel ends a turn
-- The messages that the parser cannot read: no JSON, no object, an object with no known key, or
-- a step that is an infinite number.
pub data IsMalformed (rt : Runtime) : Result Json → Type 0 where
  no_json : (reason : Text) → IsMalformed rt (raised reason)
  no_object : (v : Json) → ((fs : Fields) → v ≢ dict fs) → IsMalformed rt (ok v)
  infinite_step :
      (payload text : Fields)
      → get (codes "text") payload ≡ dict text
      → int_of rt (get (codes "step") text) ≡ overflow
      → IsMalformed rt (ok (dict payload))
  no_known_key :
      (payload : Fields)
      → ((fs : Fields) → get (codes "text") payload ≢ dict fs)
      → ((s : Text) → get (codes "text") payload ≢ str s)
      → has_legacy_key payload ≡ false
      → IsMalformed rt (ok (dict payload))

module _ (rt : Runtime) where
  text_frame-ne-error : (text : Fields) (step : ℤ) → (text_frame rt text step).kind ≢ error
  unfolding text_frame
  text_frame-ne-error text step = ground arith

  legacy-ne-error : (raw : Fields) → (parse_legacy_envelope rt raw).kind ≢ error
  unfolding parse_legacy_envelope legacy_frame legacy_control legacy_options legacy_turn
      legacy_unknown
  legacy-ne-error raw = ground arith

  step-error_iff :
      (text : Fields) (r : IntResult)
      → ((or_error (int_or_default rt r (pos 0) >>= λ step. ok (text_frame rt text step))).kind
          ≡ error)
        ↔ (r ≡ overflow)
  unfolding or_error int_or_default
  step-error_iff text (number z) = (λ h. absurd (text_frame-ne-error text z h), λ e. cc)
  step-error_iff text not_a_number = (λ h. absurd (text_frame-ne-error text (pos 0) h), λ e. cc)
  step-error_iff text overflow = (λ h. refl, λ e. refl)

  envelope-error_iff :
      (text : Fields)
      → ((or_error (parse_text_envelope rt text)).kind ≡ error)
        ↔ (int_of rt (get (codes "step") text) ≡ overflow)
  unfolding parse_text_envelope coerce_int
  envelope-error_iff text = step-error_iff text (int_of rt (get (codes "step") text))

  no_key-error :
      (payload : Fields)
      → (if has_legacy_key payload
          then parse_legacy_envelope rt payload
          else error_frame (codes "unrecognised frame shape — no 'text' key")).kind
        ≡ error
      → has_legacy_key payload ≡ false
  no_key-error payload h = elim (Bool-cases (has_legacy_key payload)) [
    | inl t ↦ absurd (legacy-ne-error payload (rw t at h))
    | inr f ↦ f
  ]

  route-error :
      (payload : Fields) (v : Json)
      → get (codes "text") payload ≡ v
      → (route rt payload v).kind ≡ error
      → IsMalformed rt (ok (dict payload))
  unfolding route
  route-error payload (dict text) e h = infinite_step payload text e ((envelope-error_iff text).0 h)
  route-error payload (str s) e h = unfold degenerate_frame final_if in absurd (ground arith)
  route-error payload v e h = no_known_key payload (λ fs p. cc) (λ s p. cc) (no_key-error payload h)

  loaded-error : (r : Result Json) → (parse_loaded rt r).kind ≡ error → IsMalformed rt r
  unfolding parse_loaded parse_payload
  loaded-error (raised reason) h = no_json reason
  loaded-error (ok (dict payload)) h = route-error payload (get (codes "text") payload) refl h
  loaded-error (ok v) h = no_object v (λ fs e. cc)

  route_of_no_key :
      (payload : Fields) (v : Json)
      → ((fs : Fields) → v ≢ dict fs)
      → ((s : Text) → v ≢ str s)
      → has_legacy_key payload ≡ false
      → (route rt payload v).kind ≡ error
  unfolding route
  route_of_no_key payload (dict text) d s h = absurd (d text refl)
  route_of_no_key payload (str t) d s h = absurd (s t refl)
  route_of_no_key payload v d s h = rw h

  payload_of_no_object :
      (v : Json) → ((fs : Fields) → v ≢ dict fs) → (parse_payload rt v).kind ≡ error
  unfolding parse_payload
  payload_of_no_object (dict fs) h = absurd (h fs refl)
  payload_of_no_object v h = refl

  loaded-IsMalformed : (r : Result Json) → IsMalformed rt r → (parse_loaded rt r).kind ≡ error
  unfolding parse_loaded
  loaded-IsMalformed _ (no_json reason) = refl
  loaded-IsMalformed _ (no_object v h) = payload_of_no_object v h
  loaded-IsMalformed _ (infinite_step payload text e h) =
      unfold parse_payload in rw e (unfold route in (envelope-error_iff text).1 h)
  loaded-IsMalformed _ (no_known_key payload d s h) =
      unfold parse_payload in route_of_no_key payload (get (codes "text") payload) d s h

-- `parse` answers an ERROR frame exactly for the malformed messages.
pub parse-error_iff :
    (rt : Runtime) (decode : List ℕ → Text) (loads : Text → Result Json) (raw : Raw)
    → ((parse rt decode loads raw).kind ≡ error) ↔ IsMalformed rt (loads (decoded decode raw))
unfolding parse
parse-error_iff rt decode loads raw =
    let r = loads (decoded decode raw) in (loaded-error rt r, loaded-IsMalformed rt r)
