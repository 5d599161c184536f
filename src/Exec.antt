-- ===== src/Exec.antt =====
-- Methods that change a store and may raise. What was written before an exception stays written
-- until the caller decides, so the state comes back beside the exception too: the request's
-- dependency (backend/app/dependencies/db.py) commits when a mapped error is returned.
pub mod Maintains
use saarathi.Common.{
  ℕ, Text, Bool, true, false, Option, none, some, List, [], ◌∷◌, map, if◌then◌else◌,
}

pub data Error : Type 0 where
  -- the service layer
  invalid_transition concurrent_modification : ℕ → Error
  agent_not_found : Text → Error
  concurrent_turn : ℕ → Error
  turn_limit_exceeded : Text → Error
  -- the database: a violated constraint, and more than one row where one was asked for
  integrity_error multiple_results no_result : Error
  -- the remote interview service
  mitra_turn_timeout : Error
  mitra_channel_closed mitra_remote_error : Text → Error
  mitra_concurrent_turn : Error
  mitra_http_error : ℕ → Option Text → Error
  mitra_ssrf_error : Error
  mitra_redirect : ℕ → Error
  mitra_error : Text → Error
  -- any other exception
  runtime_error : Text → Error

-- `isinstance(e, MitraError)` (backend/app/integrations/mitra/exceptions.py)
abbrev pub is_mitra_error : Error → Bool
is_mitra_error mitra_turn_timeout = true
is_mitra_error (mitra_channel_closed reason) = true
is_mitra_error (mitra_remote_error text) = true
is_mitra_error mitra_concurrent_turn = true
is_mitra_error (mitra_http_error status detail) = true
is_mitra_error mitra_ssrf_error = true
is_mitra_error (mitra_redirect status) = true
is_mitra_error (mitra_error text) = true
is_mitra_error _ = false

pub data Outcome {ℓ} (A : Type ℓ) : Type ℓ where
  returned : A → Outcome A
  raises : Error → Outcome A

abbrev pub Exec {ℓ} : Type ℓ → Type ℓ → Type ℓ
Exec Store Value = Store → Outcome Value × Store

module _ {ℓ} {Store : Type ℓ} where
  abbrev pub raise : {A : Type ℓ} → Error → Exec Store A
  raise error before = (raises error, before)

  abbrev pub pure : {A : Type ℓ} → A → Exec Store A
  pure v before = (returned v, before)

  abbrev pub gets : {A : Type ℓ} → (Store → A) → Exec Store A
  gets read before = (returned (read before), before)

  -- the rest of a block, after its first action
  abbrev pub continue : {A B : Type ℓ} → Outcome A → (A → Exec Store B) → Exec Store B
  continue (raises error) rest between = (raises error, between)
  continue (returned v) rest between = rest v between

  infixl 5 ◌>>=◌ ◌>>◌
  unfoldable pub ◌>>=◌ : {A B : Type ℓ} → Exec Store A → (A → Exec Store B) → Exec Store B
  ◌>>=◌ first rest before = continue (first before).0 rest (first before).1

  abbrev pub ◌>>◌ : {A B : Type ℓ} → Exec Store A → Exec Store B → Exec Store B
  first >> rest = first >>= λ _. rest

  abbrev handled : {A : Type ℓ} → Outcome A → (Error → Exec Store A) → Exec Store A
  handled (raises error) handler between = handler error between
  handled (returned v) handler between = (returned v, between)

  -- `try: action except Exception as e: handler(e)`
  unfoldable pub catch : {A : Type ℓ} → Exec Store A → (Error → Exec Store A) → Exec Store A
  catch action handler before = handled (action before).0 handler (action before).1

-- `scalar_one_or_none()`
unfoldable pub one_or_none {ℓ} : {A : Type ℓ} → List A → Outcome (Option A)
one_or_none [] = returned none
one_or_none (a ∷ []) = returned (some a)
one_or_none (a ∷ b ∷ l) = raises multiple_results
