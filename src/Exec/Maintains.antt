-- ===== src/Exec/Maintains.antt =====
-- Invariants of a store that an action maintains, also where it raises: a rule for each form of
-- action.
use saarathi.Common.{Bool, true, false, if◌then◌else◌}
use saarathi.Exec.{Error, Outcome, returned, raises, Exec, pure, raise, continue, ◌>>=◌}

pub record Maintains {ℓ} {Store Value : Type ℓ} (Inv : Store → Type ℓ) (action : Exec Store Value)
    : Type ℓ where
  pub after : (before : Store) → Inv before → Inv (action before).1

module _ {ℓ} {Store : Type ℓ} {Inv : Store → Type ℓ} where
  -- a test that chooses the action
  pub Maintains-choice :
      {Value : Type ℓ} (test : Bool) (accept refuse : Exec Store Value)
      → Maintains Inv accept
      → Maintains Inv refuse
      → Maintains Inv (if test then accept else refuse)
  Maintains-choice true accept refuse y n = y
  Maintains-choice false accept refuse y n = n

  pub Maintains-pure : {Value : Type ℓ} (v : Value) → Maintains Inv (pure v)
  Maintains-pure v = record { after = λ before i. i }

  pub Maintains-raise : {Value : Type ℓ} (error : Error) → Maintains Inv (raise {A = Value} error)
  Maintains-raise error = record { after = λ before i. i }

  pub rest_maintains :
      {Value Final : Type ℓ} (rest : Value → Exec Store Final)
      → ((v : Value) → Maintains Inv (rest v))
      → (outcome : Outcome Value) (between : Store) → Inv between
      → Inv (continue outcome rest between).1
  rest_maintains rest k (raises error) between i = i
  rest_maintains rest k (returned v) between i = (k v).after between i

  pub Maintains-then :
      {Value Final : Type ℓ} (first : Exec Store Value) (rest : Value → Exec Store Final)
      → Maintains Inv first
      → ((v : Value) → Maintains Inv (rest v))
      → Maintains Inv (first >>= rest)
  unfolding ◌>>=◌
  Maintains-then first rest k l = record {
    after = λ before i. rest_maintains rest l (first before).0 (first before).1 (k.after before i);
  }
