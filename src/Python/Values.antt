-- ===== src/Python/Values.antt =====
-- JSON values as Python objects. An integer is unbounded, a float is the 64 bits of an IEEE 754
-- double, a dict is its list of items in insertion order, with the keys distinct.
use saarathi.Common.{
  ℕ, ◌%◌, ◌^◌, Text, Bool, true, false, not, Option, List, [], ◌∷◌, is_empty, text_eq, ◌==◌,
  if◌then◌else◌,
}

-- `negsuc n` is -(n + 1).
pub data ℤ : Type 0 where
  pos : ℕ → ℤ
  negsuc : ℕ → ℤ

mutual
  pub data Json : Type 0 where
    null : Json
    bool : Bool → Json
    int : ℤ → Json
    float : ℕ → Json
    str : Text → Json
    list : Items → Json
    dict : Fields → Json

  pub data Items : Type 0 where
    nil : Items
    cons : Json → Items → Items

  pub data Fields : Type 0 where
    end : Fields
    field : Text → Json → Fields → Fields

abbrev pub elements : Items → List Json
elements nil = []
elements (cons v vs) = v ∷ elements vs

-- `d.get(key)`: a missing key gives None, which is `null` here
unfoldable pub get : Text → Fields → Json
get key end = null
get key (field k v fs) = if text_eq k key then v else get key fs

-- `key in d`
unfoldable pub has_key : Text → Fields → Bool
has_key key end = false
has_key key (field k v fs) = if text_eq k key then true else has_key key fs

-- `bool(v)`: a float is false when it is 0.0 or -0.0
unfoldable pub truthy : Json → Bool
truthy null = false
truthy (bool b) = b
truthy (int (pos n)) = not (n == 0)
truthy (int (negsuc n)) = true
truthy (float bits) = not (bits % 2 ^ 63 == 0)
truthy (str s) = not (is_empty s)
truthy (list nil) = false
truthy (list (cons v vs)) = true
truthy (dict end) = false
truthy (dict (field k v fs)) = true

-- `a or b`
unfoldable pub or_py : Json → Json → Json
or_py a b = if truthy a then a else b

-- A function that may raise; an exception is known by its text.
pub data Result {ℓ} (A : Type ℓ) : Type ℓ where
  ok : A → Result A
  raised : Text → Result A

infixl 5 ◌>>=◌
abbrev pub ◌>>=◌ {ℓ κ} : {A : Type ℓ} {B : Type κ} → Result A → (A → Result B) → Result B
ok a >>= f = f a
raised e >>= f = raised e

-- What rests on the tables of the runtime: `str.lower`, the value of a Unicode decimal digit, the
-- shortest decimal of a float, and `repr` of a str.
pub record Runtime : Type 0 where
  pub lower : Text → Text
  pub digit : ℕ → Option ℕ
  pub float_repr : ℕ → Text
  pub text_repr : Text → Text
