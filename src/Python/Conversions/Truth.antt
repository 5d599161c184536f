-- ===== src/Python/Conversions/Truth.antt =====
-- A value other than a text has a text that is not empty.
use saarathi.Common.{ℕ, is_empty, true, false, ◌≡◌, refl, [], ◌∷◌, decimal-ne-nil}
use saarathi.Python.Values.{
  pos, negsuc, Json, null, bool, int, float, str, list, dict, Runtime, truthy,
}
use saarathi.Python.Conversions.{int_text, str_of}

-- Documented behaviour of the runtime: the text of a float is never empty.
abbrev pub FloatsHaveText : Runtime → Type 0
FloatsHaveText rt = (bits : ℕ) → is_empty (rt.float_repr bits) ≡ false

pub str_of-truthy :
    (rt : Runtime)
    → FloatsHaveText rt
    → (v : Json) → truthy v ≡ true
    → is_empty (str_of rt v) ≡ false
unfolding str_of truthy int_text
str_of-truthy rt fl null h = cc
str_of-truthy rt fl (bool true) h = refl
str_of-truthy rt fl (bool false) h = refl
str_of-truthy rt fl (int (pos n)) h = decimal-ne-nil n
str_of-truthy rt fl (int (negsuc n)) h = refl
str_of-truthy rt fl (float bits) h = fl bits
str_of-truthy rt fl (str []) h = cc
str_of-truthy rt fl (str (c ∷ s)) h = refl
str_of-truthy rt fl (list vs) h = refl
str_of-truthy rt fl (dict fs) h = refl
