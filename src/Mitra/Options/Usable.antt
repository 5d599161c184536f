-- ===== src/Mitra/Options/Usable.antt =====
-- When the choice buttons of a frame have an id, a label and a value that are not empty.
use saarathi.Common.{
  ℕ, suc, Text, codes, true, false, List, [], ◌∷◌, ◌≡◌, refl, ◌⊎◌, ◌↔◌, inl, inr, All, is_empty,
  decimal, decimal-ne-nil, Bool-cases,
}
use saarathi.Python.{
  pos, negsuc, Json, null, bool, int, float, str, list, dict, Fields, elements, Items, Runtime, get,
  has_key, truthy, or_py,
}
use saarathi.Python.Conversions.{str_of, int_text}
use saarathi.Python.Conversions.Truth.{FloatsHaveText, str_of-truthy}
use saarathi.Mitra.Frame.{ParsedOption}
use saarathi.Mitra.Coercions.{coerce_str}
use saarathi.Mitra.Options.{option_of, collect, normalise_options}

pub record IsUsable (o : ParsedOption) : Type 0 where
  pub has_id : is_empty o.id ≡ false
  pub has_label : is_empty o.label ≡ false
  pub has_value : is_empty o.value ≡ false

-- A key is missing or null, or holds a value that counts as true.
abbrev pub IsClean : Text → Fields → Type 0
IsClean key item = (get key item ≡ null) ⊎ (truthy (get key item) ≡ true)

-- An item of the list that is a dict has a clean `value` and a clean `label`.
abbrev pub IsCleanItem : Json → Type 0
IsCleanItem v =
    (item : Fields) → v ≡ dict item → IsClean (codes "value") item × IsClean (codes "label") item

module _ (rt : Runtime) (fl : FloatsHaveText rt) where
  coerce_truthy :
      (v : Json) (default : Text) → truthy v ≡ true → is_empty (coerce_str rt v default) ≡ false
  unfolding coerce_str str_of
  coerce_truthy null default h = unfold truthy in cc
  coerce_truthy (str s) default h = str_of-truthy rt fl (str s) h
  coerce_truthy (bool b) default h = str_of-truthy rt fl (bool b) h
  coerce_truthy v default h = str_of-truthy rt fl v h

  coerce_null : (default : Text) → coerce_str rt null default ≡ default
  unfolding coerce_str
  coerce_null default = refl

  -- the last operand of an `or` decides, when those before it are false
  coerce_or :
      (a b : Json) (default : Text)
      → is_empty default ≡ false
      → (b ≡ null) ⊎ (truthy b ≡ true)
      → is_empty (coerce_str rt (or_py a b) default) ≡ false
  unfolding or_py
  coerce_or a b default d h = elim (Bool-cases (truthy a)) [
    | inl t ↦ rw t (coerce_truthy a default t)
    | inr f ↦
        rw f (elim h [ inl e ↦ rw (e, coerce_null default) d | inr t ↦ coerce_truthy b default t ])
  ]

  option_of-IsUsable :
      (i : ℕ) (item : Fields)
      → IsClean (codes "value") item
      → IsClean (codes "label") item
      → IsUsable (option_of rt i item)
  unfolding option_of
  option_of-IsUsable i item v l =
      let id =
        coerce_or (get (codes "id") item) (get (codes "value") item) (decimal i) (decimal-ne-nil i)
          v in
      record { has_id = id; has_label = coerce_or _ _ _ id v; has_value = coerce_or _ _ _ id l }

  collect-IsUsable :
      (i : ℕ) (vs : List Json) → All IsCleanItem vs → All IsUsable (collect (option_of rt) i vs)
  unfolding collect
  collect-IsUsable i [] h = tt
  collect-IsUsable i (dict item ∷ vs) h =
      let (v, l) = h.0 item refl in (option_of-IsUsable i item v l, collect-IsUsable (suc i) vs h.1)
  collect-IsUsable i (null ∷ vs) h = collect-IsUsable (suc i) vs h.1
  collect-IsUsable i (v ∷ vs) h = collect-IsUsable (suc i) vs h.1

-- Every choice button has a non-empty id, label and value, provided that no dict of the list has
-- a `value` or a `label` that is present, not null and false (such as an empty text).
pub normalise_options-IsUsable :
    (rt : Runtime) (extra : Fields) (vs : Items)
    → FloatsHaveText rt
    → has_key (codes "options") extra ≡ true
    → get (codes "options") extra ≡ list vs
    → All IsCleanItem (elements vs)
    → All IsUsable (normalise_options rt (dict extra))
unfolding normalise_options
normalise_options-IsUsable rt extra vs fl k e h =
    rw (e, normalise_options) (rw k (collect-IsUsable rt fl 0 (elements vs) h))

module _ (rt : Runtime) (fl : FloatsHaveText rt) where
  coerce_empty :
      (v : Json) (default : Text)
      → is_empty default ≡ false
      → is_empty (coerce_str rt v default) ≡ true
      → v ≡ str []
  unfolding coerce_str str_of int_text
  coerce_empty null default d e = cc
  coerce_empty (bool true) default d e = cc
  coerce_empty (bool false) default d e = cc
  coerce_empty (int (pos n)) default d e = cc (decimal-ne-nil n)
  coerce_empty (int (negsuc n)) default d e = cc
  coerce_empty (float bits) default d e = cc (fl bits)
  coerce_empty (str []) default d e = refl
  coerce_empty (str (c ∷ s)) default d e = cc
  coerce_empty (list vs) default d e = cc
  coerce_empty (dict fs) default d e = cc

  coerce_or_empty :
      (a b : Json) (default : Text)
      → is_empty default ≡ false
      → (is_empty (coerce_str rt (or_py a b) default) ≡ true) ↔ ((truthy a ≡ false) × (b ≡ str []))
  unfolding or_py
  coerce_or_empty a b default d = elim (Bool-cases (truthy a)) [
    | inl t ↦ (λ e. cc (coerce_truthy rt fl a default t), λ h. cc)
    | inr f ↦ (
      λ e. (f, coerce_empty b default d (rw f at e)),
      λ h. rw (f, or_py) (rw h.1 (unfold coerce_str in refl)),
    )
  ]

-- The ordinal stands in for the id only when nothing is there: a button has an empty id exactly
-- when its `id` counts as false and its `value` is the empty text.
pub option_id-empty_iff :
    (rt : Runtime) (i : ℕ) (item : Fields)
    → FloatsHaveText rt
    → (is_empty (option_of rt i item).id ≡ true)
      ↔ ((truthy (get (codes "id") item) ≡ false) × (get (codes "value") item ≡ str []))
unfolding option_of
option_id-empty_iff rt i item fl =
    coerce_or_empty rt fl (get (codes "id") item) (get (codes "value") item) (decimal i)
      (decimal-ne-nil i)
