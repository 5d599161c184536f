-- ===== src/Mitra/Options.antt =====
-- `_normalise_options` of backend/app/integrations/mitra/frame_parser.py.
pub mod Usable
use saarathi.Common.{
  ℕ, zero, suc, Text, codes, Bool, true, false, ◌||◌, Option, none, some, List, [], ◌∷◌, ◌++◌, not,
  map, is_empty, text_eq, mem_text, strip, join, keep, decimal, if◌then◌else◌,
}
use saarathi.Python.{
  ℤ, pos, Json, null, bool, int, float, str, list, dict, Fields, elements, Result, ok, raised,
  ◌>>=◌, Runtime, get, has_key, truthy, or_py,
}
use saarathi.Mitra.Frame.{ParsedOption}
use saarathi.Mitra.Coercions.{coerce_str}

module _ (rt : Runtime) where
  -- the body of the loop over `options`
  unfoldable pub option_of : ℕ → Fields → ParsedOption
  option_of i item =
      let id =
        coerce_str rt (or_py (get (codes "id") item) (get (codes "value") item)) (decimal i) in
      record {
        id = id;
        label =
            coerce_str rt
              (or_py (or_py (get (codes "label") item) (get (codes "text") item))
                (get (codes "value") item))
              id;
        value = coerce_str rt (or_py (get (codes "value") item) (get (codes "label") item)) id;
      }

  -- the body of the loop over `sources`
  unfoldable pub citation_of : ℕ → Fields → ParsedOption
  citation_of i item =
      let id = coerce_str rt (or_py (get (codes "url") item) (get (codes "id") item)) (decimal i) in
      record {
        id = id;
        label =
            coerce_str rt
              (or_py (or_py (get (codes "title") item) (get (codes "text") item))
                (get (codes "url") item))
              id;
        value = coerce_str rt (or_py (get (codes "url") item) (get (codes "text") item)) id;
      }

-- `for i, item in enumerate(raw)`, with the items that are no dict passed over
unfoldable pub collect : (ℕ → Fields → ParsedOption) → ℕ → List Json → List ParsedOption
collect f i [] = []
collect f i (dict item ∷ vs) = f i item ∷ collect f (suc i) vs
collect f i (_ ∷ vs) = collect f (suc i) vs

module _ (rt : Runtime) where
  -- `_normalise_options` of a dict; the third shape, `sources`
  citations : Fields → Json → List ParsedOption
  citations extra (list vs) =
      if has_key (codes "sources") extra then collect (citation_of rt) 0 (elements vs) else []
  citations extra _ = []

  options_without_choices : Fields → List ParsedOption
  options_without_choices extra =
      if has_key (codes "problem_statement") extra
      then []
      else citations extra (get (codes "sources") extra)

  choices : Fields → Json → List ParsedOption
  choices extra (list vs) =
      if has_key (codes "options") extra
      then collect (option_of rt) 0 (elements vs)
      else options_without_choices extra
  choices extra _ = options_without_choices extra

  unfoldable pub normalise_options : Json → List ParsedOption
  unfolding choices options_without_choices citations collect option_of citation_of coerce_str
  normalise_options (dict extra) = choices extra (get (codes "options") extra)
  normalise_options _ = []
