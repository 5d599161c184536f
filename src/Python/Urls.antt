-- ===== src/Python/Urls.antt =====
-- `urllib.parse.urlsplit` of a text, as far as the scheme and the host name. A check of the netloc
-- that rests on tables (brackets around an address, normal forms of Unicode) is a parameter.
use saarathi.Common.{
  ℕ, Text, codes, Bool, true, false, not, ◌&&◌, ◌||◌, Option, none, some, List, [], ◌∷◌, ◌++◌,
  ltrim, is_prefix, leb, drop, ◌==◌, if◌then◌else◌,
}
use saarathi.Python.Values.{Runtime}

-- `c in s`
unfoldable pub has_char : ℕ → Text → Bool
has_char c [] = false
has_char c (d ∷ s) = (d == c) || has_char c s

unfoldable pub all_chars : (ℕ → Bool) → Text → Bool
all_chars p [] = true
all_chars p (c ∷ s) = p c && all_chars p s

-- the characters before the first one that satisfies `p`, all of them if there is none
unfoldable pub before : (ℕ → Bool) → Text → Text
before p [] = []
before p (c ∷ s) = let rest = before p s in if p c then [] else c ∷ rest

-- those after it, none if there is none
unfoldable pub after : (ℕ → Bool) → Text → Text
after p [] = []
after p (c ∷ s) = let rest = after p s in if p c then s else rest

-- `s.rpartition(c)[2]`
unfoldable pub after_last : ℕ → Text → Text
unfolding has_char
after_last c [] = []
after_last c (d ∷ s) =
    let rest = after_last c s in if has_char c s then rest else if d == c then s else d ∷ s

abbrev add_first : ℕ → List Text → List Text
add_first d [] = (d ∷ []) ∷ []
add_first d (piece ∷ pieces) = (d ∷ piece) ∷ pieces

-- `s.split(c)`
unfoldable pub split_at : ℕ → Text → List Text
split_at c [] = [] ∷ []
split_at c (d ∷ s) = let rest = split_at c s in if d == c then [] ∷ rest else add_first d rest

abbrev is : ℕ → ℕ → Bool
is c d = d == c

abbrev is_alpha : ℕ → Bool
is_alpha c = (leb b'a' c && leb c b'z') || (leb b'A' c && leb c b'Z')

abbrev is_scheme_char : ℕ → Bool
is_scheme_char c =
    is_alpha c || ((leb b'0' c && leb c b'9') || ((c == b'+') || ((c == b'-') || (c == b'.'))))

abbrev ends_netloc : ℕ → Bool
ends_netloc c = (c == b'/') || ((c == b'?') || (c == b'#'))

-- the tab, the line feed and the carriage return, which are removed anywhere
unfoldable pub without_breaks : Text → Text
without_breaks [] = []
without_breaks (c ∷ s) =
    let rest = without_breaks s in if (c == 9) || ((c == 10) || (c == 13)) then rest else c ∷ rest

abbrev starts_alpha : Text → Bool
starts_alpha [] = false
starts_alpha (c ∷ s) = is_alpha c

pub record SplitResult : Type 0 where
  pub scheme : Text
  pub netloc : Text

module _ (rt : Runtime) (netloc_ok : Text → Bool) where
  abbrev has_scheme : Text → Bool
  unfolding has_char all_chars before
  has_scheme url =
      has_char b':' url && (starts_alpha url && all_chars is_scheme_char (before (is b':') url))

  abbrev netloc_of : Text → Text
  unfolding is_prefix before
  netloc_of url = if is_prefix (codes "//") url then before ends_netloc (drop 2 url) else []

  -- a bracket without its partner
  abbrev lone_bracket : Text → Bool
  unfolding has_char
  lone_bracket netloc =
      (has_char b'[' netloc && not (has_char b']' netloc))
      || (has_char b']' netloc && not (has_char b'[' netloc))

  abbrev checked : SplitResult → Option SplitResult
  unfolding lone_bracket
  checked r = if lone_bracket r.netloc || not (netloc_ok r.netloc) then none else some r

  -- without a value for a ValueError
  unfoldable pub urlsplit : Text → Option SplitResult
  unfolding ltrim without_breaks has_scheme netloc_of checked before after
  urlsplit text =
      let url = without_breaks (ltrim (λ c. leb c 32) text) in
      if has_scheme url
      then checked (record {
        scheme = rt.lower (before (is b':') url);
        netloc = netloc_of (after (is b':') url);
      })
      else checked (record { scheme = []; netloc = netloc_of url })

  -- `hostname`, up to the zone of an address
  abbrev lowered : Text → Text
  unfolding before has_char after
  lowered name =
      rt.lower (before (is b'%') name)
      ++ (if has_char b'%' name then b'%' ∷ after (is b'%') name else [])

  -- `.hostname or ""`
  unfoldable pub hostname : SplitResult → Text
  unfolding after_last has_char before after lowered
  hostname r =
      let info = after_last b'@' r.netloc in
      lowered (
        if has_char b'[' info
        then before (is b']') (after (is b'[') info)
        else before (is b':') info)
