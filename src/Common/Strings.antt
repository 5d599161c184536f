-- ===== src/Common/Strings.antt =====
-- Python's `str` as the list of its code points, with the methods of `str` that the program calls.
-- `str.lower` needs the tables of Unicode and is a parameter of the modules that call it.
use Prim.Native.Nat.{ℕ, zero, suc, ◌+◌, ◌/◌, ◌%◌}
use Prim.Native.Char.{code}
use Prim.Native.String.{String}
use mathlib.Core.Path.{◌≡◌, refl}
use mathlib.Core.Logic.{◌↔◌}
use mathlib.Core.Bool.{Bool, true, false, ◌&&◌, ◌||◌}
use mathlib.Core.List.{List, [], ◌∷◌, ◌++◌, reverse}
use native.Mathlib.Omega.{arith}
use saarathi.Common.Tests.{ltb, leb, ◌==◌, ==_refl, if◌then◌else◌}

abbrev pub Text : Type 0
Text = List ℕ

-- A literal's code points.
abbrev pub codes : String → Text
codes String.[] = []
codes (String.◌∷◌ c s) = code c ∷ codes s

abbrev pub is_empty : Text → Bool
is_empty [] = true
is_empty (c ∷ s) = false

pub is_empty→nil : (s : Text) → is_empty s ≡ true → s ≡ []
is_empty→nil [] h = refl
is_empty→nil (c ∷ s) h = cc

unfoldable pub text_eq : Text → Text → Bool
text_eq [] [] = true
text_eq (c ∷ s) (d ∷ t) = (c == d) && text_eq s t
text_eq _ _ = false

text_eq→eq : (s t : Text) → text_eq s t ≡ true → s ≡ t
unfolding text_eq
text_eq→eq [] [] h = refl
text_eq→eq (c ∷ s) (d ∷ t) h = ground (arith, text_eq→eq s t)
text_eq→eq [] (d ∷ t) h = cc
text_eq→eq (c ∷ s) [] h = cc

pub text_eq_refl : (s : Text) → text_eq s s ≡ true
unfolding text_eq
text_eq_refl [] = refl
text_eq_refl (c ∷ s) = rw (==_refl c) (text_eq_refl s)

pub text_eq_iff : (s t : Text) → (text_eq s t ≡ true) ↔ (s ≡ t)
text_eq_iff s t = (text_eq→eq s t, λ e. rw e (text_eq_refl t))

-- `s in ts` for a list, tuple or frozenset of texts
unfoldable pub mem_text : Text → List Text → Bool
mem_text s [] = false
mem_text s (t ∷ ts) = text_eq s t || mem_text s ts

-- `str.isspace` of one character
unfoldable pub is_space : ℕ → Bool
is_space c =
    (leb 9 c && leb c 13)
    || (leb 28 c && leb c 32)
    || (c == 133)
    || (c == 160)
    || (c == 5760)
    || (leb 8192 c && leb c 8202)
    || (c == 8232)
    || (c == 8233)
    || (c == 8239)
    || (c == 8287)
    || (c == 12288)

-- drops the leading characters that satisfy `p`
unfoldable pub ltrim : (ℕ → Bool) → Text → Text
ltrim p [] = []
ltrim p (c ∷ s) = if p c then ltrim p s else c ∷ s

-- `s.strip(chars)`, with the set of characters as a test
unfoldable pub strip_chars : (ℕ → Bool) → Text → Text
strip_chars p s = reverse (ltrim p (reverse (ltrim p s)))

-- `s.strip()`
unfoldable pub strip : Text → Text
unfolding is_space strip_chars ltrim
strip s = strip_chars is_space s

-- `sep.join(parts)`
unfoldable pub join : Text → List Text → Text
join sep [] = []
join sep (s ∷ []) = s
join sep (s ∷ t ∷ ts) = s ++ (sep ++ join sep (t ∷ ts))

-- the loop of `s.split()`: `word` is the word being read, reversed
words_from : Text → Text → List Text
words_from word [] = if is_empty word then [] else reverse word ∷ []
words_from word (c ∷ s) =
    if is_space c
    then (if is_empty word then words_from [] s else reverse word ∷ words_from [] s)
    else words_from (c ∷ word) s

-- `s.split()`
unfoldable pub words : Text → List Text
unfolding words_from is_space
words s = words_from [] s

unfoldable pub is_prefix : Text → Text → Bool
is_prefix [] t = true
is_prefix (c ∷ s) [] = false
is_prefix (c ∷ s) (d ∷ t) = (c == d) && is_prefix s t

-- `s in t`
unfoldable pub contains : Text → Text → Bool
unfolding is_prefix
contains s [] = is_empty s
contains s (d ∷ t) = is_prefix s (d ∷ t) || contains s t

digits_from : ℕ → ℕ → Text → Text
digits_from zero n acc = acc
digits_from (suc f) n acc =
    let more = digits_from f (n / 10) ((48 + n % 10) ∷ acc) in
    if ltb n 10 then (48 + n) ∷ acc else more

-- `str(n)` of a natural number: a number has at most as many digits as its own value, plus one
unfoldable pub decimal : ℕ → Text
unfolding digits_from
decimal n = digits_from (suc n) n []

digits_from-ne-nil : (f n c : ℕ) (acc : Text) → is_empty (digits_from f n (c ∷ acc)) ≡ false
unfolding digits_from
digits_from-ne-nil zero n c acc = refl
digits_from-ne-nil (suc f) n c acc =
    ground (arith, digits_from-ne-nil f (n / 10) (48 + n % 10) (c ∷ acc))

pub decimal-ne-nil : (n : ℕ) → is_empty (decimal n) ≡ false
unfolding decimal
decimal-ne-nil n = ground (arith, digits_from-ne-nil n (n / 10) (48 + n % 10) [])
