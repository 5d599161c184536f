-- ===== src/Router/Exits.antt =====
-- When a message is an exit command.
use mathlib.Core.List.{Memᴰ}
use saarathi.Common.{
  Text, true, false, List, [], ◌∷◌, ◌≡◌, ◌↔◌, inl, inr, refl, arith, Bool-cases, is_empty,
  text_eq_iff, strip, strip_chars, ltrim,
}
use saarathi.Python.{Runtime}
use saarathi.Router.{normalise_command, commands, is_exit}

module _ (rt : Runtime) where
  commands→Memᴰ :
      (n : Text) (kws : List Text)
      → commands rt n kws ≡ true
      → (kw : Text) × Memᴰ kw kws × (is_empty (strip kw) ≡ false) × (n ≡ normalise_command rt kw)
  unfolding commands
  commands→Memᴰ n [] h = cc
  commands→Memᴰ n (kw ∷ kws) h = elim (Bool-cases (commands rt n kws)) [
    | inl e ↦ let (k, m, s, f) = commands→Memᴰ n kws e in (k, Memᴰ.tail m, s, f)
    | inr e ↦ (
      kw,
      Memᴰ.head refl,
      ground arith,
      (text_eq_iff n (normalise_command rt kw)).0 (ground arith),
    )
  ]

  not_empty : (kw : Text) → is_empty (strip kw) ≡ false → is_empty kw ≡ false
  unfolding strip strip_chars ltrim
  not_empty [] h = cc
  not_empty (c ∷ kw) h = refl

  Memᴰ→commands :
      (kw : Text) (kws : List Text)
      → Memᴰ kw kws
      → is_empty (strip kw) ≡ false
      → commands rt (normalise_command rt kw) kws ≡ true
  unfolding commands
  Memᴰ→commands kw [] m s = elim m [ ]
  Memᴰ→commands kw (k ∷ kws) (Memᴰ.head e) s = rw (
    ← e,
    not_empty kw s,
    s,
    (text_eq_iff (normalise_command rt kw) (normalise_command rt kw)).1 refl,
  )
  Memᴰ→commands kw (k ∷ kws) (Memᴰ.tail m) s = ground (arith, Memᴰ→commands kw kws m s)

  -- A message is an exit command exactly when, in lower case, with its white space collapsed and
  -- without the punctuation around it, it is not empty and is the same as one of the agent's exit
  -- keywords that is not blank, brought to that form too. A message that only contains a keyword is
  -- none.
  pub is_exit_iff :
      (text : Text) (exit_keywords : List Text)
      → (is_exit rt text exit_keywords ≡ true) ↔ (
          (kw : Text) × Memᴰ kw exit_keywords
          × (is_empty (strip kw) ≡ false)
          × (is_empty (normalise_command rt text) ≡ false)
          × (normalise_command rt text ≡ normalise_command rt kw))
  unfolding is_exit
  is_exit_iff text kws = (
    λ h. elim (Bool-cases (is_empty (normalise_command rt text))) [
      | inl e ↦ cc (rw e at h)
      | inr e ↦
          let (kw, m, s, f) = commands→Memᴰ (normalise_command rt text) kws (rw e at h) in
          (kw, m, s, e, f)
    ],
    λ (kw, m, s, e, f). rw e (rw f (Memᴰ→commands kw kws m s)),
  )
