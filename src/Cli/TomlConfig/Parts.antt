-- ===== src/Cli/TomlConfig/Parts.antt =====
-- The parts of a TOML text: the lines before a table, its lines, and those from the next table on.
use mathlib.Core.Path.{subst}
use rakomi_js.Common.{
  ℕ, false, Option, none, some, List, [], ◌∷◌, ◌++◌, ◌≡◌, inl, inr, refl, arith, All, Option-cases,
  Bool-cases,
}
use rakomi_js.Common.Text.{Text, text_eq, text_eq_refl, is_empty, trim, split, join}
use rakomi_js.Common.Lines.{IsLine, split-join}
use rakomi_js.Cli.TomlConfig.{
  newline, Found, locate, starts_table, body_of, rest_of, without_blank_end, lines_of,
}

module _ (header_line : Text) where
  abbrev pub IsOther : Text → Type 0
  IsOther l = text_eq (trim l) header_line ≡ false

  -- The lines before the header line are others, and the parts are lines of the text.
  unfoldable pub IsPart : List Text → Found → Type 0
  IsPart ls f =
      All IsOther f.before
      × (All (IsLine newline) ls → All (IsLine newline) f.before × All (IsLine newline) f.after)

  found_injective : (f g : Found) → ◌≡◌ {A = Option Found} (some f) (some g) → f ≡ g
  found_injective f g h = cc

  pub locate-IsPart : (ls : List Text) (f : Found) → locate header_line ls ≡ some f → IsPart ls f
  unfolding locate IsPart
  locate-IsPart [] f h = absurd cc
  locate-IsPart (l ∷ ls) f h = elim (Bool-cases (text_eq (trim l) header_line)) [
    | inl here ↦
        let g : Found = record { before = []; line = l; after = ls } in
        let same : g ≡ f = found_injective g f (rw here at h) in
        subst (IsPart (l ∷ ls)) same (tt, λ lines. (tt, lines.1))
    | inr other ↦ elim (Option-cases (locate header_line ls)) [
      | inl nothing ↦ absurd ground arith
      | inr (g, later) ↦
          let g' : Found = record { before = l ∷ g.before; line = g.line; after = g.after } in
          let same : g' ≡ f = found_injective g' f ground arith in
          let (others, lines_of_g) = locate-IsPart ls g later in
          subst (IsPart (l ∷ ls)) same
            ((other, others), λ lines. ((lines.0, (lines_of_g lines.1).0), (lines_of_g lines.1).1))
    ]
  ]

  pub locate-none : (ls : List Text) → locate header_line ls ≡ none → All IsOther ls
  unfolding locate
  locate-none [] h = tt
  locate-none (l ∷ ls) h = ground (arith, locate-none ls)

  pub locate-found :
      (before : List Text) (after : List Text)
      → trim header_line ≡ header_line
      → All IsOther before
      → locate header_line (before ++ header_line ∷ after)
        ≡ some (record { before = before; line = header_line; after = after })
  unfolding locate
  locate-found [] after trimmed others = rw (trimmed, text_eq_refl header_line) refl
  locate-found (l ∷ before) after trimmed others =
      rw (others.0, locate-found before after trimmed others.1) refl

pub body-rest : (ls : List Text) → body_of (rest_of ls) ≡ []
unfolding body_of rest_of
body-rest [] = refl
body-rest (l ∷ ls) = elim (Bool-cases (starts_table l)) [
  | inl table ↦ rw (table) (rw table refl)
  | inr inside ↦ rw inside (body-rest ls)
]

pub body-append :
    (fields rest : List Text)
    → All (λ l. starts_table l ≡ false) fields
    → body_of (fields ++ rest) ≡ fields ++ body_of rest
unfolding body_of
body-append [] rest h = refl
body-append (l ∷ ls) rest h = rw (h.0, body-append ls rest h.1) refl

pub blank_end-kept :
    (fields blank : List Text)
    → All (λ l. is_empty l ≡ false) fields
    → without_blank_end blank ≡ []
    → without_blank_end (fields ++ blank) ≡ fields
unfolding without_blank_end
blank_end-kept [] blank h b = b
blank_end-kept (l ∷ ls) blank h b = ground (arith, h.0, blank_end-kept ls blank h.1 b)

pub rest-lines : (ls : List Text) → All (IsLine newline) ls → All (IsLine newline) (rest_of ls)
unfolding rest_of
rest-lines [] h = tt
rest-lines (l ∷ ls) h = elim (Bool-cases (starts_table l)) [
  | inl table ↦ rw table h
  | inr inside ↦ rw inside (rest-lines ls h.1)
]

append-there : (s : Text) (c : ℕ) (t : Text) → is_empty (s ++ c ∷ t) ≡ false
append-there [] c t = refl
append-there (d ∷ s) c t = refl

join-there :
    (before : List Text) (l : Text) (after : List Text)
    → is_empty l ≡ false
    → is_empty (join newline (before ++ l ∷ after)) ≡ false
unfolding join
join-there [] l [] h = h
join-there [] l (m ∷ after) h = append-there l newline (join newline (m ∷ after))
join-there (b ∷ []) l after h = append-there b newline (join newline (l ∷ after))
join-there (b ∷ c ∷ before) l after h =
    append-there b newline (join newline (c ∷ before ++ l ∷ after))

split-join-parts :
    (before : List Text) (l : Text) (after : List Text)
    → All (IsLine newline) (before ++ l ∷ after)
    → split newline (join newline (before ++ l ∷ after)) ≡ before ++ l ∷ after
split-join-parts [] l after lines = split-join newline l after lines
split-join-parts (b ∷ before) l after lines = split-join newline b (before ++ l ∷ after) lines

pub lines_of-join :
    (before : List Text) (l : Text) (after : List Text)
    → is_empty l ≡ false
    → All (IsLine newline) (before ++ l ∷ after)
    → lines_of (join newline (before ++ l ∷ after)) ≡ before ++ l ∷ after
lines_of-join before l after there lines =
    rw (join-there before l after there) (split-join-parts before l after lines)

pub empty-other :
    (header_line : Text) → is_empty header_line ≡ false → text_eq (trim []) header_line ≡ false
unfolding text_eq trim
empty-other [] h = cc
empty-other (c ∷ s) h = refl
