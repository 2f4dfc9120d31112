-- ===== src/Common/Lines.antt =====
-- The lines of a text: `split` and `join` undo each other.
use mathlib.Core.Path.{◌≡◌, refl, ap, ◌∙◌}
use mathlib.Core.Bool.{true, false}
use mathlib.Core.Logic.{inl, inr}
use mathlib.Core.List.{List, [], ◌∷◌, ◌++◌}
use Prim.Native.Nat.{ℕ}
use rakomi_js.Common.Tests.{◌==◌, Bool-cases, ==_iff}
use rakomi_js.Common.Lists.{All}
use rakomi_js.Common.Text.{Text, cons_part, split, join}

module _ (sep : ℕ) where
  -- A line has no separator.
  abbrev pub IsLine : Text → Type 0
  IsLine [] = Unit
  IsLine (c ∷ s) = ((c == sep) ≡ false) × IsLine s

  cons_part-lines :
      (c : ℕ) (ps : List Text) → (c == sep) ≡ false → All IsLine ps → All IsLine (cons_part c ps)
  cons_part-lines c [] h ls = ((h, tt), tt)
  cons_part-lines c (p ∷ ps) h ls = ((h, ls.0), ls.1)

  pub split-lines : (s : Text) → All IsLine (split sep s)
  unfolding split
  split-lines [] = (tt, tt)
  split-lines (c ∷ s) = elim (Bool-cases (c == sep)) [
    | inl here ↦ rw here (tt, split-lines s)
    | inr other ↦ rw other (cons_part-lines c (split sep s) other (split-lines s))
  ]

  split-line : (l : Text) → IsLine l → split sep l ≡ l ∷ []
  unfolding split
  split-line [] h = refl
  split-line (c ∷ l) h = rw (h.0, split-line l h.1) refl

  split-append : (l s : Text) → IsLine l → split sep (l ++ sep ∷ s) ≡ l ∷ split sep s
  unfolding split
  split-append [] s h = rw (==-refl) refl
    where
      ==-refl : (sep == sep) ≡ true
      ==-refl = (==_iff sep sep).1 refl
  split-append (c ∷ l) s h = rw (h.0, split-append l s h.1) refl

  pub split-join :
      (l : Text) (ls : List Text) → All IsLine (l ∷ ls) → split sep (join sep (l ∷ ls)) ≡ l ∷ ls
  unfolding join
  split-join l [] h = split-line l h.0
  split-join l (m ∷ ls) h =
      split-append l (join sep (m ∷ ls)) h.0 ∙ ap (λ r. l ∷ r) (split-join m ls h.1)
