-- ===== src/Node/CanonicalUrl/Paths.antt =====
-- Paths in canonical form stay as they are.
use rakomi_js.Common.{
  Bool, true, false, ◌&&◌, [], ◌∷◌, ◌≡◌, refl, ap, ◌∙◌, arith, ◌==◌, Bool-cases, inl, inr,
}
use rakomi_js.Common.Text.{Text}
use rakomi_js.Node.CanonicalUrl.{collapse, drop_last_slash, collapse_path}

-- No slash follows a slash; the flag says whether one stands before the text.
abbrev HasSingleSlashes : Bool → Text → Type 0
HasSingleSlashes after_slash [] = Unit
HasSingleSlashes after_slash (c ∷ s) =
    ((after_slash && c == b'/') ≡ false) × HasSingleSlashes (c == b'/') s

collapse-HasSingleSlashes : (b : Bool) (s : Text) → HasSingleSlashes b (collapse b s)
unfolding collapse
collapse-HasSingleSlashes b [] = tt
collapse-HasSingleSlashes false (c ∷ s) = (refl, collapse-HasSingleSlashes (c == b'/') s)
collapse-HasSingleSlashes true (c ∷ s) = elim (Bool-cases (c == b'/')) [
  | inl slash ↦ rw slash (collapse-HasSingleSlashes true s)
  | inr other ↦ rw other (other, rw other (collapse-HasSingleSlashes false s))
]

collapse_same : (b : Bool) (s : Text) → HasSingleSlashes b s → collapse b s ≡ s
unfolding collapse
collapse_same b [] h = refl
collapse_same b (c ∷ s) h = rw (h.0, collapse_same (c == b'/') s h.1) refl

drop_last_slash-HasSingleSlashes :
    (b : Bool) (s : Text) → HasSingleSlashes b s → HasSingleSlashes b (drop_last_slash s)
unfolding drop_last_slash
drop_last_slash-HasSingleSlashes b [] h = tt
drop_last_slash-HasSingleSlashes b (c ∷ []) h = ground arith
drop_last_slash-HasSingleSlashes b (c ∷ d ∷ s) h =
    (h.0, drop_last_slash-HasSingleSlashes (c == b'/') (d ∷ s) h.1)

drop_last_slash_twice :
    (b : Bool) (s : Text)
    → HasSingleSlashes b s
    → drop_last_slash (drop_last_slash s) ≡ drop_last_slash s
unfolding drop_last_slash
drop_last_slash_twice b [] h = refl
drop_last_slash_twice b (c ∷ []) h = ground arith
drop_last_slash_twice b (c ∷ d ∷ []) h = ground arith
drop_last_slash_twice b (c ∷ d ∷ e ∷ s) h =
    ap (λ r. c ∷ r) (drop_last_slash_twice (c == b'/') (d ∷ e ∷ s) h.1)

kept_path : Text → Text
kept_path [] = []
kept_path (c ∷ t) = c ∷ drop_last_slash t

-- The normalized path of a normalized path is that path: collapsing the slashes twice changes nothing
-- more.
pub collapse_path_twice : (path : Text) → collapse_path (collapse_path path) ≡ collapse_path path
unfolding collapse_path kept_path
collapse_path_twice path = go (collapse false path) (collapse-HasSingleSlashes false path)
  where
    go :
        (s : Text)
        → HasSingleSlashes false s
        → collapse_path (elim s [ [] ↦ [] | c ∷ t ↦ c ∷ drop_last_slash t ])
          ≡ (elim s [ [] ↦ [] | c ∷ t ↦ c ∷ drop_last_slash t ])
    go [] h = refl
    go (c ∷ t) h =
        let kept =
          collapse_same false (c ∷ drop_last_slash t)
            (h.0, drop_last_slash-HasSingleSlashes (c == b'/') t h.1) in
        ap kept_path kept ∙ ap (λ r. c ∷ r) (drop_last_slash_twice (c == b'/') t h.1)
