-- ===== src/Cli/TomlConfig/Idempotence.antt =====
-- A merge that is repeated changes nothing.
use mathlib.Core.Path.{subst}
use rakomi_js.Common.{
  true, false, none, some, List, [], ◌∷◌, ◌++◌, ◌≡◌, inl, inr, refl, sym, ap, ◌∙◌, arith, All,
  All-append, append_assoc, if◌then◌else◌, Option-cases, Bool-cases,
}
use rakomi_js.Common.Text.{Text, text_eq, text_eq_iff, text_eq_refl, is_empty, trim, join}
use rakomi_js.Common.Lines.{IsLine, split-lines}
use rakomi_js.Cli.TomlConfig.{
  newline, Found, locate, starts_table, body_of, rest_of, without_blank_end, needs_separator,
  appended, replaced, previous_block, TomlMergeResult, lines_of, merge_lines,
}
use rakomi_js.Cli.TomlConfig.Parts.{
  IsOther, IsPart, locate-IsPart, locate-none, locate-found, body-rest, body-append, blank_end-kept,
  rest-lines, lines_of-join, empty-other,
}

-- The lines of the rendered block: a header line that trimming keeps, and further lines that are not empty and
-- begin no table; none of them has a line break.
pub record IsBlock (header_line : Text) (fields : List Text) : Type 0 where
  pub header_trimmed : trim header_line ≡ header_line
  pub header_line_one : IsLine newline header_line
  pub header_there : is_empty header_line ≡ false
  pub field_lines : All (IsLine newline) fields
  pub fields_there : All (λ l. is_empty l ≡ false) fields
  pub fields_inside : All (λ l. starts_table l ≡ false) fields

module _ (header_line : Text) (fields : List Text) (block : IsBlock header_line fields) where
  -- A text whose table is the block stays as it is.
  settled :
      (before tail : List Text)
      → All (IsOther header_line) before
      → All (IsLine newline) before
      → All (IsLine newline) tail
      → without_blank_end (body_of tail) ≡ []
      → let text = join newline (before ++ (header_line ∷ (fields ++ tail))) in
        merge_lines text header_line (header_line ∷ fields) ≡ record {
          text = text;
          changed = false;
          previous_block = some (join newline (header_line ∷ fields));
        }
  unfolding merge_lines
  settled before tail others before_lines tail_lines blank =
      let lines = lines_of-join before header_line (fields ++ tail) block.header_there (
        All-append (IsLine newline) before (header_line ∷ (fields ++ tail)) before_lines (
          block.header_line_one,
          All-append (IsLine newline) fields tail block.field_lines tail_lines,
        )) in
      let found = locate-found header_line before (fields ++ tail) block.header_trimmed others in
      let body =
        ap without_blank_end (body-append fields tail block.fields_inside)
        ∙ blank_end-kept fields (body_of tail) block.fields_there blank in
      rw (lines, found, body, text_eq_refl (join newline (header_line ∷ fields)), merge_lines) refl

  -- The result for a text that has the block already.
  abbrev pub unchanged : Text → TomlMergeResult
  unchanged text = record {
    text = text;
    changed = false;
    previous_block = some (join newline (header_line ∷ fields));
  }

  lines_of_text : (text : Text) → All (IsLine newline) (lines_of text)
  lines_of_text text = elim (Bool-cases (is_empty text)) [
    | inl empty ↦ rw empty tt
    | inr there ↦ rw there (split-lines newline text)
  ]

  separator : List Text → List Text
  separator lines = if needs_separator lines then [] ∷ [] else []

  separator-others : (lines : List Text) → All (IsOther header_line) (separator lines)
  unfolding separator
  separator-others lines = ground (arith, empty-other header_line block.header_there)

  separator-lines : (lines : List Text) → All (IsLine newline) (separator lines)
  unfolding separator
  separator-lines lines = ground arith

  appended-settled :
      (lines : List Text)
      → All (IsOther header_line) lines
      → All (IsLine newline) lines
      → let text = join newline (appended lines (header_line ∷ fields)) in
        merge_lines text header_line (header_line ∷ fields) ≡ unchanged text
  unfolding separator without_blank_end body_of
  appended-settled lines others is_lines =
      subst
        (λ ls.
          merge_lines (join newline ls) header_line (header_line ∷ fields)
          ≡ unchanged (join newline ls))
        (append_assoc lines (separator lines) (header_line ∷ (fields ++ ([] ∷ []))))
        (settled (lines ++ separator lines) ([] ∷ [])
          (All-append (IsOther header_line) lines (separator lines) others (separator-others lines))
          (All-append (IsLine newline) lines (separator lines) is_lines (separator-lines lines))
          (tt, tt) refl)

  replaced-settled :
      (lines : List Text) (f : Found)
      → locate header_line lines ≡ some f
      → All (IsLine newline) lines
      → let text = join newline (replaced f (header_line ∷ fields)) in
        merge_lines text header_line (header_line ∷ fields) ≡ unchanged text
  unfolding IsPart without_blank_end
  replaced-settled lines f found is_lines =
      let (others, parts) = locate-IsPart header_line lines f found in
      settled f.before (rest_of f.after) others (parts is_lines).0
        (rest-lines f.after (parts is_lines).1) (ap without_blank_end (body-rest f.after))

  abbrev pub merged : Text → TomlMergeResult
  merged text = merge_lines text header_line (header_line ∷ fields)

  merged-absent :
      (text : Text)
      → locate header_line (lines_of text) ≡ none
      → (merged text).text ≡ join newline (appended (lines_of text) (header_line ∷ fields))
  unfolding merge_lines
  merged-absent text absent = rw (absent, merge_lines) refl

  merged-same :
      (text : Text) (f : Found)
      → locate header_line (lines_of text) ≡ some f
      → text_eq (previous_block f) (join newline (header_line ∷ fields)) ≡ true
      → merged text ≡ unchanged text
  unfolding merge_lines
  merged-same text f found same =
      let block_there =
        (text_eq_iff (previous_block f) (join newline (header_line ∷ fields))).0 same in
      rw (found, same, block_there, merge_lines) refl

  merged-other :
      (text : Text) (f : Found)
      → locate header_line (lines_of text) ≡ some f
      → text_eq (previous_block f) (join newline (header_line ∷ fields)) ≡ false
      → (merged text).text ≡ join newline (replaced f (header_line ∷ fields))
  unfolding merge_lines
  merged-other text f found other = rw (found, other, merge_lines) refl

  settles : {a b : Text} → a ≡ b → merged b ≡ unchanged b → merged a ≡ unchanged a
  settles same h = subst (λ x. merged x ≡ unchanged x) (sym same) h

  -- If the rendered block is a trimmed header line, not empty, and further lines that are not empty and begin
  -- no table, all without a line break, then a second merge into the result of a first merge of it, for any
  -- text, reports no change and leaves that text as it is, with the block as the previous one.
  pub merge_idempotent : (text : Text) → merged (merged text).text ≡ unchanged (merged text).text
  merge_idempotent text = elim (Option-cases (locate header_line (lines_of text))) [
    | inl absent ↦ settles (merged-absent text absent) (
        appended-settled (lines_of text) (locate-none header_line (lines_of text) absent)
          (lines_of_text text))
    | inr (f, found) ↦
        elim (Bool-cases (text_eq (previous_block f) (join newline (header_line ∷ fields)))) [
          | inl same ↦
              let first = merged-same text f found same in
              settles (ap (λ (r : TomlMergeResult). r.text) first) first
          | inr other ↦
              settles (merged-other text f found other)
                (replaced-settled (lines_of text) f found (lines_of_text text))
        ]
  ]
