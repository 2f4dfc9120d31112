-- ===== src/Cli/TomlConfig.antt =====
-- `mergeTomlServerTable` of packages/cli/src/toml-config.ts: the edit of one table in the text of a TOML file.
pub mod Parts
pub mod Idempotence
use rakomi_js.Common.{
  ℕ, Bool, true, false, not, ◌&&◌, Option, none, some, List, [], ◌∷◌, ◌++◌, map, if◌then◌else◌,
  ◌==◌,
}
use rakomi_js.Common.Text.{Text, codes, text_eq, is_empty, trim, split, join}

abbrev pub newline : ℕ
newline = 10

-- `renderTomlBlockLines`; `quote` is `JSON.stringify` on a string
unfoldable pub render_toml_block_lines : (Text → Text) → Text → List (Text × Text) → List Text
render_toml_block_lines quote header fields =
    (codes "[" ++ header ++ codes "]")
    ∷ map (λ (field : Text × Text). field.0 ++ codes " = " ++ quote field.1) fields

-- The lines before the header line, that line, and the lines after it.
pub record Found : Type 0 where
  pub before : List Text
  pub line : Text
  pub after : List Text

-- The search for the header line
unfoldable pub locate : Text → List Text → Option Found
locate header_line [] = none
locate header_line (l ∷ ls) =
    let later = locate header_line ls in
    if text_eq (trim l) header_line
    then some (record { before = []; line = l; after = ls })
    else elim later [
      | none ↦ none
      | some f ↦ some (record { before = l ∷ f.before; line = f.line; after = f.after })
    ]

-- `/^\[/.test(line)`
abbrev pub starts_table : Text → Bool
starts_table [] = false
starts_table (c ∷ s) = c == b'['

-- The lines up to the next table, and those from it on.
unfoldable pub body_of : List Text → List Text
body_of [] = []
body_of (l ∷ ls) = let more = body_of ls in if starts_table l then [] else l ∷ more

unfoldable pub rest_of : List Text → List Text
rest_of [] = []
rest_of (l ∷ ls) = let more = rest_of ls in if starts_table l then l ∷ ls else more

abbrev is_nil : List Text → Bool
is_nil [] = true
is_nil (x ∷ xs) = false

-- Without the empty lines at the end.
unfoldable pub without_blank_end : List Text → List Text
without_blank_end [] = []
without_blank_end (l ∷ ls) =
    let more = without_blank_end ls in if is_nil more && is_empty l then [] else l ∷ more

-- `lines.length > 0 && lines[lines.length - 1] !== ''`
unfoldable pub needs_separator : List Text → Bool
needs_separator [] = false
needs_separator (l ∷ []) = not (is_empty l)
needs_separator (l ∷ m ∷ ls) = needs_separator (m ∷ ls)

-- The merge on lines: the new lines, or none where nothing changes.
abbrev pub appended : List Text → List Text → List Text
appended lines block =
    lines ++ ((if needs_separator lines then [] ∷ [] else []) ++ (block ++ ([] ∷ [])))

abbrev pub replaced : Found → List Text → List Text
replaced f block = f.before ++ (block ++ rest_of f.after)

abbrev pub previous_block : Found → Text
previous_block f = join newline (f.line ∷ without_blank_end (body_of f.after))

-- `TomlMergeResult`
pub record TomlMergeResult : Type 0 where
  pub text : Text
  pub changed : Bool
  pub previous_block : Option Text

abbrev pub lines_of : Text → List Text
lines_of text = if is_empty text then [] else split newline text

-- `mergeTomlServerTable` with the lines of the new block, the first of which is the header line
unfoldable pub merge_lines : Text → Text → List Text → TomlMergeResult
unfolding locate rest_of without_blank_end body_of needs_separator
merge_lines text header_line block = elim (locate header_line (lines_of text)) [
  | none ↦ record {
    text = join newline (appended (lines_of text) block);
    changed = true;
    previous_block = none;
  }
  | some f ↦
      if text_eq (previous_block f) (join newline block)
      then record { text = text; changed = false; previous_block = some (previous_block f) }
      else record {
        text = join newline (replaced f block);
        changed = true;
        previous_block = some (previous_block f);
      }
]

-- `mergeTomlServerTable`, with the fields of the table in order
unfoldable pub merge_toml_server_table :
    (Text → Text) → Text → Text → List (Text × Text) → TomlMergeResult
unfolding merge_lines render_toml_block_lines
merge_toml_server_table quote text header fields =
    merge_lines text (codes "[" ++ header ++ codes "]")
      (render_toml_block_lines quote header fields)
