-- ===== src/Node/CanonicalUrl.antt =====
-- packages/sdk/src/internal/canonical-url.ts: the form of a URL in which a proof and a request are
-- compared.
pub mod Paths
use rakomi_js.Common.{
  ℕ, Bool, true, false, ◌&&◌, ◌||◌, Option, none, some, List, [], ◌∷◌, ◌++◌, leb, ◌==◌,
  if◌then◌else◌,
}
use rakomi_js.Common.Text.{Text, codes, text_eq, is_empty, to_lower}

-- A parsed absolute URL (WHATWG); the port is empty when it is the scheme's default.
pub record Url : Type 0 where
  pub protocol : Text
  pub hostname : Text
  pub port : Text
  pub pathname : Text

-- `path.replace(/\/{2,}/g, '/')`: a slash is left out when one stands before it.
collapse : Bool → Text → Text
collapse after_slash [] = []
collapse after_slash (c ∷ s) =
    let rest = collapse (c == b'/') s in if after_slash && c == b'/' then rest else c ∷ rest

drop_last_slash : Text → Text
drop_last_slash [] = []
drop_last_slash (c ∷ []) = if c == b'/' then [] else c ∷ []
drop_last_slash (c ∷ d ∷ s) = c ∷ drop_last_slash (d ∷ s)

-- `collapsePath`; a path of one unit keeps its slash
unfoldable pub collapse_path : Text → Text
unfolding collapse drop_last_slash
collapse_path path = elim (collapse false path) [ [] ↦ [] | c ∷ s ↦ c ∷ drop_last_slash s ]

abbrev is_hex : ℕ → Bool
is_hex c = (leb b'0' c && leb c b'9') || (leb b'A' c && leb c b'F') || (leb b'a' c && leb c b'f')

-- `s.replace(/%([0-9A-Fa-f]{2})/g, …)` with the two digits in lower case
unfoldable pub lowercase_percent_hex : Text → Text
lowercase_percent_hex (c ∷ h ∷ l ∷ s) =
    let matched = lowercase_percent_hex s in
    let other = lowercase_percent_hex (h ∷ l ∷ s) in
    if c == b'%' && is_hex h && is_hex l then c ∷ to_lower (h ∷ l ∷ []) ++ matched else c ∷ other
lowercase_percent_hex s = s

abbrev host_of : Url → Text
host_of u = if is_empty u.port then u.hostname else u.hostname ++ b':' ∷ u.port

abbrev without_default_port : Url → Url
without_default_port u =
    if (text_eq u.protocol (codes "https:") && text_eq u.port (codes "443"))
      || (text_eq u.protocol (codes "http:") && text_eq u.port (codes "80"))
    then record u { port = [] }
    else u

-- `canonicalizeUrl` with no options; `none` is its exception
unfoldable pub canonicalize_url : (Text → Option Url) → Text → Option Text
unfolding collapse_path lowercase_percent_hex
canonicalize_url parse_url input = elim (parse_url input) [
  | none ↦ none
  | some u ↦ some (
      u.protocol
      ++ codes "//"
      ++ host_of (without_default_port u)
      ++ collapse_path (lowercase_percent_hex u.pathname))
]
