-- ===== src/Node/Challenge.antt =====
-- `buildChallenge` of packages/sdk/src/resource-server.ts: the `WWW-Authenticate` header that a resource server
-- answers with. `none` is the exception of an invalid option.
pub mod Quoting
use rakomi_js.Common.Options.{◌>>=◌}
use rakomi_js.Common.{
  ℕ, Bool, true, false, not, ◌&&◌, ◌||◌, Option, none, some, List, [], ◌∷◌, ◌++◌, ltb, leb, ◌==◌,
  if◌then◌else◌, all,
}
use rakomi_js.Common.Text.{Text, codes, is_empty, split}
use rakomi_js.Node.LogoutToken.{is_https}

-- `hasControlCharacters`
unfoldable pub has_control_characters : Text → Bool
has_control_characters [] = false
has_control_characters (c ∷ s) = ltb c 32 || c == 127 || has_control_characters s

-- `escapeQuotedString`, for the quotation mark and the backslash
unfoldable pub escape_quoted_string : Text → Text
escape_quoted_string [] = []
escape_quoted_string (c ∷ s) =
    let more = escape_quoted_string s in if c == 34 || c == 92 then 92 ∷ c ∷ more else c ∷ more

abbrev is_scope_character : ℕ → Bool
is_scope_character c = c == 33 || (leb 35 c && leb c 91) || (leb 93 c && leb c 126)

-- `isValidScopeToken`
abbrev pub is_valid_scope_token : Text → Bool
is_valid_scope_token s = not (is_empty s) && all is_scope_character s

-- `isValidScopeList`
unfoldable pub is_valid_scope_list : Text → Bool
is_valid_scope_list s = not (is_empty s) && all is_valid_scope_token (split 32 s)

-- `writeChallengeParam`
unfoldable pub write_challenge_param : Text → Text → Option Text
unfolding has_control_characters escape_quoted_string
write_challenge_param name value =
    if has_control_characters value
    then none
    else some (name ++ (codes "=\"" ++ (escape_quoted_string value ++ codes "\"")))

-- A parameter that may be left out
abbrev pub write_optional : Text → Option Text → Option (List Text)
write_optional name none = some []
write_optional name (some value) = elim (write_challenge_param name value) [
  | none ↦ none
  | some param ↦ some (param ∷ [])
]

-- `params.join(', ')`
unfoldable pub joined : List Text → Text
joined [] = []
joined (p ∷ []) = p
joined (p ∷ q ∷ ps) = p ++ (codes ", " ++ joined (q ∷ ps))

pub data ChallengeErrorCode : Type 0 where
  invalid_token insufficient_scope : ChallengeErrorCode

abbrev pub error_name : Option ChallengeErrorCode → Option Text
error_name none = none
error_name (some invalid_token) = some (codes "invalid_token")
error_name (some insufficient_scope) = some (codes "insufficient_scope")

-- `ChallengeOptions`
pub record ChallengeOptions : Type 0 where
  pub resource_metadata_url : Text
  pub scope : Option Text
  pub error : Option ChallengeErrorCode

abbrev pub is_scope : Option Text → Bool
is_scope none = true
is_scope (some scope) = is_valid_scope_list scope

-- `buildChallenge`
unfoldable pub build_challenge : (Text → Option Text) → ChallengeOptions → Option Text
unfolding is_https is_valid_scope_list write_challenge_param joined
build_challenge url_protocol o =
    if is_https (url_protocol o.resource_metadata_url) && is_scope o.scope
    then (do
      error ← write_optional (codes "error") (error_name o.error)
      metadata ← write_challenge_param (codes "resource_metadata") o.resource_metadata_url
      scope ← write_optional (codes "scope") o.scope
      some (codes "Bearer " ++ joined (error ++ (metadata ∷ scope))))
    else none
