-- ===== src/Node/ResourceMetadata.antt =====
-- `buildProtectedResourceMetadata` of packages/sdk/src/resource-server.ts: the metadata document of a resource
-- server, for options of the declared types. `none` is the exception of an invalid option.
use rakomi_js.Common.{
  ℕ, Bool, true, false, not, ◌&&◌, ◌||◌, Option, none, some, List, [], ◌∷◌, ◌==◌, if◌then◌else◌,
  all, get_or, ◌≡◌, arith,
}
use rakomi_js.Common.Text.{Text, codes, text_eq}
use rakomi_js.Node.LogoutToken.{is_https}
use rakomi_js.Node.Challenge.{has_control_characters, is_valid_scope_token}

-- `ProtectedResourceMetadataOptions`
pub record ProtectedResourceMetadataOptions : Type 0 where
  pub resource : Text
  pub authorization_servers : List Text
  pub scopes_supported : Option (List Text)
  pub bearer_methods_supported : Option (List Text)
  pub resource_name : Option Text

-- `ProtectedResourceMetadata`
pub record ProtectedResourceMetadata : Type 0 where
  pub resource : Text
  pub authorization_servers : List Text
  pub scopes_supported : Option (List Text)
  pub bearer_methods_supported : List Text
  pub resource_name : Option Text

-- `value.includes(c)` for one code unit
unfoldable pub has_unit : ℕ → Text → Bool
has_unit c [] = false
has_unit c (d ∷ s) = d == c || has_unit c s

abbrev is_nil : List Text → Bool
is_nil [] = true
is_nil (x ∷ xs) = false

-- `VALID_BEARER_METHODS.has(method)`
abbrev is_bearer_method : Text → Bool
is_bearer_method m =
    text_eq m (codes "header") || text_eq m (codes "body") || text_eq m (codes "query")

abbrev are_scopes : Option (List Text) → Bool
are_scopes none = true
are_scopes (some scopes) = all is_valid_scope_token scopes

abbrev is_name : Option Text → Bool
is_name none = true
is_name (some name) = not (has_control_characters name)

-- An empty list is not advertised.
abbrev advertised : Option (List Text) → Option (List Text)
advertised none = none
advertised (some []) = none
advertised (some (s ∷ ss)) = some (s ∷ ss)

module _ (url_protocol : Text → Option Text) where
  abbrev pub is_server : Text → Bool
  is_server s = is_https (url_protocol s) && not (has_unit 35 s) && not (has_unit 63 s)

  abbrev are_valid : ProtectedResourceMetadataOptions → Bool
  are_valid o =
      is_https (url_protocol o.resource)
      && not (has_unit 35 o.resource)
      && not (is_nil o.authorization_servers)
      && all is_server o.authorization_servers
      && are_scopes o.scopes_supported
      && not (is_nil (get_or o.bearer_methods_supported (codes "header" ∷ [])))
      && all is_bearer_method (get_or o.bearer_methods_supported (codes "header" ∷ []))
      && is_name o.resource_name

  -- `buildProtectedResourceMetadata`
  unfoldable pub build_protected_resource_metadata :
      ProtectedResourceMetadataOptions → Option ProtectedResourceMetadata
  unfolding is_https has_unit has_control_characters
  build_protected_resource_metadata o =
      if are_valid o
      then some (record {
        resource = o.resource;
        authorization_servers = o.authorization_servers;
        scopes_supported = advertised o.scopes_supported;
        bearer_methods_supported = get_or o.bearer_methods_supported (codes "header" ∷ []);
        resource_name = o.resource_name;
      })
      else none

  -- A document that is built names only servers over https, without a query or a fragment.
  metadata_servers :
      (o : ProtectedResourceMetadataOptions) (m : ProtectedResourceMetadata)
      → build_protected_resource_metadata o ≡ some m
      → all is_server m.authorization_servers ≡ true
  unfolding build_protected_resource_metadata
  metadata_servers o m h = ground arith
