-- ===== src/Core/Rbac.antt =====
-- packages/sdk-core/src/rbac.ts, packages/sdk/src/rbac.ts (the same code) and the `has` check of
-- packages/react/src/token-manager.ts: role and permission checks on the claims of a token.
pub mod Wildcard
use rakomi_js.Common.{
  Bool, true, false, not, ◌&&◌, ◌||◌, Option, none, some, List, [], ◌∷◌, ◌++◌, if◌then◌else◌,
}
use rakomi_js.Common.Text.{Text, codes, includes, split, is_empty}

-- `const [namespace] = permission.split(':')`
abbrev head_or_empty : List Text → Text
head_or_empty [] = []
head_or_empty (p ∷ ps) = p

unfoldable pub namespace_of : Text → Text
namespace_of permission = head_or_empty (split b':' permission)

-- `hasRole`
unfoldable pub has_role : List Text → Text → Bool
has_role roles role_key = includes roles role_key

-- `hasPermission`
unfoldable pub has_permission : List Text → Text → Bool
unfolding namespace_of
has_permission permissions permission =
    if includes permissions permission
    then true
    else if is_empty (namespace_of permission)
    then false
    else includes permissions (namespace_of permission ++ codes ":*")

-- A parameter of the `has` check; an empty one counts as absent.
abbrev given : Option Text → Bool
given none = false
given (some s) = not (is_empty s)

abbrev passes : (Text → Bool) → Option Text → Bool
passes check none = true
passes check (some s) = if is_empty s then true else check s

-- `createHasFunction`, for parameters without unknown keys (of which the source throws)
unfoldable pub has : List Text → List Text → Option Text → Option Text → Bool
unfolding has_permission has_role
has permissions roles permission role =
    if not (given permission) && not (given role)
    then false
    else passes (λ p. has_permission permissions p) permission
      && passes (λ r. has_role roles r) role
