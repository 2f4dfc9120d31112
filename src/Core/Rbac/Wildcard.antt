-- ===== src/Core/Rbac/Wildcard.antt =====
-- Which permissions grant a permission.
use rakomi_js.Common.{
  ℕ, true, List, [], ◌∷◌, ◌++◌, ◌≡◌, ◌≢◌, ◌↔◌, ◌⊎◌, inl, inr, refl, arith, ◌==◌, Bool-cases,
}
use rakomi_js.Common.Text.{IsIn, includes_iff, Text, codes, split, cons_part}
use rakomi_js.Core.Rbac.{head_or_empty, namespace_of, has_permission}

-- The text up to its first colon.
abbrev pub IsNamespace : Text → Text → Type 0
IsNamespace [] [] = Unit
IsNamespace [] (c ∷ s) = c ≡ b':'
IsNamespace (d ∷ n) [] = ⊥
IsNamespace (d ∷ n) (c ∷ s) = (d ≡ c) × (c ≢ b':') × IsNamespace n s

head-cons_part : (c : ℕ) (ps : List Text) → head_or_empty (cons_part c ps) ≡ c ∷ head_or_empty ps
head-cons_part c [] = refl
head-cons_part c (p ∷ ps) = refl

namespace_of-IsNamespace : (s : Text) → IsNamespace (namespace_of s) s
unfolding namespace_of split
namespace_of-IsNamespace [] = tt
namespace_of-IsNamespace (c ∷ s) = elim (Bool-cases (c == b':')) [
  | inl colon ↦ rw colon (ground arith)
  | inr other ↦
      rw (other, head-cons_part c (split b':' s)) (refl, ground arith, namespace_of-IsNamespace s)
]

namespace_unique : (s m n : Text) → IsNamespace m s → IsNamespace n s → m ≡ n
namespace_unique [] [] [] h k = refl
namespace_unique [] [] (d ∷ n) h k = absurd k
namespace_unique [] (d ∷ m) n h k = absurd h
namespace_unique (c ∷ s) [] [] h k = refl
namespace_unique (c ∷ s) [] (d ∷ n) h k = absurd (k.1 h)
namespace_unique (c ∷ s) (d ∷ m) [] h k = absurd (h.1 k)
namespace_unique (c ∷ s) (d ∷ m) (d' ∷ n) h k = rw (h.0, k.0, namespace_unique s m n h.2 k.2) refl

-- What grants a permission: itself, or the wildcard of its namespace, which must not be empty.
pub record IsGranted (permissions : List Text) (permission : Text) : Type 0 where
  pub namespace : Text
  pub is_namespace : IsNamespace namespace permission
  pub by :
      IsIn permission permissions ⊎ ((namespace ≢ []) × IsIn (namespace ++ codes ":*") permissions)

-- `hasPermission` holds exactly if the permission is among the list, or the part of it before its
-- first colon is not empty and the list has that part followed by `:*`.
pub has_permission_iff :
    (permissions : List Text) (permission : Text)
    → (has_permission permissions permission ≡ true) ↔ IsGranted permissions permission
unfolding has_permission
has_permission_iff permissions permission = (sound, complete)
  where
    sound : has_permission permissions permission ≡ true → IsGranted permissions permission
    sound h = record {
      namespace = namespace_of permission;
      is_namespace = namespace_of-IsNamespace permission;
      by = ground (
        arith,
        includes_iff permissions permission,
        includes_iff permissions (namespace_of permission ++ codes ":*"),
      );
    }

    complete : IsGranted permissions permission → has_permission permissions permission ≡ true
    complete g =
        let same =
          namespace_unique permission g.namespace (namespace_of permission) g.is_namespace
            (namespace_of-IsNamespace permission) in
        ground (
          arith,
          same,
          g.by,
          includes_iff permissions permission,
          includes_iff permissions (namespace_of permission ++ codes ":*"),
        )
