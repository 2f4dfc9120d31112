-- ===== src/Node/LogoutToken/Memo.antt =====
-- `getMemoizedJwksCache` of packages/sdk/src/verify-logout-token.ts: at most eight key caches, the one that
-- was used longest ago goes first.
use rakomi_js.Common.{
  ℕ, zero, suc, true, false, Option, none, some, List, [], ◌∷◌, ◌++◌, ◌≡◌, inl, inr, refl, sym, ap,
  ◌∙◌, arith, length, take, leb, if◌then◌else◌, Option-cases, is_some,
}
use rakomi_js.Common.Text.{Text, codes, text_eq, includes}

abbrev pub max_jwks_memo_entries : ℕ
max_jwks_memo_entries = 8

-- `memoKey`
unfoldable pub memo_key : Option Text → Text → Text
memo_key none issuer = codes "issuer:" ++ issuer
memo_key (some url) issuer = codes "url:" ++ url

-- `jwksMemo`, an ordered map, from its newest entry to its oldest one.
abbrev pub Memo {ℓ} : Type ℓ → Type ℓ
Memo A = List (Text × A)

module _ {ℓ} {A : Type ℓ} where
  -- The deletion of the first key in the order of insertion.
  unfoldable pub delete_oldest : List A → List A
  delete_oldest [] = []
  delete_oldest (x ∷ []) = []
  delete_oldest (x ∷ y ∷ xs) = x ∷ delete_oldest (y ∷ xs)

module _ {ℓ} {A : Type ℓ} where
  unfoldable pub lookup : Text → Memo A → Option A
  lookup key [] = none
  lookup key (entry ∷ memo) =
      let later = lookup key memo in if text_eq entry.0 key then some entry.1 else later

  -- `jwksMemo.delete(key)`
  unfoldable pub delete : Text → Memo A → Memo A
  delete key [] = []
  delete key (entry ∷ memo) =
      let later = delete key memo in if text_eq entry.0 key then memo else entry ∷ later

  -- `getMemoizedJwksCache`, with the cache that it creates where it finds none
  unfoldable pub get_memoized : A → Text → Memo A → A × Memo A
  unfolding lookup delete delete_oldest
  get_memoized created key memo = elim (lookup key memo) [
    | some existing ↦ (existing, (key, existing) ∷ delete key memo)
    | none ↦ (
      created,
      (key, created)
          ∷ (if leb max_jwks_memo_entries (length memo) then delete_oldest memo else memo),
    )
  ]

  -- The memo after a sequence of uses, with the cache that each would create.
  unfoldable pub use_all : Memo A → List (A × Text) → Memo A
  unfolding get_memoized
  use_all memo [] = memo
  use_all memo (u ∷ us) = use_all (get_memoized u.0 u.1 memo).1 us

-- The abstract view: all keys that were ever used, the last one first.
unfoldable pub remove : Text → List Text → List Text
remove k [] = []
remove k (x ∷ xs) = let later = remove k xs in if text_eq x k then xs else x ∷ later

unfoldable pub recent {ℓ} : {A : Type ℓ} → List Text → List (A × Text) → List Text
unfolding remove
recent seen [] = seen
recent seen (u ∷ us) = recent (u.1 ∷ remove u.1 seen) us

remove-take :
    (k : Text) (n : ℕ) (l : List Text)
    → includes (take (suc n) l) k ≡ true
    → remove k (take (suc n) l) ≡ take n (remove k l)
unfolding remove includes
remove-take k n [] h = cc
remove-take k zero (x ∷ xs) h = ground (arith)
remove-take k (suc n) (x ∷ xs) h = ground (arith, remove-take k n xs)

take-remove :
    (k : Text) (n : ℕ) (l : List Text)
    → includes (take (suc n) l) k ≡ false
    → take n (remove k l) ≡ take n l
unfolding remove includes
take-remove k zero l h = refl
take-remove k (suc n) [] h = refl
take-remove k (suc n) (x ∷ xs) h = ground (arith, take-remove k n xs)

oldest-take :
    (n : ℕ) (l : List Text)
    → (if leb (suc n) (length (take (suc n) l))
        then delete_oldest (take (suc n) l)
        else take (suc n) l)
      ≡ take n l
unfolding delete_oldest
oldest-take zero [] = refl
oldest-take (suc n) [] = ground arith
oldest-take zero (x ∷ xs) = ground arith
oldest-take (suc n) (x ∷ []) = ground (arith, oldest-take n [])
oldest-take (suc n) (x ∷ y ∷ xs) = ground (arith, oldest-take n (y ∷ xs))

module _ {ℓ} {A : Type ℓ} where
  abbrev pub keys_of : Memo A → List Text
  keys_of [] = []
  keys_of (entry ∷ memo) = entry.0 ∷ keys_of memo

  keys-delete : (k : Text) (m : Memo A) → keys_of (delete k m) ≡ remove k (keys_of m)
  unfolding delete remove
  keys-delete k [] = refl
  keys-delete k (entry ∷ m) = ground (arith, keys-delete k m)

  keys-delete_oldest : (m : Memo A) → keys_of (delete_oldest m) ≡ delete_oldest (keys_of m)
  unfolding delete_oldest
  keys-delete_oldest [] = refl
  keys-delete_oldest (x ∷ []) = refl
  keys-delete_oldest (x ∷ y ∷ m) = ap (λ l. x.0 ∷ l) (keys-delete_oldest (y ∷ m))

  length-keys : (m : Memo A) → length (keys_of m) ≡ length m
  length-keys [] = refl
  length-keys (x ∷ m) = ap suc (length-keys m)

  includes-lookup : (k : Text) (m : Memo A) → includes (keys_of m) k ≡ is_some (lookup k m)
  unfolding includes lookup
  includes-lookup k [] = refl
  includes-lookup k (entry ∷ m) = ground (arith, includes-lookup k m)

  -- The keys of a memo are the eight that were used last.
  abbrev Represents : List Text → Memo A → Type 0
  Represents seen memo = keys_of memo ≡ take max_jwks_memo_entries seen

  keys-evicted :
      (m : Memo A)
      → keys_of (if leb max_jwks_memo_entries (length m) then delete_oldest m else m) ≡ (
          if leb max_jwks_memo_entries (length (keys_of m))
          then delete_oldest (keys_of m)
          else keys_of m)
  keys-evicted m = ground (arith, keys-delete_oldest m, length-keys m)

  known :
      (k : Text) (m : Memo A) (seen : List Text)
      → Represents seen m
      → includes (take max_jwks_memo_entries seen) k ≡ is_some (lookup k m)
  known k m seen h = ap (λ l. includes l k) (sym h) ∙ includes-lookup k m

  get_memoized-Represents :
      (a : A) (k : Text) (m : Memo A) (seen : List Text)
      → Represents seen m
      → Represents (k ∷ remove k seen) (get_memoized a k m).1
  unfolding get_memoized
  get_memoized-Represents a k m seen h = elim (Option-cases (lookup k m)) [
    | inr (existing, hit) ↦
        rw (hit, get_memoized)
          (ap (λ l. k ∷ l)
            (keys-delete k m
              ∙ ap (remove k) h
              ∙ remove-take k 7 seen (known k m seen h ∙ ap is_some hit)))
    | inl miss ↦
        rw (miss, get_memoized)
          (ap (λ l. k ∷ l)
            (keys-evicted m
              ∙ ap (λ l. if leb max_jwks_memo_entries (length l) then delete_oldest l else l) h
              ∙ oldest-take 7 seen
              ∙ sym (take-remove k 7 seen (known k m seen h ∙ ap is_some miss))))
  ]

  use_all-Represents :
      (memo : Memo A) (seen : List Text) (us : List (A × Text))
      → Represents seen memo
      → Represents (recent seen us) (use_all memo us)
  unfolding recent use_all
  use_all-Represents memo seen [] h = h
  use_all-Represents memo seen (u ∷ us) h =
      use_all-Represents (get_memoized u.0 u.1 memo).1 (u.1 ∷ remove u.1 seen) us
        (get_memoized-Represents u.0 u.1 memo seen h)

  -- After any sequence of uses, from no cache on, the memo has exactly the eight keys that were used last,
  -- the last one first, and all keys while there are fewer: it implements a list of all keys by
  -- recency, cut after eight.
  pub memo_refines_recency :
      (uses : List (A × Text))
      → keys_of (use_all [] uses) ≡ take max_jwks_memo_entries (recent [] uses)
  memo_refines_recency uses = use_all-Represents [] [] uses refl
