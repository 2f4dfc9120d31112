-- ===== src/Node/JwksCache/Keys.antt =====
-- The keys of the cache, and so those that a lookup gives out, come from acceptable key records.
use mathlib.Core.Path.{subst}
use rakomi_js.Common.{
  sym, ℕ, Bool, true, false, Option, none, some, List, [], ◌∷◌, ◌≡◌, refl, arith, All, All-append,
  ◌++◌, if◌then◌else◌, Option-cases, Bool-cases, inl, inr,
}
use rakomi_js.Common.Text.{Text, text_eq, text_eq_iff}
use rakomi_js.Common.Json.{null, bool, num, str, arr, obj, Items, nil, cons, Fields, get, as_items}
use rakomi_js.Common.Results.{Result, ok, err, thrown}
use rakomi_js.Node.Errors.{SdkError}
use rakomi_js.Node.SigningAlgorithms.{
  is_acceptable_signing_jwk, IsAcceptable, is_acceptable_signing_jwk-IsAcceptable,
}
use rakomi_js.Node.JwksCache.{
  JwkEntry, ResolvedKey, JwksCache, Fetched, discovery_failed, fetch_failed, http_error, response,
  entry_of, entries_of, unreachable, from_keys, after_refresh, stored, do_refresh, settle, find_key,
  resolved, Lookup, answered, waits, get_key, keys_of, after_wait, Event, asks, settles, step, run,
  initial,
}

module _ {Key : Type 0} (import_jwk : Fields → Text → Option Key) where
  -- An entry is the import of a record that passes `isAcceptableSigningJwk`, under the record's own
  -- key id and algorithm.
  pub record FromRecord (e : JwkEntry Key) : Type 0 where
    pub jwk : Fields
    pub acceptable : IsAcceptable jwk
    pub same_kid : e.kid ≡ acceptable.kid
    pub same_alg : e.alg ≡ acceptable.alg
    pub imported : import_jwk jwk e.alg ≡ some e.key

  entry_of-FromRecord : (jwk : Fields) → IsAcceptable jwk → All FromRecord (entry_of import_jwk jwk)
  unfolding entry_of
  entry_of-FromRecord jwk a = elim (Option-cases (import_jwk jwk a.alg)) [
    | inl missing ↦ rw (a.kid_claim, a.alg_claim, missing, entry_of) tt
    | inr (key, found) ↦
        rw (a.kid_claim, a.alg_claim, found, entry_of)
          (
            record {
              jwk = jwk;
              acceptable = a;
              same_kid = refl;
              same_alg = refl;
              imported = found;
            },
            tt,
          )
  ]

  -- `none` is the exception of the loop; otherwise all that it collects is sound.
  abbrev Sound? : Option (List (JwkEntry Key)) → Type 0
  Sound? none = Unit
  Sound? (some es) = All FromRecord es

  entries_of-Sound? : (vs : Items) → Sound? (entries_of import_jwk vs)
  unfolding entries_of
  entries_of-Sound? nil = tt
  entries_of-Sound? (cons null vs) = tt
  entries_of-Sound? (cons (obj jwk) vs) = obj_case (entries_of import_jwk vs) (entries_of-Sound? vs)
    where
      obj_case :
          (rest : Option (List (JwkEntry Key)))
          → Sound? rest
          → Sound? (elim rest [
            | none ↦ none
            | some es ↦
                some (if is_acceptable_signing_jwk jwk then entry_of import_jwk jwk ++ es else es)
          ])
      obj_case none h = tt
      obj_case (some es) h = elim (Bool-cases (is_acceptable_signing_jwk jwk)) [
        | inl yes' ↦ rw yes' (
            All-append FromRecord (entry_of import_jwk jwk) es
              (entry_of-FromRecord jwk (is_acceptable_signing_jwk-IsAcceptable jwk yes')) h)
        | inr no' ↦ rw no' h
      ]
  entries_of-Sound? (cons (bool b) vs) = entries_of-Sound? vs
  entries_of-Sound? (cons (num n) vs) = entries_of-Sound? vs
  entries_of-Sound? (cons (str s) vs) = entries_of-Sound? vs
  entries_of-Sound? (cons (arr a) vs) = entries_of-Sound? vs

  abbrev IsSound : JwksCache Key → Type 0
  IsSound c = All FromRecord (keys_of c.cache)

  abbrev IsSoundResult : Result SdkError (JwksCache Key) → Type 0
  IsSoundResult (ok c) = IsSound c
  IsSoundResult _ = Unit

  stored-IsSound :
      (url : Text) (body : Fields) (cache_control : Option Text) (now : ℕ) (c : JwksCache Key)
      (collected : Option (List (JwkEntry Key)))
      → Sound? collected
      → IsSoundResult (stored import_jwk url body cache_control now c collected)
  stored-IsSound url body cache_control now c none h = tt
  stored-IsSound url body cache_control now c (some es) h = h

  unreachable-IsSound : (c : JwksCache Key) → IsSound c → IsSoundResult (unreachable import_jwk c)
  unreachable-IsSound c h = elim (Option-cases c.cache) [
    | inl missing ↦ rw (missing, unreachable) tt
    | inr (state, found) ↦ rw (found, unreachable) h
  ]

  from_keys-IsSound :
      (url : Text) (body : Fields) (cache_control : Option Text) (now : ℕ) (c : JwksCache Key)
      (keys : Option Items)
      → IsSoundResult (from_keys import_jwk url body cache_control now c keys)
  from_keys-IsSound url body cache_control now c none = tt
  from_keys-IsSound url body cache_control now c (some keys) =
      stored-IsSound url body cache_control now c (entries_of import_jwk keys)
        (entries_of-Sound? keys)

  do_refresh-IsSound :
      (fetched : Fetched) (now : ℕ) (c : JwksCache Key)
      → IsSound c
      → IsSoundResult (do_refresh import_jwk fetched now c)
  unfolding do_refresh
  do_refresh-IsSound discovery_failed now c h = unreachable-IsSound c h
  do_refresh-IsSound fetch_failed now c h = unreachable-IsSound c h
  do_refresh-IsSound (http_error status) now c h = unreachable-IsSound c h
  do_refresh-IsSound (response url (some (obj body)) cache_control) now c h =
      from_keys-IsSound url body cache_control now c (as_items (get "keys" body))
  do_refresh-IsSound (response url _ cache_control) now c h = tt

  settle-IsSound :
      (fetched : Fetched) (now : ℕ) (c : JwksCache Key)
      → IsSound c
      → IsSound (settle import_jwk fetched now c)
  unfolding settle
  settle-IsSound fetched now c h =
      after (do_refresh import_jwk fetched now c) (do_refresh-IsSound fetched now c h)
    where
      after :
          (r : Result SdkError (JwksCache Key))
          → IsSoundResult r
          → IsSound (after_refresh import_jwk c r)
      after (ok c') k = k
      after (err e) k = h
      after thrown k = h

  pub get_key_keeps :
      (kid : Text) (now : ℕ) (c : JwksCache Key) → (get_key kid now c).1.cache ≡ c.cache
  unfolding get_key
  get_key_keeps kid now c = ground arith

  step-IsSound : (c : JwksCache Key) (e : Event) → IsSound c → IsSound (step import_jwk c e)
  unfolding step
  step-IsSound c (asks kid now) h =
      subst (λ o. All FromRecord (keys_of o)) (sym (get_key_keeps kid now c)) h
  step-IsSound c (settles fetched now) h =
      either c.refreshing (settle import_jwk fetched now c) (settle-IsSound fetched now c h)
    where
      either : (b : Bool) (d : JwksCache Key) → IsSound d → IsSound (if b then d else c)
      either true d k = k
      either false d k = h

  run-IsSound : (c : JwksCache Key) (es : List Event) → IsSound c → IsSound (run import_jwk c es)
  unfolding run
  run-IsSound c [] h = h
  run-IsSound c (e ∷ es) h = run-IsSound (step import_jwk c e) es (step-IsSound c e h)

  -- What a lookup answers: a key under the id that was asked for, imported from an acceptable record.
  pub record IsAnswer (kid : Text) (k : ResolvedKey Key) : Type 0 where
    pub entry : JwkEntry Key
    pub from_record : FromRecord entry
    pub asked : entry.kid ≡ kid
    pub same_key : k.key ≡ entry.key
    pub same_alg : k.alg ≡ entry.alg

  find_key_sound :
      (kid : Text) (es : List (JwkEntry Key)) (k : ResolvedKey Key)
      → All FromRecord es
      → resolved (find_key kid es) ≡ ok k
      → IsAnswer kid k
  unfolding find_key
  find_key_sound kid [] k h e = cc
  find_key_sound kid (x ∷ es) k h e = elim (Bool-cases (text_eq x.kid kid)) [
    | inl hit ↦ record {
      entry = x;
      from_record = h.0;
      asked = (text_eq_iff x.kid kid).0 hit;
      same_key = ground arith;
      same_alg = ground arith;
    }
    | inr miss ↦ find_key_sound kid es k h.1 (ground arith)
  ]

  -- `getKey` from its call to its answer: where it waits, the events of `later` come in between, and
  -- then the network's answer settles the refresh.
  unfoldable pub answer_of :
      JwksCache Key → Text → ℕ → List Event → Fetched → ℕ → Result SdkError (ResolvedKey Key)
  answer_of c kid now later fetched settled = elim (get_key kid now c).0 [
    | answered r ↦ r
    | waits ↦
        after_wait kid
          (do_refresh import_jwk fetched settled (run import_jwk (get_key kid now c).1 later))
  ]

  get_key-IsSound :
      (kid : Text) (now : ℕ) (c : JwksCache Key) → IsSound c → IsSound (get_key kid now c).1
  get_key-IsSound kid now c h =
      subst (λ o. All FromRecord (keys_of o)) (sym (get_key_keeps kid now c)) h

  answered_sound :
      (kid : Text) (now : ℕ) (c : JwksCache Key) (k : ResolvedKey Key)
      → IsSound c
      → (get_key kid now c).0 ≡ answered (ok k)
      → IsAnswer kid k
  unfolding get_key
  answered_sound kid now c k h e = find_key_sound kid (keys_of c.cache) k h (ground arith)

  after_wait_sound :
      (kid : Text) (r : Result SdkError (JwksCache Key)) (k : ResolvedKey Key)
      → IsSoundResult r
      → after_wait kid r ≡ ok k
      → IsAnswer kid k
  unfolding after_wait
  after_wait_sound kid (ok c) k h e = find_key_sound kid (keys_of c.cache) k h e
  after_wait_sound kid (err x) k h e = cc
  after_wait_sound kid thrown k h e = cc

  ended_sound :
      (kid : Text) (now settled : ℕ) (later : List Event) (fetched : Fetched) (c : JwksCache Key)
      (k : ResolvedKey Key)
      → IsSound c
      → answer_of c kid now later fetched settled ≡ ok k
      → IsAnswer kid k
  unfolding answer_of
  ended_sound kid now settled later fetched c k sound h =
      ended (get_key kid now c).0 (λ e. answered_sound kid now c k sound e) h
    where
      ended :
          (l : Lookup Key)
          → (l ≡ answered (ok k) → IsAnswer kid k)
          → (elim l [
            | answered r ↦ r
            | waits ↦
                after_wait kid (
                  do_refresh import_jwk fetched settled
                    (run import_jwk (get_key kid now c).1 later))
          ])
            ≡ ok k
          → IsAnswer kid k
      ended (answered r) found e = found (rw e)
      ended waits found e =
          after_wait_sound kid _ k
            (do_refresh-IsSound fetched settled (run import_jwk (get_key kid now c).1 later)
              (run-IsSound _ later (get_key-IsSound kid now c sound)))
            e

  -- After any history from a new cache, a lookup that ends with a key (at once, or once the refresh
  -- that it waits for is settled, with any events in between) gives a key that was imported from a
  -- record that `isAcceptableSigningJwk` accepts, whose key id is the one asked for and whose algorithm
  -- is the one given with the key.
  pub get_key_sound :
      (es later : List Event) (kid : Text) (k : ResolvedKey Key) (now settled : ℕ)
      (fetched : Fetched)
      → answer_of (run import_jwk initial es) kid now later fetched settled ≡ ok k
      → IsAnswer kid k
  get_key_sound es later kid k now settled fetched h =
      ended_sound kid now settled later fetched (run import_jwk initial es) k
        (run-IsSound initial es tt) h
