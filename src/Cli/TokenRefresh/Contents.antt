-- ===== src/Cli/TokenRefresh/Contents.antt =====
-- What the writes of a refresh leave in the session store.
use rakomi_js.Common.{
  ℕ, Bool, true, false, not, ◌||◌, Option, none, some, List, ◌∷◌, ◌≡◌, ◌⊎◌, inl, inr, refl, arith,
  ◌==◌, ==_iff, if◌then◌else◌, is_some, Option-cases, Bool-cases,
}
use rakomi_js.Common.Text.{Text, text_eq, includes}
use rakomi_js.Cli.TokenRefresh.{
  StoredSession, is_transient_status, Write, keeps, throws_before, throws_after, loses, Fault,
  written, write_and_confirm, marked, without_marker, TokenResponse, Reply, lost, replied, Attempt,
  persisted, after_reply, usable, updated,
}
use rakomi_js.Cli.TokenRefresh.World.{is_success, Rotates}

-- The session of the store is marked, or its refresh token is not spent.
abbrev pub is_unspent : List Text → Option Text → Bool
is_unspent spent none = true
is_unspent spent (some token) = not (includes spent token)

abbrev pub is_safe : List Text → Option StoredSession → Bool
is_safe spent none = true
is_safe spent (some s) = is_some s.refresh_presented_at || is_unspent spent s.refresh_token

written-cases :
    (w : Write) (s : StoredSession) (c : Option StoredSession)
    → (written w s c ≡ some s) ⊎ (written w s c ≡ c)
written-cases keeps s c = inl refl
written-cases throws_before s c = inr refl
written-cases throws_after s c = inl refl
written-cases loses s c = inr refl

content-written :
    (f : Fault) (s : StoredSession) (c : Option StoredSession)
    → (write_and_confirm f s c).1 ≡ written f.write s c
unfolding write_and_confirm
content-written f s c = ground arith

pub write-safe :
    (spent : List Text) (f : Fault) (s : StoredSession) (c : Option StoredSession)
    → is_safe spent (some s) ≡ true
    → is_safe spent c ≡ true
    → is_safe spent (write_and_confirm f s c).1 ≡ true
write-safe spent f s c new old =
    rw (content-written f s c)
      (elim (written-cases f.write s c) [ inl kept ↦ rw kept new | inr same ↦ rw same old ])

abbrev pub is_marked : Option StoredSession → Bool
is_marked none = false
is_marked (some s) = is_some s.refresh_presented_at

pub confirmed-marked :
    (f : Fault) (now : ℕ) (s : StoredSession) (c : Option StoredSession)
    → (write_and_confirm f (marked now s) c).0 ≡ none
    → is_marked (write_and_confirm f (marked now s) c).1 ≡ true
unfolding write_and_confirm
confirmed-marked f now s c h = ground arith

marked-safe :
    (spent : List Text) (c : Option StoredSession) → is_marked c ≡ true → is_safe spent c ≡ true
marked-safe spent none h = cc
marked-safe spent (some s) h = rw h refl

persisted-cases :
    (session : StoredSession) (body : TokenResponse) (a : Attempt) (c : Option StoredSession)
    → ((persisted session body a c).1 ≡ c)
      ⊎ ((access_token : Text) × (expires_in : ℕ) × ((persisted session body a c).1
            ≡ (write_and_confirm a.at_persist
                (updated session access_token body expires_in a.received_at)
                c).1))
unfolding persisted
persisted-cases session body a c = elim (Option-cases (usable body.access_token)) [
  | inl nothing ↦ inl (rw (nothing, persisted) refl)
  | inr (access_token, there) ↦ elim (Option-cases body.expires_in) [
    | inl nothing ↦ inl (rw (there, nothing, persisted) refl)
    | inr (expires_in, timed) ↦
        inr (access_token, expires_in, rw (there, timed, persisted) ground arith)
  ]
]

-- What the reply leads to keeps the store safe, from a marked session on.
module _ (spent : List Text) (session : StoredSession) (token : Text) (a : Attempt)
    (named : session.refresh_token ≡ some token) (unspent : includes spent token ≡ false) where
  updated-safe :
      (body : TokenResponse) (access_token fresh : Text) (expires_in : ℕ)
      → body.refresh_token ≡ some fresh
      → includes spent fresh ≡ false
      → text_eq token fresh ≡ false
      → is_safe (token ∷ spent) (some (updated session access_token body expires_in a.received_at))
        ≡ true
  unfolding includes
  updated-safe body access_token fresh expires_in given new other = rw (given, new, other) refl

  persisted-safe :
      (body : TokenResponse) (c : Option StoredSession) (fresh : Text)
      → body.refresh_token ≡ some fresh
      → includes spent fresh ≡ false
      → text_eq token fresh ≡ false
      → is_safe (token ∷ spent) c ≡ true
      → is_safe (token ∷ spent) (persisted session body a c).1 ≡ true
  persisted-safe body c fresh given new other safe = elim (persisted-cases session body a c) [
    | inl same ↦ rw same safe
    | inr (access_token, expires_in, same) ↦ rw same (
        write-safe (token ∷ spent) a.at_persist
          (updated session access_token body expires_in a.received_at) c
          (updated-safe body access_token fresh expires_in given new other) safe)
  ]

  unmarked-safe : is_safe spent (some (without_marker session)) ≡ true
  unmarked-safe = rw (named, unspent) refl

  after_unmark-safe :
      (c : Option StoredSession)
      → is_marked c ≡ true
      → is_safe spent (write_and_confirm a.at_unmark (without_marker session) c).1 ≡ true
  after_unmark-safe c m =
      write-safe spent a.at_unmark (without_marker session) c unmarked-safe (marked-safe spent c m)

  failed-reply :
      (status : ℕ) (body : TokenResponse) (c : Option StoredSession)
      → (status == 200) ≡ false
      → (after_reply session a (replied status body) c).1
        ≡ (write_and_confirm a.at_unmark (without_marker session) c).1
  unfolding after_reply
  failed-reply status body c failed = elim (Bool-cases (is_transient_status status)) [
    | inl transient ↦ rw (transient, after_reply) refl
    | inr definitive ↦ rw (definitive, failed, after_reply) refl
  ]

  successful-reply :
      (status : ℕ) (body : TokenResponse) (c : Option StoredSession)
      → (status == 200) ≡ true
      → (after_reply session a (replied status body) c).1 ≡ (persisted session body a c).1
  unfolding after_reply is_transient_status
  successful-reply status body c good = rw ((==_iff status 200).0 good) refl

  pub replied-safe :
      (reply : Reply) (c : Option StoredSession)
      → Rotates spent token reply
      → is_marked c ≡ true
      → is_safe
          (if is_success reply then token ∷ spent else spent)
          (after_reply session a reply c).1
        ≡ true
  unfolding after_reply
  replied-safe lost c rotates m = after_unmark-safe c m
  replied-safe (replied status body) c (inl failed) m =
      rw (failed-reply status body c failed, failed) (after_unmark-safe c m)
  replied-safe (replied status body) c (inr (fresh, given, new, other)) m =
      elim (Bool-cases (status == 200)) [
        | inr failed ↦ rw (failed-reply status body c failed, failed) (after_unmark-safe c m)
        | inl good ↦
            rw (successful-reply status body c good, good)
              (persisted-safe body c fresh given new other (marked-safe (token ∷ spent) c m))
      ]
