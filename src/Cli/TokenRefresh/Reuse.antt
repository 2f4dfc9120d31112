-- ===== src/Cli/TokenRefresh/Reuse.antt =====
-- A refresh token that the server has rotated is not sent again.
use rakomi_js.Common.{
  ℕ, true, false, ◌||◌, Option, none, some, List, [], ◌∷◌, ◌≡◌, ◌⊎◌, inl, inr, refl, sym, ap, ◌∙◌,
  arith, is_some, Option-cases, Bool-cases,
}
use rakomi_js.Common.Text.{Text, text_eq_refl, includes}
use rakomi_js.Cli.TokenRefresh.{
  StoredSession, same_option, write_and_confirm, marked, Attempt, Refreshed, after_reply,
  send_marked, refresh_unlocked, refresh_session, usable,
}
use rakomi_js.Cli.TokenRefresh.World.{World, attempt, next, run, Rotates, IsRotating}
use rakomi_js.Cli.TokenRefresh.Contents.{
  is_unspent, is_safe, write-safe, confirmed-marked, replied-safe,
}

same_option_refl : (o : Option Text) → same_option o o ≡ true
same_option_refl none = refl
same_option_refl (some t) = text_eq_refl t

-- A refresh of the stored session does not send a token, and leaves the store alone.
abbrev Idle : Option StoredSession → Refreshed → Type 0
Idle c r = (r.presented ≡ none) × (r.content ≡ c)

-- Or it marks the session and sends its token.
abbrev Sends : StoredSession → Attempt → Option StoredSession → Refreshed → Type 0
Sends s a c r =
    (token : Text) × (s.refresh_token ≡ some token)
    × (s.refresh_presented_at ≡ none)
    × (r ≡ send_marked s token a c)

usable-some : (o : Option Text) (t : Text) → usable o ≡ some t → o ≡ some t
usable-some o t h = ground arith

unlocked-cases :
    (s : StoredSession) (a : Attempt) (c : Option StoredSession)
    → Idle c (refresh_unlocked s a c) ⊎ Sends s a c (refresh_unlocked s a c)
unfolding refresh_unlocked
unlocked-cases s a c = elim (Option-cases (usable s.refresh_token)) [
  | inl nothing ↦ inl (rw (nothing, refresh_unlocked) (refl, refl))
  | inr (token, there) ↦ elim (Option-cases s.refresh_presented_at) [
    | inr (at, marked_at) ↦ inl (rw (there, marked_at, refresh_unlocked) (refl, refl))
    | inl unmarked ↦ inr (
      token,
      usable-some s.refresh_token token there,
      unmarked,
      rw (there, unmarked, refresh_unlocked) refl,
    )
  ]
]

session-cases :
    (s : StoredSession) (a : Attempt)
    → Idle (some s) (refresh_session s true a (some s))
      ⊎ Sends s a (some s) (refresh_session s true a (some s))
unfolding refresh_session
session-cases s a = elim (Option-cases (usable s.refresh_token)) [
  | inl nothing ↦ inl (rw (nothing, refresh_session) (refl, refl))
  | inr (token, there) ↦
      rw (there, same_option_refl s.refresh_token, refresh_session) (unlocked-cases s a (some s))
]

attempt-cases :
    (w : World) (a : Attempt)
    → Idle w.content (attempt w a)
      ⊎ ((s : StoredSession) × (w.content ≡ some s) × Sends s a (some s) (attempt w a))
unfolding attempt
attempt-cases w a = elim (Option-cases w.content) [
  | inl empty ↦ inl (rw (empty, attempt) (refl, refl))
  | inr (s, there) ↦ elim (session-cases s a) [
    | inl idle ↦ inl (rw (there, attempt) idle)
    | inr sends ↦ inr (s, there, rw (there, attempt) sends)
  ]
]

-- A mark that is not confirmed, or a key store that throws, stops the refresh; else there is a reply.
send-cases :
    (s : StoredSession) (token : Text) (a : Attempt) (c : Option StoredSession)
    → let wc = write_and_confirm a.at_mark (marked a.sent_at s) c in
      let r = send_marked s token a c in
      ((r.presented ≡ none) × (r.content ≡ wc.1))
      ⊎ ((r.presented ≡ some token)
          × (wc.0 ≡ none)
          × (r.content ≡ (after_reply s a a.reply wc.1).1))
unfolding send_marked
send-cases s token a c =
    elim (Option-cases (write_and_confirm a.at_mark (marked a.sent_at s) c).0) [
      | inr (reason, failed) ↦ inl (rw (failed, send_marked) (refl, refl))
      | inl confirmed ↦ elim (Bool-cases a.key_throws) [
        | inl throws ↦ inl (rw (confirmed, throws, send_marked) (refl, refl))
        | inr there ↦ inr (rw (confirmed, there, send_marked) (refl, refl, refl))
      ]
    ]

-- The store is safe, and a token that an attempt sends is not spent.
abbrev IsSafe : World → Type 0
IsSafe w = is_safe w.spent w.content ≡ true

unmarked-unspent :
    (spent : List Text) (s : StoredSession) (token : Text)
    → s.refresh_token ≡ some token
    → s.refresh_presented_at ≡ none
    → is_safe spent (some s) ≡ true
    → includes spent token ≡ false
unmarked-unspent spent s token named unmarked safe = ground arith

presented_of : {r r' : Refreshed} {o : Option Text} → r ≡ r' → r'.presented ≡ o → r.presented ≡ o
presented_of e h = ap (λ (r : Refreshed). r.presented) e ∙ h

content_of : {r r' : Refreshed} {c : Option StoredSession} → r ≡ r' → r'.content ≡ c → r.content ≡ c
content_of e h = ap (λ (r : Refreshed). r.content) e ∙ h

pub some_injective : {a b : Text} → ◌≡◌ {A = Option Text} (some a) (some b) → a ≡ b
some_injective h = cc

none_presented : {o : Option Text} {t : Text} → o ≡ none → o ≡ some t → ⊥
none_presented e h = cc

presented-unspent :
    (w : World) (a : Attempt) (token : Text)
    → IsSafe w
    → (attempt w a).presented ≡ some token
    → includes w.spent token ≡ false
presented-unspent w a token safe sent = elim (attempt-cases w a) [
  | inl (nothing, same) ↦ absurd (none_presented nothing sent)
  | inr (s, there, (t, named, unmarked, is_sent)) ↦ elim (send-cases s t a (some s)) [
    | inl (nothing, same) ↦ absurd (none_presented (presented_of is_sent nothing) sent)
    | inr (sends, confirmed, same) ↦
        let same_token = some_injective (sym (presented_of is_sent sends) ∙ sent) in
        rw same_token at (unmarked-unspent w.spent s t named unmarked (rw there at safe))
  ]
]

next-IsSafe :
    (w : World) (a : Attempt)
    → IsSafe w
    → ((token : Text) → (attempt w a).presented ≡ some token → Rotates w.spent token a.reply)
    → IsSafe (next w a)
next-IsSafe w a safe rotates = elim (attempt-cases w a) [
  | inl (nothing, same) ↦ rw (nothing, same) safe
  | inr (s, there, (t, named, unmarked, is_sent)) ↦
      let safe_s : is_safe w.spent (some s) ≡ true = rw there at safe in
      elim (send-cases s t a (some s)) [
        | inl (nothing, same) ↦
            rw (presented_of is_sent nothing, content_of is_sent same)
              (write-safe w.spent a.at_mark (marked a.sent_at s) (some s) refl safe_s)
        | inr (sends, confirmed, same) ↦
            let presented = presented_of is_sent sends in
            rw (presented, content_of is_sent same)
              (replied-safe w.spent s t a named (unmarked-unspent w.spent s t named unmarked safe_s)
                a.reply (write_and_confirm a.at_mark (marked a.sent_at s) (some s)).1
                (rotates t presented) (confirmed-marked a.at_mark a.sent_at s (some s) confirmed))
      ]
]

run-IsSafe : (w : World) (as' : List Attempt) → IsSafe w → IsRotating w as' → IsSafe (run w as')
unfolding run
run-IsSafe w [] safe rotating = safe
run-IsSafe w (a ∷ as') safe rotating =
    run-IsSafe (next w a) as' (next-IsSafe w a safe rotating.0) rotating.1

unspent_at_first :
    (at : Option ℕ) (token : Option Text) → (is_some at || is_unspent [] token) ≡ true
unfolding includes
unspent_at_first at token = ground arith

-- Over any sequence of commands that refresh the stored session one after another, with any replies, lost
-- answers and failing writes, from any stored session on: if the server gives a new refresh
-- token with every success, then no command sends a refresh token that the server has answered with
-- a success before.
pub no_token_reuse :
    (session : StoredSession) (as' : List Attempt) (a : Attempt) (token : Text)
    → let start : World = record { content = some session; spent = [] } in
      IsRotating start as'
      → (attempt (run start as') a).presented ≡ some token
      → includes (run start as').spent token ≡ false
unfolding includes
no_token_reuse session as' a token rotating sent =
    let start : World = record { content = some session; spent = [] } in
    presented-unspent (run start as') a token
      (run-IsSafe start as' (unspent_at_first session.refresh_presented_at session.refresh_token)
        rotating)
      sent
