-- ===== src/Cli/TokenRefresh.antt =====
-- packages/cli/src/token-refresh.ts: the refresh of the stored session, which marks the refresh token as sent
-- before it is sent. The fields of a session that a refresh leaves alone are left out.
pub mod World
pub mod Contents
pub mod Reuse
use rakomi_js.Common.{
  ℕ, ◌+◌, ◌*◌, Bool, true, false, not, ◌&&◌, ◌||◌, Option, none, some, leb, ◌==◌, if◌then◌else◌,
  get_or,
}
use rakomi_js.Common.Text.{Text, codes, text_eq, is_empty}

pub data TokenType : Type 0 where
  bearer dpop : TokenType

-- `StoredSession`
pub record StoredSession : Type 0 where
  pub access_token : Text
  pub refresh_token : Option Text
  pub refresh_presented_at : Option ℕ
  pub token_type : TokenType
  pub expires_at : ℕ

-- What the session store does with a write: it keeps it, throws before or after keeping it, or loses it
-- without an error.
pub data Write : Type 0 where
  keeps throws_before throws_after loses : Write

-- The store at a write and at the reading back of it.
pub record Fault : Type 0 where
  pub write : Write
  pub readable : Bool

abbrev pub same_option : Option Text → Option Text → Bool
same_option none none = true
same_option (some a) (some b) = text_eq a b
same_option _ _ = false

abbrev same_time : Option ℕ → Option ℕ → Bool
same_time none none = true
same_time (some a) (some b) = a == b
same_time _ _ = false

-- The content of the store after a write.
abbrev pub written : Write → StoredSession → Option StoredSession → Option StoredSession
written keeps session content = some session
written throws_before session content = content
written throws_after session content = some session
written loses session content = content

abbrev throws : Write → Bool
throws throws_before = true
throws throws_after = true
throws _ = false

pub data Reason : Type 0 where
  write_failed read_back_mismatch : Reason

-- The comparison of `writeAndConfirm`
abbrev pub is_read_back : Option StoredSession → StoredSession → Bool
is_read_back none session = false
is_read_back (some back) session =
    text_eq back.access_token session.access_token
    && same_option back.refresh_token session.refresh_token
    && same_time back.refresh_presented_at session.refresh_presented_at

-- `writeAndConfirm`, with the content after it
unfoldable pub write_and_confirm :
    Fault → StoredSession → Option StoredSession → Option Reason × Option StoredSession
write_and_confirm fault session content =
    let after = written fault.write session content in
    if throws fault.write
    then (some write_failed, after)
    else if fault.readable && is_read_back after session
    then (none, after)
    else (some read_back_mismatch, after)

abbrev pub marked : ℕ → StoredSession → StoredSession
marked now session = record session { refresh_presented_at = some now }

-- `withoutMarker`
abbrev pub without_marker : StoredSession → StoredSession
without_marker session = record session { refresh_presented_at = none }

-- The body of a 200 response, where its fields have the types that are read.
pub record TokenResponse : Type 0 where
  pub access_token : Option Text
  pub refresh_token : Option Text
  pub is_dpop : Bool
  pub expires_in : Option ℕ

-- What the request ends with: an exception, or a status and a body.
pub data Reply : Type 0 where
  lost : Reply
  replied : ℕ → TokenResponse → Reply

pub data Stage : Type 0 where
  mark persist : Stage

-- The result of a refresh: the access token, `undefined`, a `CliError` that says to try again, a
-- `RefreshStoreError`, or an exception of the key store.
pub data Outcome : Type 0 where
  refreshed : Text → Outcome
  unrefreshed try_again : Outcome
  store_error : Stage → Reason → Outcome
  key_error : Outcome

-- The environment of one refresh: the store at its three writes, whether `resolveDpopKey` throws, the two
-- readings of the clock, and the server's reply.
pub record Attempt : Type 0 where
  pub at_mark : Fault
  pub key_throws : Bool
  pub at_unmark : Fault
  pub at_persist : Fault
  pub sent_at : ℕ
  pub received_at : ℕ
  pub reply : Reply

-- What a refresh leaves: its result, the content of the store, and the refresh token that was sent.
pub record Refreshed : Type 0 where
  pub outcome : Outcome
  pub content : Option StoredSession
  pub presented : Option Text

abbrev pub updated : StoredSession → Text → TokenResponse → ℕ → ℕ → StoredSession
updated session access_token body expires_in now = record {
  access_token = access_token;
  refresh_token = elim body.refresh_token [ some t ↦ some t | none ↦ session.refresh_token ];
  refresh_presented_at = none;
  token_type = if body.is_dpop then dpop else bearer;
  expires_at = now + expires_in * 1000;
}

abbrev pub usable : Option Text → Option Text
usable none = none
usable (some t) = if is_empty t then none else some t

-- `isTransientStatus` of this file
unfoldable pub is_transient_status : ℕ → Bool
is_transient_status status = leb 500 status || status == 429 || status == 408

-- The end of a refresh that the server answers with 200, with the content after the mark.
unfoldable pub persisted :
    StoredSession → TokenResponse → Attempt → Option StoredSession → Outcome × Option StoredSession
unfolding write_and_confirm
persisted session body a content = elim (usable body.access_token) [
  | none ↦ (unrefreshed, content)
  | some access_token ↦ elim body.expires_in [
    | none ↦ (unrefreshed, content)
    | some expires_in ↦
        let (failed, after) =
          write_and_confirm a.at_persist
            (updated session access_token body expires_in a.received_at) content in
        elim failed [
          | some reason ↦ (store_error persist reason, after)
          | none ↦ (refreshed access_token, after)
        ]
  ]
]

-- From the reply on.
unfoldable pub after_reply :
    StoredSession → Attempt → Reply → Option StoredSession → Outcome × Option StoredSession
unfolding is_transient_status write_and_confirm persisted
after_reply session a lost content =
    (try_again, (write_and_confirm a.at_unmark (without_marker session) content).1)
after_reply session a (replied status body) content =
    if is_transient_status status
    then (try_again, (write_and_confirm a.at_unmark (without_marker session) content).1)
    else if not (status == 200)
    then (unrefreshed, (write_and_confirm a.at_unmark (without_marker session) content).1)
    else persisted session body a content

-- `refreshUnlocked` of a session with a refresh token and no marker.
unfoldable pub send_marked : StoredSession → Text → Attempt → Option StoredSession → Refreshed
unfolding write_and_confirm after_reply
send_marked session token a content =
    let (failed, after) = write_and_confirm a.at_mark (marked a.sent_at session) content in
    elim failed [
      | some reason ↦ record {
        outcome = store_error mark reason;
        content = after;
        presented = none;
      }
      | none ↦
          if a.key_throws
          then record { outcome = key_error; content = after; presented = none }
          else (let (outcome, last) = after_reply session a a.reply after in
              record { outcome = outcome; content = last; presented = some token })
    ]

-- `refreshUnlocked`
unfoldable pub refresh_unlocked : StoredSession → Attempt → Option StoredSession → Refreshed
unfolding send_marked
refresh_unlocked session a content = elim (usable session.refresh_token) [
  | none ↦ record { outcome = unrefreshed; content = content; presented = none }
  | some token ↦ elim session.refresh_presented_at [
    | some at ↦ record { outcome = unrefreshed; content = content; presented = none }
    | none ↦ send_marked session token a content
  ]
]

-- `current.refresh_token !== session.refresh_token && …`: another process stored a new session.
abbrev is_rotated : StoredSession → StoredSession → Bool
is_rotated current session =
    not (same_option current.refresh_token session.refresh_token)
    && not (text_eq current.access_token session.access_token)
    && same_time current.refresh_presented_at none

-- `refreshSession` under the lock; `readable` says that the store's `read` does not throw.
unfoldable pub refresh_session : StoredSession → Bool → Attempt → Option StoredSession → Refreshed
unfolding refresh_unlocked
refresh_session session readable a content = elim (usable session.refresh_token) [
  | none ↦ record { outcome = unrefreshed; content = content; presented = none }
  | some token ↦ elim (if readable then content else none) [
    | none ↦ refresh_unlocked session a content
    | some current ↦
        if is_rotated current session
        then record {
          outcome = refreshed current.access_token;
          content = content;
          presented = none;
        }
        else refresh_unlocked current a content
  ]
]
