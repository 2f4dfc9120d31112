-- ===== src/Cli/TokenRefresh/World.antt =====
-- Sequences of commands that refresh the stored session, for packages/cli/src/token-refresh.ts.
use rakomi_js.Common.{
  Bool, true, false, Option, none, some, List, [], ◌∷◌, ◌≡◌, ◌⊎◌, ◌==◌, if◌then◌else◌,
}
use rakomi_js.Common.Text.{Text, text_eq, includes}
use rakomi_js.Cli.TokenRefresh.{
  StoredSession, Reply, lost, replied, Attempt, Refreshed, Outcome, refresh_session,
}

-- The store and the refresh tokens that the server has answered with 200, and so rotated.
pub record World : Type 0 where
  pub content : Option StoredSession
  pub spent : List Text

abbrev pub is_success : Reply → Bool
is_success lost = false
is_success (replied status body) = status == 200

abbrev pub spent_by : Refreshed → Reply → List Text → List Text
spent_by r reply spent = elim r.presented [
  | none ↦ spent
  | some token ↦ if is_success reply then token ∷ spent else spent
]

-- One command refreshes the session that the store has.
unfoldable pub attempt : World → Attempt → Refreshed
unfolding refresh_session
attempt w a = elim w.content [
  | none ↦ record { outcome = Outcome.unrefreshed; content = none; presented = none }
  | some session ↦ refresh_session session true a (some session)
]

abbrev pub next : World → Attempt → World
next w a = record {
  content = (attempt w a).content;
  spent = spent_by (attempt w a) a.reply w.spent;
}

unfoldable pub run : World → List Attempt → World
run w [] = w
run w (a ∷ as') = run (next w a) as'

-- The server gives a new refresh token with a success: neither one that was spent, nor the one that was sent.
abbrev pub Rotates : List Text → Text → Reply → Type 0
Rotates spent token lost = Unit
Rotates spent token (replied status body) =
    (status == 200) ≡ false
    ⊎ ((fresh : Text) × (body.refresh_token ≡ some fresh)
        × (includes spent fresh ≡ false)
        × (text_eq token fresh ≡ false))

abbrev pub IsRotating : World → List Attempt → Type 0
IsRotating w [] = Unit
IsRotating w (a ∷ as') =
    ((token : Text) → (attempt w a).presented ≡ some token → Rotates w.spent token a.reply)
    × IsRotating (next w a) as'
