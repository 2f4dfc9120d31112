-- ===== src/Tests/Cli.antt =====
-- The command line tool of packages/cli/src: processes that compete for the lock file, commands that refresh one
-- after another, and a merge into a configuration file.
use rakomi_js.Common.{
  ℕ, Bool, ◌==◌, ==_iff, All, Bool-cases, inl, subst, ap, ◌+◌, ◌*◌, true, false, none, some, List,
  [], ◌∷◌, ◌≡◌, refl, sym, ◌∙◌, arith, inr,
}
use rakomi_js.Common.Text.{Text, codes, text_eq, trim, is_space, split, join, includes}
use rakomi_js.Cli.RefreshLock.{
  Phase, outside, System, Event, steps, beats, crashes, gives_up, ticks, run, initial, step, beat,
  advance, try_create, holding, is_inside,
}
use rakomi_js.Cli.RefreshLock.Exclusion.{IsUndisturbed, IsTimely, mutual_exclusion}
use rakomi_js.Cli.TokenRefresh.{
  StoredSession, bearer, keeps, Fault, lost, replied, Attempt, write_and_confirm, persisted,
  after_reply, send_marked, refresh_unlocked, refresh_session, is_transient_status,
}
use rakomi_js.Cli.TokenRefresh.World.{World, attempt, run as run_all}
use rakomi_js.Cli.TokenRefresh.Reuse.{no_token_reuse, some_injective}
use rakomi_js.Cli.TomlConfig.{
  merge_lines, locate, body_of, rest_of, without_blank_end, needs_separator,
}
use rakomi_js.Cli.TomlConfig.Idempotence.{IsBlock, merged, unchanged, merge_idempotent}

-- Process 9 crashes with the lock; 2 and 3 both find it stale. 2 takes it over and runs; 3 then renames the lock of 2,
-- sees that it is not the one that it read, and puts it back.
abbrev takeover : List Event
takeover =
    steps 9
    ∷ steps 9
    ∷ crashes 9
    ∷ ticks 30_001
    ∷ steps 2
    ∷ steps 2
    ∷ steps 2
    ∷ steps 2
    ∷ steps 3
    ∷ steps 3
    ∷ steps 3
    ∷ steps 3
    ∷ steps 2
    ∷ steps 2
    ∷ steps 2
    ∷ steps 3
    ∷ steps 3
    ∷ steps 3
    ∷ steps 3
    ∷ []

takes_over : (run 30_000 initial takeover).phase 2 ≡ holding
unfolding run step advance try_create
takes_over = refl

puts_back : (run 30_000 initial takeover).path ≡ some (record { token = 2; touched = 30_001 })
unfolding run step advance try_create
puts_back = refl

-- Whether the event is about the process.
abbrev concerns : ℕ → Event → Bool
concerns q (steps p) = p == q
concerns q (crashes p) = p == q
concerns q (gives_up p) = p == q
concerns q _ = false

advance-others :
    (p q : ℕ) (phase : Phase) (s : System)
    → (p == q) ≡ false
    → (advance 30_000 p phase s).phase q ≡ s.phase q
unfolding advance try_create
advance-others p q _ s h = ground (arith, h)

step-others :
    (q : ℕ) (s : System) (e : Event) → concerns q e ≡ false → (step 30_000 s e).phase q ≡ s.phase q
unfolding step beat
step-others q s (steps p) h = advance-others p q (s.phase p) s h
step-others q s (beats p) h = ground (arith, h)
step-others q s (crashes p) h = ground (arith, h)
step-others q s (gives_up p) h = ground (arith, h)
step-others q s (ticks ms) h = refl

idle-IsUndisturbed :
    (q : ℕ) (s : System) (es : List Event)
    → s.phase q ≡ outside
    → All (λ e. concerns q e ≡ false) es
    → IsUndisturbed 30_000 q s es
idle-IsUndisturbed q s [] at idle = tt
idle-IsUndisturbed q s (e ∷ es) at idle = (
  (λ o c. absurd ground (arith, at)),
  idle-IsUndisturbed q (step 30_000 s e) es (step-others q s e idle.0 ∙ at) idle.1,
)

nine-IsUndisturbed : IsUndisturbed 30_000 9 initial takeover
unfolding step advance try_create
nine-IsUndisturbed = ground arith

two-IsUndisturbed : IsUndisturbed 30_000 2 initial takeover
unfolding step advance try_create
two-IsUndisturbed = ground arith

three-IsUndisturbed : IsUndisturbed 30_000 3 initial takeover
unfolding step advance try_create
three-IsUndisturbed = ground arith

all-IsUndisturbed : (q : ℕ) → IsUndisturbed 30_000 q initial takeover
all-IsUndisturbed q = elim (Bool-cases (9 == q)) [
  | inl h ↦ subst IsLeftAlone ((==_iff 9 q).0 h) nine-IsUndisturbed
  | inr a ↦ elim (Bool-cases (2 == q)) [
    | inl h ↦ subst IsLeftAlone ((==_iff 2 q).0 h) two-IsUndisturbed
    | inr b ↦ elim (Bool-cases (3 == q)) [
      | inl h ↦ subst IsLeftAlone ((==_iff 3 q).0 h) three-IsUndisturbed
      | inr c ↦ idle-IsUndisturbed q initial takeover refl ground (arith, a, b, c)
    ]
  ]
]
  where
    IsLeftAlone : ℕ → Type 0
    IsLeftAlone r = IsUndisturbed 30_000 r initial takeover

two-IsTimely : IsTimely 30_000 2 initial takeover
unfolding step advance try_create
two-IsTimely = ground arith

three-IsTimely : IsTimely 30_000 3 initial takeover
unfolding step advance try_create
three-IsTimely = ground arith

mutual_exclusion_example : is_inside ((run 30_000 initial takeover).phase 3) ≡ false
mutual_exclusion_example =
    mutual_exclusion 30_000 takeover 2 3 all-IsUndisturbed two-IsTimely three-IsTimely refl
      (ap is_inside takes_over)

-- Processes 1 and 2 both find the lock of the crashed process 9 stale. Process 2 takes it over and runs; process 1
-- then reads the lock of process 2, renames it, finds the content that it read, removes it and runs as well.
abbrev race : List Event
race =
    steps 9
    ∷ steps 9
    ∷ crashes 9
    ∷ ticks 30_001
    ∷ steps 1
    ∷ steps 1
    ∷ steps 1
    ∷ steps 2
    ∷ steps 2
    ∷ steps 2
    ∷ steps 2
    ∷ steps 2
    ∷ steps 2
    ∷ steps 2
    ∷ steps 1
    ∷ steps 1
    ∷ steps 1
    ∷ steps 1
    ∷ []

both_hold :
    ((run 30_000 initial race).phase 1 ≡ holding) × ((run 30_000 initial race).phase 2 ≡ holding)
unfolding run step advance try_create
both_hold = (refl, refl)

abbrev session : StoredSession
session = record {
  access_token = codes "a1";
  refresh_token = some (codes "r1");
  refresh_presented_at = none;
  token_type = bearer;
  expires_at = 1000;
}

abbrev good : Fault
good = record { write = keeps; readable = true }

abbrev unanswered : Attempt
unanswered = record {
  at_mark = good;
  key_throws = false;
  at_unmark = good;
  at_persist = good;
  sent_at = 10;
  received_at = 20;
  reply = lost;
}

abbrev rotation : Attempt
rotation = record unanswered {
  reply = replied 200 (record {
    access_token = some (codes "a2");
    refresh_token = some (codes "r2");
    is_dpop = false;
    expires_in = some 3600;
  });
}

-- After an answer that was lost, the next command sends the same refresh token.
resends_after_loss :
    (refresh_session session true unanswered (some session)).presented
    ≡ (refresh_session session true rotation
        (refresh_session session true unanswered (some session)).content).presented
unfolding refresh_session refresh_unlocked send_marked after_reply write_and_confirm persisted
    text_eq codes is_transient_status
resends_after_loss = refl

-- A key store that throws leaves the session marked, with a refresh token that was not sent.
stays_marked_without_key :
    let r = refresh_session session true (record rotation { key_throws = true }) (some session) in
    (r.presented ≡ none) × (r.content ≡ some (record session { refresh_presented_at = some 10 }))
unfolding refresh_session refresh_unlocked send_marked after_reply write_and_confirm persisted
    text_eq codes is_transient_status
stays_marked_without_key = (refl, refl)

-- A command that waited for the lock refreshes its own session again when the store was cleared meanwhile.
revives_cleared_store :
    (refresh_session session true rotation none).content
    ≡ some (record {
      access_token = codes "a2";
      refresh_token = some (codes "r2");
      refresh_presented_at = none;
      token_type = bearer;
      expires_at = 20 + 3600 * 1000;
    })
unfolding refresh_session refresh_unlocked send_marked after_reply write_and_confirm persisted
    text_eq codes is_transient_status
revives_cleared_store = refl

abbrev start : World
start = record { content = some session; spent = [] }

sends_second : (attempt (run_all start (rotation ∷ [])) rotation).presented ≡ some (codes "r2")
unfolding run_all attempt refresh_session refresh_unlocked send_marked after_reply write_and_confirm
    persisted text_eq codes is_transient_status
sends_second = refl

sends_first : (attempt start rotation).presented ≡ some (codes "r1")
unfolding attempt refresh_session refresh_unlocked send_marked after_reply write_and_confirm
    persisted text_eq codes is_transient_status
sends_first = refl

no_token_reuse_example : includes (run_all start (rotation ∷ [])).spent (codes "r2") ≡ false
unfolding codes includes text_eq
no_token_reuse_example =
    no_token_reuse session (rotation ∷ []) rotation (codes "r2")
      (
        λ token h. inr (
          codes "r2",
          refl,
          refl,
          (let same : codes "r1" ≡ token = some_injective (sym sends_first ∙ h) in
              rw (sym same) refl),
        ),
        tt,
      )
      sends_second

abbrev header_line : Text
header_line = codes "[mcp_servers.rakomi]"

abbrev fields : List Text
fields = codes "url = \"https://mcp.rakomi.com\"" ∷ []

is_block : IsBlock header_line fields
unfolding codes trim is_space
is_block = record {
  header_trimmed = refl;
  header_line_one = ground arith;
  header_there = refl;
  field_lines = ground arith;
  fields_there = ground arith;
  fields_inside = ground arith;
}

abbrev config : Text
config = codes "[other]\na = 1\n"

merge_idempotent_example :
    merged header_line fields is_block (merged header_line fields is_block config).text
    ≡ unchanged header_line fields is_block (merged header_line fields is_block config).text
merge_idempotent_example = merge_idempotent header_line fields is_block config

-- The next table is lost where its header is indented.
drops_indented_table :
    (merge_lines
      (codes "[a.b]\nx = 1\n  [c]\ny = 2")
      (codes "[a.b]")
      (codes "[a.b]" ∷ codes "x = 3" ∷ [])).text
    ≡ codes "[a.b]\nx = 3"
unfolding merge_lines locate body_of rest_of without_blank_end needs_separator codes trim is_space
    text_eq split join
drops_indented_table = refl
