-- ===== src/Core/EventLog.antt =====
-- packages/sdk-core/src/event-log.ts: the log of the last 50 events. The type of its entries is left
-- open, and so are the time and the tab id that an entry is stamped with.
use rakomi_js.Common.{
  ℕ, zero, suc, ◌-◌, ◌≤◌, true, List, [], ◌∷◌, ◌++◌, ◌≡◌, refl, arith, leb, if◌then◌else◌, length,
  length-append, drop, append_assoc, append-nil, Bool-cases, inl, inr,
}

abbrev pub max_events : ℕ
max_events = 50

module _ {E : Type 0} where
  -- `push`
  unfoldable pub push : E → List E → List E
  push e log = (if leb max_events (length log) then drop 1 log else log) ++ e ∷ []

  pub push_all : List E → List E → List E
  push_all [] log = log
  push_all (e ∷ es) log = push_all es (push e log)

drop-append :
    {A : Type 0} (n : ℕ) (xs ys : List A) → n ≤ length xs → drop n (xs ++ ys) ≡ drop n xs ++ ys
drop-append zero xs ys h = refl
drop-append (suc n) [] ys h = absurd (omega (arith, h))
drop-append (suc n) (x ∷ xs) ys h = drop-append n xs ys (omega (arith, h))

length-drop : {A : Type 0} (n : ℕ) (xs : List A) → length (drop n xs) ≡ length xs - n
length-drop zero xs = omega arith
length-drop (suc n) [] = omega arith
length-drop (suc n) (x ∷ xs) = omega (arith, length-drop n xs)

drop_one-drop : {A : Type 0} (n : ℕ) (xs : List A) → drop 1 (drop n xs) ≡ drop (suc n) xs
drop_one-drop zero xs = refl
drop_one-drop (suc n) [] = refl
drop_one-drop (suc n) (x ∷ xs) = drop_one-drop n xs

abbrev last_events : {E : Type 0} → List E → List E
last_events es = drop (length es - max_events) es

push-last_events :
    {E : Type 0} (e : E) (es : List E) → push e (last_events es) ≡ last_events (es ++ e ∷ [])
unfolding push
push-last_events e es = elim (Bool-cases (leb max_events (length es))) [
  | inl full ↦
      let one_more : length (es ++ e ∷ []) - max_events ≡ suc (length es - max_events) =
        ground (arith, length-append es (e ∷ [])) in
      let is_full : leb max_events (length (last_events es)) ≡ true =
        ground (arith, length-drop (length es - max_events) es) in
      rw
        (
          is_full,
          one_more,
          drop_one-drop (length es - max_events) es,
          drop-append (suc (length es - max_events)) es (e ∷ []) (ground arith),
        )
        refl
  | inr room ↦
      let none_out : length es - max_events ≡ 0 = ground arith in
      let fits : length (es ++ e ∷ []) - max_events ≡ 0 =
        ground (arith, length-append es (e ∷ [])) in
      rw (none_out, fits, room) refl
]

push_all-last_events :
    {E : Type 0} (before es : List E)
    → push_all es (last_events before) ≡ last_events (before ++ es)
unfolding push_all
push_all-last_events before [] = rw (append-nil before) refl
push_all-last_events before (e ∷ es) =
    rw
      (
        push-last_events e before,
        push_all-last_events (before ++ e ∷ []) es,
        append_assoc before (e ∷ []) es,
      )
      refl

-- After pushing a list of events on an empty log, the log has the last 50 of them in their order, and
-- all of them if there are no more.
pub push_all-empty : {E : Type 0} (es : List E) → push_all es [] ≡ last_events es
push_all-empty es = push_all-last_events [] es
