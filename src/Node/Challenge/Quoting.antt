-- ===== src/Node/Challenge/Quoting.antt =====
-- No value breaks out of its place in a challenge.
use mathlib.Core.Path.{subst}
use rakomi_js.Common.{
  Bool, true, false, ◌||◌, Option, none, some, List, [], ◌∷◌, ◌++◌, ◌≡◌, refl, inl, inr, arith,
  ◌==◌, if◌then◌else◌, Bool-cases, append_assoc, All, All-append, Option-cases, ◌&&◌, sym, ap, ◌∙◌,
}
use rakomi_js.Common.Text.{Text, codes}
use rakomi_js.Common.Options.{>>=-eq-some}
use rakomi_js.Node.LogoutToken.{is_https}
use rakomi_js.Node.Challenge.{
  has_control_characters, escape_quoted_string, write_challenge_param, write_optional, joined,
  ChallengeErrorCode, error_name, ChallengeOptions, is_scope, build_challenge,
}

-- The reader of a quoted string, from after its first quotation mark on: its value and the text that follows
-- it. The first argument says that a backslash precedes.
unfoldable pub read_quoted : Bool → Text → Option (Text × Text)
read_quoted escaped [] = none
read_quoted true (c ∷ s) = elim (read_quoted false s) [ none ↦ none | some r ↦ some (c ∷ r.0, r.1) ]
read_quoted false (c ∷ s) =
    let more = read_quoted (c == 92) s in
    if c == 34
    then some ([], s)
    else if c == 92
    then more
    else elim more [ none ↦ none | some r ↦ some (c ∷ r.0, r.1) ]

escape-read :
    (value rest : Text)
    → read_quoted false (escape_quoted_string value ++ (34 ∷ rest)) ≡ some (value, rest)
unfolding read_quoted escape_quoted_string
escape-read [] rest = refl
escape-read (c ∷ s) rest = ground (arith, escape-read s rest)

control-append :
    (s t : Text)
    → has_control_characters (s ++ t) ≡ (has_control_characters s || has_control_characters t)
unfolding has_control_characters
control-append [] t = refl
control-append (c ∷ s) t = ground (arith, control-append s t)

control-escape :
    (s : Text) → has_control_characters (escape_quoted_string s) ≡ has_control_characters s
unfolding has_control_characters escape_quoted_string
control-escape [] = refl
control-escape (c ∷ s) = ground (arith, control-escape s)

abbrev IsClean : Text → Type 0
IsClean s = has_control_characters s ≡ false

append-IsClean : (s t : Text) → IsClean s → IsClean t → IsClean (s ++ t)
append-IsClean s t hs ht = rw (control-append s t, hs, ht) refl

written :
    (name value param : Text)
    → write_challenge_param name value ≡ some param
    → (has_control_characters value ≡ false)
      × (name ++ (codes "=\"" ++ (escape_quoted_string value ++ codes "\"")) ≡ param)
unfolding write_challenge_param
written name value param h = elim (Bool-cases (has_control_characters value)) [
  | inl control ↦ absurd ground arith
  | inr clean ↦ (clean, ground arith)
]

write-IsClean :
    (name value param : Text)
    → IsClean name
    → write_challenge_param name value ≡ some param
    → IsClean param
unfolding has_control_characters codes
write-IsClean name value param named h =
    let (clean, same) = written name value param h in
    rw (sym same) (
      append-IsClean name (codes "=\"" ++ (escape_quoted_string value ++ codes "\"")) named (
        append-IsClean (codes "=\"") (escape_quoted_string value ++ codes "\"") refl (
          append-IsClean (escape_quoted_string value) (codes "\"") (control-escape value ∙ clean)
            refl)))

optional-IsClean :
    (name : Text) (value : Option Text) (params : List Text)
    → IsClean name
    → write_optional name value ≡ some params
    → All IsClean params
optional-IsClean name none [] named h = tt
optional-IsClean name none (p ∷ ps) named h = absurd cc
optional-IsClean name (some v) params named h = elim (Option-cases (write_challenge_param name v)) [
  | inl failed ↦ absurd ground arith
  | inr (param, there) ↦
      let same : (param ∷ []) ≡ params = ground arith in
      subst (All IsClean) same (write-IsClean name v param named there, tt)
]

joined-IsClean : (params : List Text) → All IsClean params → IsClean (joined params)
unfolding joined has_control_characters codes
joined-IsClean [] h = refl
joined-IsClean (p ∷ []) h = h.0
joined-IsClean (p ∷ q ∷ ps) h =
    append-IsClean p (codes ", " ++ joined (q ∷ ps)) h.0
      (append-IsClean (codes ", ") (joined (q ∷ ps)) refl (joined-IsClean (q ∷ ps) h.1))

-- If a parameter of a challenge is written, then a reader of quoted strings finds, after its name and
-- `="`, exactly its value, whatever quotation marks and backslashes that has, and then the text that
-- follows the parameter.
pub param_reads_back :
    (name value param rest : Text)
    → write_challenge_param name value ≡ some param
    → (quoted : Text) × (param ++ rest ≡ name ++ (codes "=\"" ++ quoted))
      × (read_quoted false quoted ≡ some (value, rest))
unfolding codes
param_reads_back name value param rest h =
    let (clean, same) = written name value param h in
    let escaped = escape_quoted_string value in
    (
      escaped ++ (34 ∷ rest),
      rw (sym same) (
          append_assoc name (61 ∷ 34 ∷ (escaped ++ (34 ∷ []))) rest
          ∙ ap (λ t. name ++ (61 ∷ 34 ∷ t)) (append_assoc escaped (34 ∷ []) rest)),
      escape-read value rest,
    )

error_name-IsClean :
    (error : Option ChallengeErrorCode) (params : List Text)
    → write_optional (codes "error") (error_name error) ≡ some params
    → All IsClean params
unfolding codes has_control_characters
error_name-IsClean error params h =
    optional-IsClean (codes "error") (error_name error) params refl h

-- If a challenge is built, whatever its options, then it has no control character, and so no line break that
-- would begin another header.
pub challenge_has_no_controls :
    (url_protocol : Text → Option Text) (o : ChallengeOptions) (header : Text)
    → build_challenge url_protocol o ≡ some header
    → has_control_characters header ≡ false
unfolding build_challenge has_control_characters codes
challenge_has_no_controls url_protocol o header h =
    elim (Bool-cases (is_https (url_protocol o.resource_metadata_url) && is_scope o.scope)) [
      | inr invalid ↦ absurd ground arith
      | inl valid ↦
          let (error, written_error, h1) =
            >>=-eq-some (write_optional (codes "error") (error_name o.error)) _ (rw valid at h) in
          let (metadata, written_metadata, h2) =
            >>=-eq-some (write_challenge_param (codes "resource_metadata") o.resource_metadata_url)
              _ h1 in
          let (scope, written_scope, h3) =
            >>=-eq-some (write_optional (codes "scope") o.scope) _ h2 in
          let same : (codes "Bearer " ++ joined (error ++ (metadata ∷ scope))) ≡ header =
            ground arith in
          subst IsClean same (
            append-IsClean (codes "Bearer ") (joined (error ++ (metadata ∷ scope))) refl (
              joined-IsClean (error ++ (metadata ∷ scope)) (
                All-append IsClean error (metadata ∷ scope)
                  (error_name-IsClean o.error error written_error)
                  (
                    write-IsClean (codes "resource_metadata") o.resource_metadata_url metadata refl
                        written_metadata,
                    optional-IsClean (codes "scope") o.scope scope refl written_scope,
                  ))))
    ]
