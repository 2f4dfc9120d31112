-- ===== src/Node/Dpop/Equal.antt =====
-- The constant-time comparison is equality.
use rakomi_js.Common.{ℕ, true, [], ◌∷◌, length, ◌≡◌, ◌↔◌, refl, arith, bit_or, bit_xor}
use rakomi_js.Common.Bits.{bit_or-eq-zero, bit_xor-eq-zero_iff}
use rakomi_js.Common.Text.{Text}
use rakomi_js.Node.Dpop.{difference, safe_equal}

difference_found :
    (diff : ℕ) (s t : Text) → length s ≡ length t → difference diff s t ≡ 0 → (diff ≡ 0) × (s ≡ t)
unfolding difference
difference_found diff [] [] l e = (e, refl)
difference_found diff [] (d ∷ t) l e = absurd (omega (arith, l))
difference_found diff (c ∷ s) [] l e = absurd (omega (arith, l))
difference_found diff (c ∷ s) (d ∷ t) l e =
    let (joined, same) = difference_found (bit_or diff (bit_xor c d)) s t (omega (arith, l)) e in
    let (none', equal) = bit_or-eq-zero diff (bit_xor c d) joined in
    (none', ground (arith, (bit_xor-eq-zero_iff c d).0 equal, same))

or_of_zeros : (x : ℕ) → x ≡ 0 → bit_or 0 x ≡ 0
or_of_zeros x e = rw e refl

difference_self : (s : Text) → difference 0 s s ≡ 0
unfolding difference
difference_self [] = refl
difference_self (c ∷ s) =
    rw (or_of_zeros (bit_xor c c) ((bit_xor-eq-zero_iff c c).1 refl)) (difference_self s)

-- `safeEqual` finds two strings equal exactly if they are.
pub safe_equal_iff : (s t : Text) → (safe_equal s t ≡ true) ↔ (s ≡ t)
unfolding safe_equal
safe_equal_iff s t = (λ h. sound h, λ e. rw e (complete t))
  where
    complete : (u : Text) → safe_equal u u ≡ true
    complete u = ground (arith, difference_self u)

    sound : safe_equal s t ≡ true → s ≡ t
    sound h =
        let l : length s ≡ length t = ground arith in (difference_found 0 s t l (ground arith)).1
