-- ===== src/Exchanges/Masking.antt =====
-- What `maskHeaderValue` of ui/src/lib/utils.ts hides.
use mathlib.Core.Option
use protospy.Prelude.{
  ◌<◌, ◌⊎◌, inl, inr, sym, ◌∙◌, lt_or_le, drop, take-append-drop, length-take, length-drop, ℕ, zero,
  suc, ◌+◌, ◌≤◌, ◌≡◌, refl, ap, true, none, some, [], ◌∷◌, ◌++◌, append_assoc, Text, codes, text_eq,
  to_lower, index_of, take, length, arith,
}
use protospy.Exchanges.Headers.{mask, mask_value, mask_header_value}
use protospy.Exchanges.StatusLines.{NoSpaces}

-- The header is the one whose value is masked.
abbrev pub IsAuthorization : Text → Type 0
IsAuthorization name = text_eq (to_lower name) (codes "authorization") ≡ true

index_of_space :
    (scheme credential : Text)
    → NoSpaces scheme
    → index_of b' ' (scheme ++ b' ' ∷ credential) ≡ some (length scheme)
unfolding index_of
index_of_space [] credential h = refl
index_of_space (c ∷ scheme) credential h =
    rw h.0 (ap (Option.map suc) (index_of_space scheme credential h.1))

take_scheme :
    (scheme credential : Text)
    → take (length scheme + 1) (scheme ++ b' ' ∷ credential) ≡ scheme ++ b' ' ∷ []
take_scheme [] credential = refl
take_scheme (c ∷ scheme) credential =
    let one_more : suc (length scheme) + 1 ≡ suc (length scheme + 1) = omega arith in
    rw one_more (ap (◌∷◌ c) (take_scheme scheme credential))

-- Where a scheme with no space stands before the credential, the masked value is the scheme, a
-- space and ten asterisks, whatever the credential is.
pub mask_header_value_hides :
    (name scheme credential : Text)
    → IsAuthorization name
    → NoSpaces scheme
    → mask_header_value name (scheme ++ b' ' ∷ credential) ≡ scheme ++ b' ' ∷ mask
unfolding mask_header_value mask_value
mask_header_value_hides name scheme credential auth h =
    rw (auth, mask_value, index_of_space scheme credential h, take_scheme scheme credential)
      (append_assoc scheme (b' ' ∷ []) mask)

index_of-none : (value : Text) → NoSpaces value → index_of b' ' value ≡ none
unfolding index_of
index_of-none [] h = refl
index_of-none (c ∷ value) h = rw (h.0, index_of-none value h.1) refl

take_all : (n : ℕ) (value : Text) → length value ≤ n → take n value ≡ value
take_all zero [] h = refl
take_all zero (c ∷ value) h = ground arith
take_all (suc n) [] h = refl
take_all (suc n) (c ∷ value) h = ap (◌∷◌ c) (take_all n value (omega (arith, h)))

mask_header_value_plain :
    (name value : Text)
    → IsAuthorization name
    → NoSpaces value
    → mask_header_value name value ≡ take 8 value ++ mask
unfolding mask_header_value mask_value
mask_header_value_plain name value auth h = rw (auth, mask_value, index_of-none value h) refl

-- An authorization value with no space is shown whole, with the mask behind it, where it has at
-- most eight units; of a longer one exactly the first eight units are shown, with the mask behind
-- them.
pub mask_header_value_shows :
    (name value : Text)
    → IsAuthorization name
    → NoSpaces value
    → ((length value ≤ 8) × (mask_header_value name value ≡ value ++ mask))
      ⊎ ((shown hidden : Text) × (value ≡ shown ++ hidden)
          × (length shown ≡ 8)
          × (0 < length hidden)
          × (mask_header_value name value ≡ shown ++ mask))
mask_header_value_shows name value auth h = elim (lt_or_le 8 (length value)) [
  | inl long ↦ inr (
    take 8 value,
    drop 8 value,
    sym (take-append-drop 8 value),
    omega (arith, length-take 8 value),
    omega (arith, length-drop 8 value),
    mask_header_value_plain name value auth h,
  )
  | inr short ↦ inl (
    short,
    mask_header_value_plain name value auth h ∙ ap (λ v. v ++ mask) (take_all 8 value short),
  )
]
