-- ===== src/Sse/Splitting.antt =====
-- How the split at blank lines of ui/src/body/sse-stream.ts behaves when text is added at the end.
use protospy.Prelude.{
  ℕ, ◌≡◌, refl, sym, ap, ◌∙◌, ◌≢◌, true, false, ◌&&◌, inl, inr, List, [], ◌∷◌, ◌++◌, Text,
  cons_head, ◌==◌, Bool-cases, arith,
}
use protospy.Sse.Stream.{split_blank, init_parts, last_part}

-- A split has a last part.
pub split_blank-ne-nil : (s : Text) → split_blank s ≢ []
unfolding split_blank
split_blank-ne-nil [] = ground arith
split_blank-ne-nil (a ∷ []) = ground arith
split_blank-ne-nil (a ∷ b ∷ s) = ground (arith, split_blank-ne-nil (b ∷ s))

split_blank_blank :
    (a b : ℕ) (s : Text)
    → (a == b'\n' && b == b'\n') ≡ true
    → split_blank (a ∷ b ∷ s) ≡ [] ∷ split_blank s
unfolding split_blank
split_blank_blank a b s h = rw (h, split_blank)

split_blank_other :
    (a b : ℕ) (s : Text)
    → (a == b'\n' && b == b'\n') ≡ false
    → split_blank (a ∷ b ∷ s) ≡ cons_head a (split_blank (b ∷ s))
unfolding split_blank
split_blank_other a b s h = rw (h, split_blank)

init_parts-cons : (p : Text) (ps : List Text) → ps ≢ [] → init_parts (p ∷ ps) ≡ p ∷ init_parts ps
unfolding init_parts
init_parts-cons p [] h = absurd (h refl)
init_parts-cons p (q ∷ ps) h = refl

last_part-cons : (p : Text) (ps : List Text) → ps ≢ [] → last_part (p ∷ ps) ≡ last_part ps
unfolding last_part
last_part-cons p [] h = absurd (h refl)
last_part-cons p (q ∷ ps) h = refl

cons_head-single :
    (a : ℕ) (ps : List Text) (p : Text)
    → ps ≢ []
    → cons_head a ps ≡ p ∷ []
    → (q : Text) × (ps ≡ q ∷ []) × (a ∷ q ≡ p)
unfolding cons_head
cons_head-single a [] p h e = absurd (h refl)
cons_head-single a (q ∷ []) p h e = (q, refl, ground arith)
cons_head-single a (q ∷ r ∷ qs) p h e = absurd (ground arith)

-- A text with no separator is its own only part.
pub split_blank-single : (s p : Text) → split_blank s ≡ p ∷ [] → s ≡ p
unfolding split_blank
split_blank-single [] p h = ground arith
split_blank-single (a ∷ []) p h = ground arith
split_blank-single (a ∷ b ∷ s) p h = elim (Bool-cases (a == b'\n' && b == b'\n')) [
  | inl blank ↦ absurd (split_blank-ne-nil s (ground (arith, split_blank_blank a b s blank)))
  | inr other ↦
      let (q, only, same) =
        cons_head-single a (split_blank (b ∷ s)) p (split_blank-ne-nil (b ∷ s))
          (sym (split_blank_other a b s other) ∙ h) in
      ap (◌∷◌ a) (split_blank-single (b ∷ s) q only) ∙ same
]

-- The parts after the text `t` is added behind a split into `ps`.
abbrev pub extend : List Text → Text → List Text
extend ps t = init_parts ps ++ split_blank (last_part ps ++ t)

extend-cons_head :
    (a b : ℕ) (s t : Text) (ps : List Text)
    → (a == b'\n' && b == b'\n') ≡ false
    → split_blank (b ∷ s) ≡ ps
    → split_blank (b ∷ (s ++ t)) ≡ extend ps t
    → split_blank (a ∷ b ∷ (s ++ t)) ≡ extend (cons_head a ps) t
unfolding init_parts last_part cons_head
extend-cons_head a b s t [] other e ih = absurd (split_blank-ne-nil (b ∷ s) e)
extend-cons_head a b s t (q ∷ []) other e ih =
    ap (λ (r : Text). split_blank ((a ∷ r) ++ t)) (split_blank-single (b ∷ s) q e)
extend-cons_head a b s t (q ∷ r ∷ qs) other e ih =
    split_blank_other a b (s ++ t) other ∙ ap (cons_head a) ih

-- Text that arrives later is split as a whole with the last part so far, and nothing before that
-- part is touched.
pub split_blank-append : (s t : Text) → split_blank (s ++ t) ≡ extend (split_blank s) t
unfolding split_blank init_parts last_part
split_blank-append [] t = refl
split_blank-append (a ∷ []) t = refl
split_blank-append (a ∷ b ∷ s) t = elim (Bool-cases (a == b'\n' && b == b'\n')) [
  | inl blank ↦
      rw
        (
          split_blank_blank a b (s ++ t) blank,
          split_blank_blank a b s blank,
          init_parts-cons [] (split_blank s) (split_blank-ne-nil s),
          last_part-cons [] (split_blank s) (split_blank-ne-nil s),
        )
        (ap (◌∷◌ []) (split_blank-append s t))
  | inr other ↦
      rw (split_blank_other a b s other)
        (extend-cons_head a b s t (split_blank (b ∷ s)) other refl (split_blank-append (b ∷ s) t))
]
