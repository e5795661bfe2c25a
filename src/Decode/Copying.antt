-- ===== src/Decode/Copying.antt =====
-- `concatenate` of ui/src/body/decode.ts against plain concatenation.
use mathlib.Core.List.{flatten}
use protospy.Prelude.{
  ◌≡◌, refl, sym, ap, ◌∙◌, ℕ, ◌+◌, zero, suc, List, [], ◌∷◌, ◌++◌, append_assoc, length, take, drop,
  replicate, suc_add, length-append, arith,
}
use protospy.Decode.Bytes.{total_length, set_at, copy_arrays, concatenate}

take-length : (xs ys : List ℕ) → take (length xs) (xs ++ ys) ≡ xs
take-length [] ys = refl
take-length (x ∷ xs) ys = ap (◌∷◌ x) (take-length xs ys)

drop-length-add : (xs ys : List ℕ) (n : ℕ) → drop (length xs + n) (xs ++ ys) ≡ drop n ys
drop-length-add [] ys n = ap (λ k. drop k ys) (omega arith)
drop-length-add (x ∷ xs) ys n =
    ap (λ k. drop k (x ∷ xs ++ ys)) (suc_add (length xs) n) ∙ drop-length-add xs ys n

drop-replicate : (n k : ℕ) → drop n (replicate {A = ℕ} (n + k) 0) ≡ replicate k 0
drop-replicate zero k = ap (λ j. replicate {A = ℕ} j 0) (omega arith)
drop-replicate (suc n) k =
    ap (λ j. drop (suc n) (replicate {A = ℕ} j 0)) (suc_add n k) ∙ drop-replicate n k

-- The zeros behind what is copied make room for the next array.
pub set_at-zeros :
    (copied arr : List ℕ) (room : ℕ)
    → set_at (copied ++ replicate (length arr + room) 0) arr (length copied)
      ≡ (copied ++ arr) ++ replicate room 0
unfolding set_at
set_at-zeros copied arr room =
    rw
      (
        take-length copied (replicate (length arr + room) 0),
        drop-length-add copied (replicate (length arr + room) 0) (length arr),
        drop-replicate (length arr) room,
      )
      refl

copy_arrays_lem :
    (arrays : List (List ℕ)) (copied : List ℕ)
    → copy_arrays arrays (copied ++ replicate (total_length arrays) 0) (length copied)
      ≡ copied ++ flatten arrays
unfolding copy_arrays flatten
copy_arrays_lem [] copied = refl
copy_arrays_lem (arr ∷ arrays) copied =
    rw (set_at-zeros copied arr (total_length arrays), sym (length-append copied arr))
      (copy_arrays_lem arrays (copied ++ arr) ∙ append_assoc copied arr (flatten arrays))

-- The bytes that are copied into one array are those of the arrays in turn.
pub concatenate-flatten : (arrays : List (List ℕ)) → concatenate arrays ≡ flatten arrays
unfolding concatenate
concatenate-flatten arrays = copy_arrays_lem arrays []
