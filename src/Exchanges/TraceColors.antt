-- ===== src/Exchanges/TraceColors.antt =====
-- The colours and the display form of trace ids in ui/src/lib/tokens.ts. An index has one digit.
use mathlib.Core.List.{foldl}
use protospy.Prelude.{
  ℕ, ◌+◌, ◌-◌, ◌*◌, ◌%◌, ◌^◌, ◌≤◌, ◌≡◌, refl, ap, ◌∙◌, [], ◌∷◌, ◌++◌, Text, codes, length, take,
  drop, leb, arith, if◌then◌else◌,
}

-- `(h * 31 + id.charCodeAt(i)) >>> 0`
abbrev pub hash_step : ℕ → ℕ → ℕ
hash_step h c = (h * 31 + c) % 2 ^ 32

unfoldable pub hash_trace : Text → ℕ
hash_trace id = foldl hash_step 0 id

-- `TRACE_TOKEN_COUNT`
abbrev pub trace_token_count : ℕ
trace_token_count = 7

unfoldable pub trace_token_index : Text → ℕ
unfolding hash_trace
trace_token_index id = hash_trace id % trace_token_count + 1

unfoldable pub trace_color_var : Text → Text
unfolding trace_token_index
trace_color_var id = codes "var(--trace-" ++ (48 + trace_token_index id) ∷ codes ")"

-- `id.slice(0, 4)`, an ellipsis and `id.slice(-4)`
unfoldable pub short_trace_id : Text → Text
short_trace_id id = if leb (length id) 10 then id else take 4 id ++ 0x2026 ∷ drop (length id - 4) id

-- The index is one of the seven tokens.
pub trace_token_index-range : (id : Text) → (1 ≤ trace_token_index id) × (trace_token_index id ≤ 7)
unfolding trace_token_index
trace_token_index-range id = (omega arith, omega arith)

-- The number that the code units are the digits of, to the base 31.
abbrev pub digits_value : ℕ → Text → ℕ
digits_value h [] = h
digits_value h (c ∷ id) = digits_value (h * 31 + c) id

hash_step-mod : (h c : ℕ) → hash_step (h % 2 ^ 32) c ≡ (h * 31 + c) % 2 ^ 32
hash_step-mod h c = omega arith

hash_from : (h : ℕ) (id : Text) → foldl hash_step (h % 2 ^ 32) id ≡ digits_value h id % 2 ^ 32
hash_from h [] = refl
hash_from h (c ∷ id) =
    ap (λ k. foldl hash_step k id) (hash_step-mod h c) ∙ hash_from (h * 31 + c) id

-- Cutting to 32 bits at each step gives the same as cutting once at the end.
pub hash_trace_lem : (id : Text) → hash_trace id ≡ digits_value 0 id % 2 ^ 32
unfolding hash_trace
hash_trace_lem id = hash_from 0 id
