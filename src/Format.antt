-- ===== src/Format.antt =====
-- ui/src/lib/format.ts: byte counts, durations and media types as they are shown. A byte count and
-- its quotients by powers of 1024 are exact in a double below 2 ^ 53.
pub mod Bounds
use protospy.Prelude.{
  ℕ, zero, suc, ◌+◌, ◌-◌, ◌*◌, ◌/◌, ◌%◌, Bool, true, false, not, ◌&&◌, Option, none, some, List, [],
  ◌∷◌, ◌++◌, Text, codes, to_lower, trim, split_on, first_part, index_of, drop, length, reverse,
  leb, ltb, if◌then◌else◌,
}
use protospy.JsonTree.Rows.Quote.{decimal}

-- `["KB", "MB", "GB", "TB"]`, from the unit at hand on
abbrev pub units : List Text
units = codes "KB" ∷ codes "MB" ∷ codes "GB" ∷ codes "TB" ∷ []

-- a value `n / divisor`, and the units from its own on
pub record Scaled : Type 0 where
  pub divisor : ℕ
  pub unit : Text
  pub larger : List Text

-- `value.toFixed(1)` of `n / divisor` in tenths: the nearest, a tie upward
unfoldable pub tenths : ℕ → ℕ → ℕ
tenths n divisor = (20 * n + divisor) / (2 * divisor)

-- the loop `while (value >= 1024 && i < units.length - 1)`
unfoldable pub scale : ℕ → ℕ → Text → List Text → Scaled
scale n divisor unit [] = record { divisor = divisor; unit = unit; larger = [] }
scale n divisor unit (u ∷ us) =
    let rest = scale n (divisor * 1024) u us in
    if leb (1024 * divisor) n
    then rest
    else record { divisor = divisor; unit = unit; larger = u ∷ us }

-- one unit up where rounding reaches 1024
unfoldable pub roll_up : ℕ → Scaled → Scaled
unfolding tenths
roll_up n s = elim s.larger [
  | [] ↦ s
  | u ∷ us ↦
      if leb 10240 (tenths n s.divisor)
      then record { divisor = s.divisor * 1024; unit = u; larger = us }
      else s
]

-- the value with the unit that it is shown in, for `n >= 1024`
unfoldable pub choose_unit : ℕ → Scaled
unfolding scale roll_up
choose_unit n = roll_up n (scale n 1024 (codes "KB") (codes "MB" ∷ codes "GB" ∷ codes "TB" ∷ []))

-- `toFixed(1)` as text
unfoldable pub one_decimal : ℕ → Text
unfolding decimal
one_decimal t = decimal (t / 10) ++ codes "." ++ decimal (t % 10)

unfoldable pub fmt_bytes : ℕ → Text
unfolding choose_unit one_decimal tenths decimal
fmt_bytes n =
    if ltb n 1024
    then decimal n ++ codes " B"
    else one_decimal (tenths n (choose_unit n).divisor) ++ codes " " ++ (choose_unit n).unit

-- `fmtMs` on whole milliseconds, of which `Math.round` is the value itself
unfoldable pub fmt_ms : Option ℕ → Text
unfolding one_decimal tenths decimal
fmt_ms none = codes "—"
fmt_ms (some ms) =
    if ltb ms 1000 then decimal ms ++ codes " ms" else one_decimal (tenths ms 1000) ++ codes " s"

-- `s.slice(s.indexOf(c) + 1)`, `none` where the unit is missing
unfoldable pub after_unit : ℕ → Text → Option Text
unfolding index_of
after_unit c s = elim (index_of c s) [ none ↦ none | some i ↦ some (drop (i + 1) s) ]

-- `s.lastIndexOf(c)`
unfoldable pub last_index_of : ℕ → Text → Option ℕ
unfolding index_of
last_index_of c s = elim (index_of c (reverse s)) [ none ↦ none | some i ↦ some (length s - 1 - i) ]

-- the suffix behind the last plus sign, where there is one
unfoldable pub strip_prefix : Text → Text
unfolding last_index_of
strip_prefix subtype = elim (last_index_of b'+' subtype) [
  | none ↦ subtype
  | some plus ↦ if ltb (plus + 1) (length subtype) then drop (plus + 1) subtype else subtype
]

unfoldable pub media_type_slug : Text → Text
unfolding to_lower trim split_on first_part after_unit strip_prefix
media_type_slug full =
    let base = to_lower (trim (first_part (split_on b';' full))) in
    elim (after_unit b'/' base) [ none ↦ base | some subtype ↦ strip_prefix subtype ]
