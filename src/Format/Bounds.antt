-- ===== src/Format/Bounds.antt =====
-- How exact and how wide the byte counts of `fmtBytes` are (ui/src/lib/format.ts).
use protospy.Prelude.{
  lt_or_le, ℕ, ◌+◌, ◌*◌, ◌≤◌, ◌<◌, ◌≡◌, refl, false, List, [], ◌∷◌, ◌++◌, Text, codes, leb, ltb,
  arith, Bool-cases, inl, inr, if◌then◌else◌, text_eq, leb→le, le→leb, lt→not-leb,
}
use native.Mathlib.Nat.{div-lt_iff_lt-mul, div-mul-le_self, lt-div-mul-add, le-div_iff_mul-le}
use protospy.Format.{Scaled, fmt_bytes, one_decimal, tenths, scale, roll_up, choose_unit}

-- A divisor shows a count with at most four digits before the decimal, as exactly as one decimal
-- can, and not as zero.
pub record Shows (n divisor : ℕ) : Type 0 where
  pub low : 10 ≤ tenths n divisor
  pub high : tenths n divisor < 10240
  pub not_above : tenths n divisor * (2 * divisor) ≤ 20 * n + divisor
  pub not_below : 20 * n < tenths n divisor * (2 * divisor) + divisor

-- The bytes of a unit; any other text is none and has no bytes.
unfoldable pub bytes_in : Text → ℕ
unfolding text_eq
bytes_in unit =
    if text_eq unit (codes "KB")
    then 1024
    else if text_eq unit (codes "MB")
    then 1024 * 1024
    else if text_eq unit (codes "GB")
    then 1024 * 1024 * 1024
    else if text_eq unit (codes "TB")
    then 1024 * 1024 * 1024 * 1024
    else 0

pub record IsGoodUnit (n : ℕ) (s : Scaled) : Type 0 where
  pub shows : Shows n s.divisor
  -- one of the four units, since a divisor that shows something is not 0
  pub is_unit : s.divisor ≡ bytes_in s.unit
  pub not_zero : 0 < s.divisor

not-leb→lt : (a b : ℕ) → leb a b ≡ false → b < a
not-leb→lt a b h = ground arith

module _ (n : ℕ) where
  shows_between :
      (s : Scaled)
      → 0 < s.divisor
      → s.divisor ≡ bytes_in s.unit
      → 19 * s.divisor ≤ 20 * n
      → tenths n s.divisor < 10240
      → IsGoodUnit n s
  unfolding tenths
  shows_between s pos unit lo hi =
      let d = s.divisor in
      let a = 20 * n + d in
      let above = div-mul-le_self a (2 * d) in
      let below = lt-div-mul-add {a = a} {b = 2 * d} (omega (arith, pos)) in
      record {
        shows = record {
          low =
              (le-div_iff_mul-le {k = 2 * d} {x = 10} {y = a} (omega (arith, pos))).1
                (omega (arith, lo));
          high = hi;
          not_above = omega (arith, above);
          not_below = omega (arith, below);
        };
        is_unit = unit;
        not_zero = pos;
      }

  tenths_high : (d : ℕ) → 0 < d → 20 * n + d < 20480 * d → tenths n d < 10240
  unfolding tenths
  tenths_high d pos h =
      (div-lt_iff_lt-mul {k = 2 * d} {x = 20 * n + d} {y = 10240} (omega (arith, pos))).1
        (omega (arith, h))

  tenths_large : (d : ℕ) → 0 < d → 10240 ≤ tenths n d → 20479 * d ≤ 20 * n
  unfolding tenths
  tenths_large d pos h =
      let bound =
        (le-div_iff_mul-le {k = 2 * d} {x = 10240} {y = 20 * n + d} (omega (arith, pos))).0 h in
      omega (arith, bound)

  roll_up_good :
      (d : ℕ) (unit u : Text) (us : List Text)
      → 0 < d
      → d ≡ bytes_in unit
      → d * 1024 ≡ bytes_in u
      → d ≤ n
      → n < 1024 * d
      → IsGoodUnit n (roll_up n (record { divisor = d; unit = unit; larger = u ∷ us }))
  unfolding roll_up
  roll_up_good d unit u us pos is_unit next lo hi = elim (Bool-cases (leb 10240 (tenths n d))) [
    | inl over ↦
        let large = tenths_large d pos (leb→le 10240 (tenths n d) over) in
        rw over (
          shows_between (record { divisor = d * 1024; unit = u; larger = us }) (omega (arith, pos))
            next (omega (arith, large, pos))
            (tenths_high (d * 1024) (omega (arith, pos)) (omega (arith, hi, pos))))
    | inr fits ↦ rw fits (
        shows_between (record { divisor = d; unit = unit; larger = u ∷ us }) pos is_unit
          (omega (arith, lo)) (not-leb→lt 10240 (tenths n d) fits))
  ]

  -- The loop stops at the unit that the count lies in.
  scale_step :
      (d : ℕ) (unit u : Text) (us : List Text)
      → 1024 * d ≤ n
      → scale n d unit (u ∷ us) ≡ scale n (d * 1024) u us
  unfolding scale
  scale_step d unit u us h = rw (le→leb (1024 * d) n h) refl

  scale_stop :
      (d : ℕ) (unit u : Text) (us : List Text)
      → n < 1024 * d
      → scale n d unit (u ∷ us) ≡ record { divisor = d; unit = unit; larger = u ∷ us }
  unfolding scale
  scale_stop d unit u us h = rw (lt→not-leb (1024 * d) n h) refl

abbrev from_gb : List Text
from_gb = codes "GB" ∷ codes "TB" ∷ []

abbrev from_tb : List Text
from_tb = codes "TB" ∷ []

-- Each of the units in turn; the count lies in it or above.
tb_good :
    (n : ℕ)
    → 1099511627776 ≤ n
    → n ≤ 1023 * 1099511627776
    → IsGoodUnit n (roll_up n (scale n 1099511627776 (codes "TB") []))
unfolding roll_up scale bytes_in
tb_good n lo hi =
    shows_between n (record { divisor = 1099511627776; unit = codes "TB"; larger = [] })
      (omega arith) refl (omega (arith, lo))
      (tenths_high n 1099511627776 (omega arith) (omega (arith, hi)))

gb_good :
    (n : ℕ)
    → 1073741824 ≤ n
    → n ≤ 1023 * 1099511627776
    → IsGoodUnit n (roll_up n (scale n 1073741824 (codes "GB") from_tb))
unfolding bytes_in
gb_good n lo hi = elim (lt_or_le n 1099511627776) [
  | inl small ↦
      rw (scale_stop n 1073741824 (codes "GB") (codes "TB") [] small)
        (roll_up_good n 1073741824 (codes "GB") (codes "TB") [] (omega arith) refl refl lo small)
  | inr large ↦ rw (scale_step n 1073741824 (codes "GB") (codes "TB") [] large) (tb_good n large hi)
]

mb_good :
    (n : ℕ)
    → 1048576 ≤ n
    → n ≤ 1023 * 1099511627776
    → IsGoodUnit n (roll_up n (scale n 1048576 (codes "MB") from_gb))
unfolding bytes_in
mb_good n lo hi = elim (lt_or_le n 1073741824) [
  | inl small ↦
      rw (scale_stop n 1048576 (codes "MB") (codes "GB") from_tb small)
        (roll_up_good n 1048576 (codes "MB") (codes "GB") from_tb (omega arith) refl refl lo small)
  | inr large ↦
      rw (scale_step n 1048576 (codes "MB") (codes "GB") from_tb large) (gb_good n large hi)
]

not_below_1024 : (n : ℕ) → 1024 ≤ n → ltb n 1024 ≡ false
not_below_1024 n h = ground arith

choose_unit-IsGoodUnit :
    (n : ℕ) → 1024 ≤ n → n ≤ 1023 * 1099511627776 → IsGoodUnit n (choose_unit n)
unfolding choose_unit bytes_in
choose_unit-IsGoodUnit n lo hi = elim (lt_or_le n 1048576) [
  | inl small ↦
      rw (scale_stop n 1024 (codes "KB") (codes "MB") from_gb small)
        (roll_up_good n 1024 (codes "KB") (codes "MB") from_gb (omega arith) refl refl lo small)
  | inr large ↦ rw (scale_step n 1024 (codes "KB") (codes "MB") from_gb large) (mb_good n large hi)
]

-- A count of at least 1024 bytes and at most 1023 TB is shown as a number with one decimal, a
-- space and one of the four units; the number is the count in that unit to the nearest tenth, and
-- lies between 1.0 and 1023.9.
pub fmt_bytes_lem :
    (n : ℕ)
    → 1024 ≤ n
    → n ≤ 1023 * 1099511627776
    → (s : Scaled) × (fmt_bytes n ≡ one_decimal (tenths n s.divisor) ++ codes " " ++ s.unit)
      × IsGoodUnit n s
unfolding fmt_bytes
fmt_bytes_lem n lo hi =
    (choose_unit n, rw (not_below_1024 n lo) refl, choose_unit-IsGoodUnit n lo hi)
