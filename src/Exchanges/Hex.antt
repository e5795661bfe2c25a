-- ===== src/Exchanges/Hex.antt =====
-- The hex dump of ui/src/lib/hex.ts.
use protospy.Prelude.{
  ℕ, zero, suc, ◌+◌, ◌-◌, ◌*◌, ◌/◌, ◌%◌, ◌≤◌, ◌≡◌, refl, sym, ap, ◌∙◌, ◌&&◌, List, [], ◌∷◌, ◌++◌,
  Text, codes, length, suc_add, take-append-drop, take, drop, replicate, map, join, leb, ltb, arith,
  if◌then◌else◌,
}

-- `HEX_BYTES_PER_ROW`
abbrev pub hex_bytes_per_row : ℕ
hex_bytes_per_row = 16

pub record HexRow : Type 0 where
  pub offset : Text
  pub hex : Text
  pub ascii : Text

-- `Math.ceil(len / HEX_BYTES_PER_ROW)`
unfoldable pub hex_row_count : ℕ → ℕ
hex_row_count len = (len + 15) / hex_bytes_per_row

-- one digit to the base 16
unfoldable pub hex_digit : ℕ → ℕ
hex_digit d = if ltb d 10 then b'0' + d else b'a' + (d - 10)

-- the digits of a number, with as many rounds as fuel, least digits last
unfoldable pub hex_digits : ℕ → ℕ → Text
unfolding hex_digit
hex_digits zero n = []
hex_digits (suc fuel) n =
    let higher = hex_digits fuel (n / 16) in
    if ltb n 16 then hex_digit n ∷ [] else higher ++ hex_digit (n % 16) ∷ []

-- `n.toString(16).padStart(width, "0")`; a number has fewer digits than the fuel
unfoldable pub padded_hex : ℕ → ℕ → Text
unfolding hex_digits
padded_hex width n =
    let digits = hex_digits (n + 1) n in replicate (width - length digits) b'0' ++ digits

unfoldable pub to_hex_byte : ℕ → Text
unfolding padded_hex
to_hex_byte b = padded_hex 2 b

-- the character of a byte in the gutter
unfoldable pub ascii_of : ℕ → ℕ
ascii_of b = if leb 0x20 b && leb b 0x7e then b else b'.'

-- the bytes from `start` up to `end`
unfoldable pub row_bytes : List ℕ → ℕ → List ℕ
row_bytes bytes row_index = take hex_bytes_per_row (drop (row_index * hex_bytes_per_row) bytes)

unfoldable pub hex_row : List ℕ → ℕ → HexRow
unfolding row_bytes to_hex_byte padded_hex ascii_of join
hex_row bytes row_index =
    let shown = row_bytes bytes row_index in
    record {
      offset = padded_hex 8 (row_index * hex_bytes_per_row);
      hex =
          join (codes " ")
            (map to_hex_byte shown ++ replicate (hex_bytes_per_row - length shown) (codes "  "));
      ascii = map ascii_of shown;
    }

unfoldable pub row_text : HexRow → Text
row_text r = r.offset ++ codes "  " ++ r.hex ++ codes "  |" ++ r.ascii ++ codes "|"

-- the rows from the `r`-th on
unfoldable pub hex_rows : List ℕ → (left r : ℕ) → List Text
unfolding hex_row row_text
hex_rows bytes zero r = []
hex_rows bytes (suc left) r = row_text (hex_row bytes r) ∷ hex_rows bytes left (r + 1)

unfoldable pub hex_dump_text : List ℕ → Text
unfolding hex_rows hex_row_count join
hex_dump_text bytes = join (codes "\n") (hex_rows bytes (hex_row_count (length bytes)) 0)

-- The bytes of the rows from the `r`-th on.
pub covered : List ℕ → (left r : ℕ) → List ℕ
unfolding row_bytes
covered bytes zero r = []
covered bytes (suc left) r = row_bytes bytes r ++ covered bytes left (r + 1)

next_row : (r : ℕ) → (r + 1) * 16 ≡ r * 16 + 16
next_row r = omega arith

drop-nil : (n : ℕ) → drop {A = ℕ} n [] ≡ []
drop-nil zero = refl
drop-nil (suc n) = refl

drop-past : (n : ℕ) (xs : List ℕ) → length xs ≤ n → drop n xs ≡ []
drop-past zero [] short = refl
drop-past zero (x ∷ xs) short = absurd (omega arith)
drop-past (suc n) [] short = refl
drop-past (suc n) (x ∷ xs) short = drop-past n xs (omega arith)

drop-drop : (m n : ℕ) (xs : List ℕ) → drop n (drop m xs) ≡ drop (m + n) xs
drop-drop zero n xs = ap (λ k. drop k xs) (omega arith)
drop-drop (suc m) n [] = drop-nil n ∙ sym (drop-nil (suc m + n))
drop-drop (suc m) n (x ∷ xs) = drop-drop m n xs ∙ ap (λ k. drop k (x ∷ xs)) (sym (suc_add m n))

covered_lem :
    (bytes : List ℕ) (left r : ℕ)
    → length bytes ≤ (r + left) * 16
    → covered bytes left r ≡ drop (r * 16) bytes
unfolding covered row_bytes
covered_lem bytes zero r enough = sym (drop-past (r * 16) bytes (omega arith))
covered_lem bytes (suc left) r enough =
    ap (λ rest. take 16 (drop (r * 16) bytes) ++ rest)
      (covered_lem bytes left (r + 1) (omega arith)
        ∙ ap (λ k. drop k bytes) (next_row r)
        ∙ sym (drop-drop (r * 16) 16 bytes))
    ∙ take-append-drop 16 (drop (r * 16) bytes)

-- The rows of a dump cover the bytes of the body, each once and in their order.
pub covered_all : (bytes : List ℕ) → covered bytes (hex_row_count (length bytes)) 0 ≡ bytes
unfolding hex_row_count
covered_all bytes = covered_lem bytes ((length bytes + 15) / 16) 0 (omega arith)
