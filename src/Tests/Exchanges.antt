-- ===== src/Tests/Exchanges.antt =====
-- Formats, statuses and headers at concrete inputs.
use protospy.Prelude.{
  ◌≡◌, ◌⊎◌, ◌≤◌, ◌<◌, length, Text, refl, false, not, some, [], ◌∷◌, ◌++◌, codes, text_eq, to_lower,
  filter, arith,
}
use protospy.Wire.{ProxyHeaders}
use protospy.Format.{Scaled, fmt_bytes, one_decimal, tenths, media_type_slug}
use protospy.Format.Bounds.{IsGoodUnit, fmt_bytes_lem}
use protospy.Exchanges.Status.{status_kind, number_class, status_code_only}
use protospy.Exchanges.StatusLines.{NoSpaces, line_of, status_kind-line_of}
use protospy.JsonTree.Rows.Quote.{decimal}
use protospy.Exchanges.Headers.{mask, is_pinned, sort_headers_by_pin, mask_header_value}
use protospy.Exchanges.Pinned.{pinned_at, sort_headers_by_pin_lem}
use protospy.Exchanges.Masking.{IsAuthorization, mask_header_value_hides, mask_header_value_shows}

fmt_bytes_runs : fmt_bytes 1536 ≡ codes "1.5 KB"
unfolding fmt_bytes
fmt_bytes_runs = refl

fmt_bytes_rolls_up : fmt_bytes 1_048_570 ≡ codes "1.0 MB"
unfolding fmt_bytes
fmt_bytes_rolls_up = refl

media_type_slug_runs :
    media_type_slug (codes "application/vnd.elasticsearch+json; compatible-with=8") ≡ codes "json"
unfolding media_type_slug
media_type_slug_runs = refl

fmt_bytes_lem_example :
    (s : Scaled) × (fmt_bytes 1_048_570
      ≡ one_decimal (tenths 1_048_570 s.divisor) ++ codes " " ++ s.unit)
    × IsGoodUnit 1_048_570 s
fmt_bytes_lem_example = fmt_bytes_lem 1_048_570 (omega arith) (omega arith)

status_kind-line_of_example :
    (status_kind (some (line_of 404 (some (codes "Not Found")))) false
      ≡ number_class (some 404) false)
    × (status_code_only (line_of 404 (some (codes "Not Found"))) ≡ decimal 404)
status_kind-line_of_example = status_kind-line_of 404 (some (codes "Not Found")) false

abbrev some_headers : ProxyHeaders
some_headers =
    record { name = codes "Host"; value = codes "a" }
    ∷ record { name = codes "Cache-Control"; value = codes "b" }
    ∷ record { name = codes "Content-Type"; value = codes "c" }
    ∷ record { name = codes "Cache-Control"; value = codes "d" }
    ∷ []

sort_headers_by_pin_lem_example :
    sort_headers_by_pin some_headers
    ≡ pinned_at 0 some_headers
      ++ (pinned_at 1 some_headers
          ++ (pinned_at 2 some_headers ++ (pinned_at 3 some_headers ++ pinned_at 4 some_headers)))
      ++ filter (λ h. not (is_pinned h)) some_headers
sort_headers_by_pin_lem_example = sort_headers_by_pin_lem some_headers

name-IsAuthorization : IsAuthorization (codes "Authorization")
unfolding to_lower text_eq
name-IsAuthorization = refl

bearer-NoSpaces : NoSpaces (codes "Bearer")
bearer-NoSpaces = (refl, (refl, (refl, (refl, (refl, (refl, tt))))))

mask_header_value_hides_example :
    mask_header_value (codes "Authorization") (codes "Bearer" ++ b' ' ∷ codes "s3 cret")
    ≡ codes "Bearer" ++ b' ' ∷ mask
mask_header_value_hides_example =
    mask_header_value_hides (codes "Authorization") (codes "Bearer") (codes "s3 cret")
      name-IsAuthorization bearer-NoSpaces

abbrev raw_token : Text
raw_token = codes "Zm9vOmJhcg"

raw_token-NoSpaces : NoSpaces raw_token
raw_token-NoSpaces =
    (refl, (refl, (refl, (refl, (refl, (refl, (refl, (refl, (refl, (refl, tt))))))))))

mask_header_value_shows_example :
    ((length raw_token ≤ 8)
      × (mask_header_value (codes "Authorization") raw_token ≡ raw_token ++ mask))
    ⊎ ((shown hidden : Text) × (raw_token ≡ shown ++ hidden)
        × (length shown ≡ 8)
        × (0 < length hidden)
        × (mask_header_value (codes "Authorization") raw_token ≡ shown ++ mask))
mask_header_value_shows_example =
    mask_header_value_shows (codes "Authorization") raw_token name-IsAuthorization
      raw_token-NoSpaces
