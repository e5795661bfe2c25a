-- ===== src/Exchanges/Headers.antt =====
-- The header utilities of ui/src/lib/utils.ts, and `splitUri` and `shortEncoding`.
use protospy.Prelude.{
  ℕ, suc, ◌+◌, Bool, not, ◌||◌, Option, none, some, List, [], ◌∷◌, ◌++◌, Text, codes, text_eq,
  to_lower, trim, includes, starts_with, index_of, take, drop, filter, leb, ltb, if◌then◌else◌,
}
use protospy.Wire.{Header, ProxyHeaders}
use protospy.Runtime.{Runtime}

-- `PINNED_HEADER_NAMES`
abbrev pub pinned_header_names : List Text
pinned_header_names =
    codes "content-type"
    ∷ codes "content-encoding"
    ∷ codes "authorization"
    ∷ codes "traceparent"
    ∷ codes "cache-control"
    ∷ []

-- `names.indexOf(name)`; the number of names stands for -1
unfoldable pub index_in : List Text → Text → ℕ
unfolding text_eq
index_in [] name = 0
index_in (n ∷ names) name = if text_eq n name then 0 else suc (index_in names name)

-- the place of a header among the pinned names, 5 for none
unfoldable pub pin_of : Header → ℕ
unfolding index_in to_lower
pin_of h = index_in pinned_header_names (to_lower h.name)

-- `PINNED_HEADER_NAMES.includes(…)`
unfoldable pub is_pinned : Header → Bool
unfolding pin_of
is_pinned h = ltb (pin_of h) 5

-- a header in front of the first that does not go before it
unfoldable pub insert_by_pin : Header → ProxyHeaders → ProxyHeaders
unfolding pin_of
insert_by_pin h [] = h ∷ []
insert_by_pin h (g ∷ gs) = if leb (pin_of h) (pin_of g) then h ∷ g ∷ gs else g ∷ insert_by_pin h gs

-- `pinned.sort(…)`, which is stable
unfoldable pub sort_by_pin : ProxyHeaders → ProxyHeaders
unfolding insert_by_pin
sort_by_pin [] = []
sort_by_pin (h ∷ hs) = insert_by_pin h (sort_by_pin hs)

-- `sortHeadersByPin`
unfoldable pub sort_headers_by_pin : ProxyHeaders → ProxyHeaders
unfolding is_pinned sort_by_pin
sort_headers_by_pin headers =
    sort_by_pin (filter is_pinned headers) ++ filter (λ h. not (is_pinned h)) headers

abbrev pub mask : Text
mask = codes "**********"

-- `maskHeaderValue`
unfoldable pub mask_value : Text → Text
unfolding index_of
mask_value value = elim (index_of b' ' value) [
  | none ↦ take 8 value ++ mask
  | some space ↦ take (space + 1) value ++ mask
]

unfoldable pub mask_header_value : Text → Text → Text
unfolding to_lower text_eq mask_value
mask_header_value name value =
    if text_eq (to_lower name) (codes "authorization") then mask_value value else value

-- `decodeBasicAuth`; the bytes that `atob` returns are the units of its string
unfoldable pub decode_basic_auth : Runtime → Text → Option Text
unfolding to_lower starts_with trim
decode_basic_auth rt value =
    if starts_with (to_lower value) (codes "basic ") then rt.atob (trim (drop 6 value)) else none

-- `filterHeaders` behind its test of the query
unfoldable pub matches_query : Text → Header → Bool
unfolding to_lower includes
matches_query q h = includes (to_lower h.name) q || includes (to_lower h.value) q

unfoldable pub filter_headers : ProxyHeaders → Text → ProxyHeaders
unfolding matches_query
filter_headers headers [] = headers
filter_headers headers (c ∷ query) = filter (matches_query (to_lower (c ∷ query))) headers

-- `splitUri`
unfoldable pub split_uri : Text → Text × Text
unfolding index_of
split_uri uri = elim (index_of b'?' uri) [ none ↦ (uri, []) | some q ↦ (take q uri, drop q uri) ]

-- `shortEncoding` behind the test for an absent or empty header
unfoldable pub short_of : Text → Option Text
unfolding text_eq
short_of [] = none
short_of (c ∷ lower) = if text_eq (c ∷ lower) (codes "identity") then none else some (c ∷ lower)

unfoldable pub short_encoding : Option Text → Option Text
unfolding to_lower trim short_of
short_encoding none = none
short_encoding (some []) = none
short_encoding (some (c ∷ encoding)) = short_of (trim (to_lower (c ∷ encoding)))
