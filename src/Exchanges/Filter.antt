-- ===== src/Exchanges/Filter.antt =====
-- `matchesFilter` and `isBulkOperation` of ui/src/lib/utils.ts.
use protospy.Prelude.{
  Bool, true, false, ◌||◌, Option, none, some, [], ◌∷◌, Text, codes, to_lower, includes,
}
use protospy.Store.Types.{Exchange}

-- `s ?? ""`
abbrev pub text_or_empty : Option Text → Text
text_or_empty none = []
text_or_empty (some s) = s

-- the case-insensitive search in the three fields
unfoldable pub contains_query : Exchange → Text → Bool
unfolding to_lower includes
contains_query ex q =
    includes (to_lower (text_or_empty ex.method)) q
    || includes (to_lower (text_or_empty ex.uri)) q
    || includes (to_lower (text_or_empty ex.status)) q

unfoldable pub matches_filter : Exchange → Text → Bool
unfolding contains_query
matches_filter ex [] = true
matches_filter ex (c ∷ filter) = contains_query ex (to_lower (c ∷ filter))

unfoldable pub is_bulk_operation : Option Text → Bool
unfolding includes
is_bulk_operation none = false
is_bulk_operation (some uri) = includes uri (codes "_msearch") || includes uri (codes "_mget")
