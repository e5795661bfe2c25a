-- ===== src/Exchanges/Sizes.antt =====
-- What `buildSizeView` of ui/src/lib/exchange.ts promises of its fields.
use protospy.Prelude.{
  ℕ, ◌≡◌, ◌≢◌, refl, sym, ◌∙◌, Option, none, some, Text, ◌==◌, Bool-cases, inl, inr, arith,
}
use protospy.Exchanges.Headers.{short_encoding}
use protospy.Exchanges.Size.{SizeView, distinct, encoded_view, build_size_view}

-- A decoded size is shown only beside a different size on the wire and an encoding; the tooltip is
-- there exactly where an encoding is.
pub record IsWellFormed (v : SizeView) : Type 0 where
  pub differs : {d w : ℕ} → v.decoded_bytes ≡ some d → v.wire_bytes ≡ some w → d ≢ w
  pub encoded : {d : ℕ} → v.decoded_bytes ≡ some d → v.encoding ≢ none
  pub explained : v.encoding ≢ none → v.tooltip ≢ none
  pub plain : v.encoding ≡ none → v.tooltip ≡ none

distinct-differs :
    (wire : ℕ) (decoded : Option ℕ) {d : ℕ} → distinct wire decoded ≡ some d → d ≢ wire
unfolding distinct
distinct-differs wire none h = ground arith
distinct-differs wire (some n) {d = d} h = elim (Bool-cases (n == wire)) [
  | inl same ↦ λ e. let impossible = rw same at h in cc
  | inr other ↦ let found : n ≡ d = let shown = rw other at h in cc in ground arith
]

encoded_view-IsWellFormed :
    (wire : ℕ) (decoded : Option ℕ) (encoding : Option Text)
    → IsWellFormed (encoded_view wire decoded encoding)
unfolding encoded_view
encoded_view-IsWellFormed wire decoded none = record {
  differs = λ h k. cc;
  encoded = λ h. cc;
  explained = λ h e. h refl;
  plain = λ h. refl;
}
encoded_view-IsWellFormed wire decoded (some encoding) = record {
  differs = λ {d} {w} h k.
      let same : wire ≡ w = cc in
      let differs = distinct-differs wire decoded h in λ e. differs (e ∙ sym same);
  encoded = λ h e. cc;
  explained = λ h e. cc;
  plain = λ h. cc;
}

-- The size view of any body is well formed.
pub build_size_view-IsWellFormed :
    (wire decoded : Option ℕ) (content_encoding : Option Text)
    → IsWellFormed (build_size_view wire decoded content_encoding)
unfolding build_size_view
build_size_view-IsWellFormed none decoded content_encoding = record {
  differs = λ h k. cc;
  encoded = λ h. cc;
  explained = λ h e. h refl;
  plain = λ h. refl;
}
build_size_view-IsWellFormed (some wire) decoded content_encoding =
    encoded_view-IsWellFormed wire decoded (short_encoding content_encoding)
