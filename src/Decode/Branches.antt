-- ===== src/Decode/Branches.antt =====
-- The ways through the steps 4 to 10 of `decodeBody` (ui/src/body/decode.ts).
use protospy.Prelude.{
  ◌≡◌, refl, Bool, true, false, Option, none, some, Text, codes, to_lower, includes, starts_with,
  if◌then◌else◌,
}
use protospy.Runtime.{Result, thrown, ok}
use protospy.Body.ViewModes.{ContentKind, image}
use protospy.JsonParse.Worker.{OutMessage}
use protospy.Markup.{MarkupKind, MarkupFormatResult}
use protospy.Decode.ContentType.{is_jsonl_content_type, is_textual_content_type}
use protospy.Decode.Outcomes.{
  DecodeResult, Decoded, plain_result, text_result, ndjson_result, json_result, markup_result,
}
use protospy.Decode.Steps.{
  Workers, is_binary_content_type, decode_rest, markup_kind_of, decode_markup, decode_json,
  decode_ndjson, classify,
}

module _ {ℓ κ} {A : Type ℓ} (P : A → Type κ) where
  if_elim : (b : Bool) (x y : A) → P x → P y → P (if b then x else y)
  if_elim true x y hx hy = hx
  if_elim false x y hx hy = hy

  answer_elim :
      {B : Type 0} (r : Result B) (f : B → A) (y : A)
      → ((b : B) → r ≡ ok b → P (f b))
      → P y
      → P (elim r [ ok b ↦ f b | thrown ↦ y ])
  answer_elim thrown f y h hy = hy
  answer_elim (ok b) f y h hy = h b refl

  option_elim :
      {B : Type 0} (o : Option B) (f : B → A) (y : A)
      → ((b : B) → P (f b))
      → P y
      → P (elim o [ none ↦ y | some b ↦ f b ])
  option_elim none f y h hy = hy
  option_elim (some b) f y h hy = h b

-- What holds of each result that the steps 4 to 10 may return holds of the one that they return.
module _ {κ} (workers : Workers) (d : Decoded) (P : DecodeResult → Type κ)
    (on_plain_text : P (text_result d)) (on_image : P (plain_result d image))
    (on_binary : P (plain_result d ContentKind.binary))
    (on_markup : (kind : MarkupKind) (r : Result MarkupFormatResult) → P (markup_result d kind r))
    (on_json : (m : OutMessage) → workers.parse_json d.text ≡ ok m → P (json_result d m))
    (on_ndjson : (m : OutMessage)
      → workers.parse_ndjson d.text ≡ ok m
      → P (ndjson_result d m)) where
  decode_rest_elim : (content_type : Text) → P (decode_rest d content_type)
  unfolding decode_rest
  decode_rest_elim content_type =
      if_elim P (is_textual_content_type content_type) _ _ on_plain_text (
        if_elim P (starts_with content_type (codes "image/")) _ _ on_image
          (if_elim P (is_binary_content_type content_type) _ _ on_binary on_plain_text))

  decode_markup_elim : (content_type : Text) → P (decode_markup workers d content_type)
  unfolding decode_markup
  decode_markup_elim content_type =
      option_elim P (markup_kind_of content_type) _ _
        (λ kind. on_markup kind (workers.format_markup d.text kind)) (decode_rest_elim content_type)

  decode_json_elim : (content_type : Text) → P (decode_json workers d content_type)
  unfolding decode_json
  decode_json_elim content_type =
      let later = decode_markup_elim content_type in
      if_elim P (includes (to_lower content_type) (codes "json")) _ _
        (answer_elim P (workers.parse_json d.text) _ _ on_json later) later

  decode_ndjson_elim : (content_type : Text) → P (decode_ndjson workers d content_type)
  unfolding decode_ndjson
  decode_ndjson_elim content_type =
      let later = decode_json_elim content_type in
      if_elim P (is_jsonl_content_type content_type) _ _
        (answer_elim P (workers.parse_ndjson d.text) _ _ on_ndjson later) later

  pub classify_elim : (content_type : Option Text) → P (classify workers d content_type)
  unfolding classify
  classify_elim none = on_plain_text
  classify_elim (some content_type) = decode_ndjson_elim content_type
