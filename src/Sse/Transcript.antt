-- ===== src/Sse/Transcript.antt =====
-- ui/src/anthropic/transcript.ts: the text that a stream of Anthropic's events adds up to. A
-- property of a value is that of an object; other values have none of the names that are read.
-- `to_string` is `String` on a value that is neither a string nor absent.
use mathlib.Core.List.{foldl}
use protospy.Prelude.{
  ◌≡◌, refl, sym, ap, ◌∙◌, subst, Bool, true, false, ◌&&◌, Option, none, some, List, [], ◌∷◌, ◌++◌,
  append_assoc, append-nil, Text, codes, text_eq, if◌then◌else◌, Bool-cases, inl, inr,
}
use protospy.Prelude.StringLaws.{text_eq_sound}
use protospy.Wire.{Value, Entries, end, entry}
use protospy.Sse.{SseEvent}

-- `d.name` on the entries of an object; names do not repeat
unfoldable pub get_entry : Text → Entries → Option Value
unfolding text_eq
get_entry name end = none
get_entry name (entry k v entries) = if text_eq k name then some v else get_entry name entries

-- `d?.name`
unfoldable pub property_of : Text → Option Value → Option Value
unfolding get_entry
property_of name (some (Value.obj entries)) = get_entry name entries
property_of name _ = none

-- the values that count as true
unfoldable pub is_true_value : Option Value → Bool
unfolding text_eq
is_true_value none = false
is_true_value (some Value.null) = false
is_true_value (some (Value.bool b)) = b
is_true_value (some (Value.num n)) = if text_eq n (codes "0") then false else true
is_true_value (some (Value.str [])) = false
is_true_value (some (Value.str (c ∷ s))) = true
is_true_value (some (Value.arr items)) = true
is_true_value (some (Value.obj entries)) = true

-- `event.parsedData && typeof event.parsedData === "object"`
unfoldable pub is_object : Option Value → Bool
is_object (some (Value.arr items)) = true
is_object (some (Value.obj entries)) = true
is_object _ = false

-- `delta?.type === "text_delta"`
unfoldable pub is_string : Text → Option Value → Bool
unfolding text_eq
is_string s (some (Value.str t)) = text_eq t s
is_string s _ = false

pub record Usage : Type 0 where
  pub input_tokens : Option Value
  pub output_tokens : Option Value

pub record Transcript : Type 0 where
  pub text : Text
  pub model : Option Value
  pub message_id : Option Value
  pub stop_reason : Option Value
  pub usage : Option Usage
  pub is_complete : Bool

abbrev pub empty_transcript : Transcript
empty_transcript = record {
  text = [];
  model = none;
  message_id = none;
  stop_reason = none;
  usage = none;
  is_complete = false;
}

-- the branch for "message_start"
unfoldable pub on_message_start : Option Value → Transcript → Transcript
unfolding property_of is_true_value
on_message_start d t =
    let msg = property_of (codes "message") d in
    if is_true_value msg
    then record t {
      model = property_of (codes "model") msg;
      message_id = property_of (codes "id") msg;
    }
    else t

-- A start is no delta.
not_delta :
    (name : Text)
    → text_eq name (codes "message_start") ≡ true
    → text_eq name (codes "content_block_delta") ≡ false
unfolding text_eq
not_delta name start =
    subst (λ n. text_eq n (codes "content_block_delta") ≡ false)
      (sym (text_eq_sound name (codes "message_start") start)) refl

module _ (to_string : Value → Text) where
  -- what `(delta.text as string) ?? ""` adds
  unfoldable pub added_text : Option Value → Text
  added_text none = []
  added_text (some Value.null) = []
  added_text (some (Value.str s)) = s
  added_text (some (Value.bool b)) = to_string (Value.bool b)
  added_text (some (Value.num n)) = to_string (Value.num n)
  added_text (some (Value.arr items)) = to_string (Value.arr items)
  added_text (some (Value.obj entries)) = to_string (Value.obj entries)

  -- the text of the branch for "content_block_delta"
  unfoldable pub delta_text : Option Value → Text
  unfolding property_of is_string added_text
  delta_text d =
      let delta = property_of (codes "delta") d in
      if is_string (codes "text_delta") (property_of (codes "type") delta)
      then added_text (property_of (codes "text") delta)
      else []

  -- the branch for "message_delta"
  unfoldable pub on_message_delta : Option Value → Transcript → Transcript
  unfolding property_of is_true_value
  on_message_delta d t =
      let reason = property_of (codes "stop_reason") (property_of (codes "delta") d) in
      let u = property_of (codes "usage") d in
      record t {
        stop_reason = if is_true_value reason then reason else t.stop_reason;
        usage =
            if is_true_value u
            then some (record {
              input_tokens = property_of (codes "input_tokens") u;
              output_tokens = property_of (codes "output_tokens") u;
            })
            else t.usage;
      }

  -- one round of the loop
  unfoldable pub add_event : Transcript → SseEvent → Transcript
  unfolding is_object text_eq on_message_start delta_text on_message_delta
  add_event t event =
      if is_object event.parsed
      then if text_eq event.type_name (codes "message_start")
        then on_message_start event.parsed t
        else if text_eq event.type_name (codes "content_block_delta")
        then record t { text = t.text ++ delta_text event.parsed }
        else if text_eq event.type_name (codes "message_delta")
        then on_message_delta event.parsed t
        else if text_eq event.type_name (codes "message_stop")
        then record t { is_complete = true }
        else t
      else t

  -- `extractAnthropicTranscript`
  unfoldable pub extract_anthropic_transcript : List SseEvent → Transcript
  unfolding add_event
  extract_anthropic_transcript events = foldl add_event empty_transcript events

  -- What one event adds to the text.
  unfoldable pub event_text : SseEvent → Text
  event_text event =
      if is_object event.parsed && text_eq event.type_name (codes "content_block_delta")
      then delta_text event.parsed
      else []

  abbrev events_text : List SseEvent → Text
  events_text [] = []
  events_text (e ∷ events) = event_text e ++ events_text events

  on_message_start-text : (d : Option Value) (t : Transcript) → (on_message_start d t).text ≡ t.text
  unfolding on_message_start
  on_message_start-text d t = elim (Bool-cases (is_true_value (property_of (codes "message") d))) [
    | inl there ↦ rw (on_message_start, there) refl
    | inr missing ↦ rw (on_message_start, missing) refl
  ]

  add_event-text : (t : Transcript) (e : SseEvent) → (add_event t e).text ≡ t.text ++ event_text e
  unfolding add_event event_text on_message_delta
  add_event-text t e = elim (Bool-cases (is_object e.parsed)) [
    | inr no_object ↦ rw (add_event, event_text, no_object) (sym (append-nil t.text))
    | inl object ↦ elim (Bool-cases (text_eq e.type_name (codes "message_start"))) [
      | inl start ↦
          rw (add_event, event_text, object, start, not_delta e.type_name start)
            (on_message_start-text e.parsed t ∙ sym (append-nil t.text))
      | inr no_start ↦ elim (Bool-cases (text_eq e.type_name (codes "content_block_delta"))) [
        | inl delta ↦ rw (add_event, event_text, object, no_start, delta) refl
        | inr no_delta ↦ elim (Bool-cases (text_eq e.type_name (codes "message_delta"))) [
          | inl message ↦
              rw (add_event, event_text, object, no_start, no_delta, message)
                (sym (append-nil t.text))
          | inr no_message ↦ elim (Bool-cases (text_eq e.type_name (codes "message_stop"))) [
            | inl stop ↦
                rw (add_event, event_text, object, no_start, no_delta, no_message, stop)
                  (sym (append-nil t.text))
            | inr no_stop ↦
                rw (add_event, event_text, object, no_start, no_delta, no_message, no_stop)
                  (sym (append-nil t.text))
          ]
        ]
      ]
    ]
  ]

  text_from :
      (events : List SseEvent) (t : Transcript)
      → (foldl add_event t events).text ≡ t.text ++ events_text events
  text_from [] t = sym (append-nil t.text)
  text_from (e ∷ events) t =
      text_from events (add_event t e)
      ∙ ap (λ s. s ++ events_text events) (add_event-text t e)
      ∙ append_assoc t.text (event_text e) (events_text events)

  -- The text of a transcript is that of the text deltas of the stream, one behind the other.
  pub transcript_text :
      (events : List SseEvent) → (extract_anthropic_transcript events).text ≡ events_text events
  unfolding extract_anthropic_transcript
  transcript_text events = text_from events empty_transcript
