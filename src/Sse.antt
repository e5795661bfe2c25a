-- ===== src/Sse.antt =====
-- ui/src/body/sse.ts: one event of a server-sent event stream from the text of its block, and a
-- whole body at once. The children treat the incremental parser of ui/src/body/sse-stream.ts.
pub mod Stream
pub mod Splitting
pub mod Chunks
pub mod ChunksText
pub mod Transcript
use mathlib.Core.List.{foldl}
use protospy.Prelude.{
  ℕ, zero, suc, ◌+◌, Bool, true, false, ◌&&◌, Option, none, some, List, [], ◌∷◌, ◌++◌, Text, codes,
  text_eq, starts_with, index_of, take, drop, trim, trim_start, split_on, cons_head, join, ◌==◌,
  if◌then◌else◌,
}
use protospy.Wire.{Value}
use protospy.Runtime.{Runtime}

pub record SseEvent : Type 0 where
  pub type_name : Text
  pub content : Text
  pub id : Option Text
  pub parsed : Option Value
  pub index : ℕ

-- `EventClass` has one variant today
pub data EventClass : Type 0 where
  generic : EventClass

unfoldable pub classify_event : SseEvent → EventClass
classify_event event = generic

-- the variables of the loop of `parseSSEBlock`
pub record BlockFields : Type 0 where
  pub type_name : Text
  pub lines : List Text
  pub id : Option Text

abbrev pub no_fields : BlockFields
no_fields = record { type_name = codes "message"; lines = []; id = none }

unfoldable pub set_field : Text → Text → BlockFields → BlockFields
unfolding text_eq
set_field field value f =
    if text_eq field (codes "event")
    then record f { type_name = value }
    else if text_eq field (codes "data")
    then record f { lines = f.lines ++ value ∷ [] }
    else if text_eq field (codes "id")
    then record f { id = some value }
    else f

-- one round of the loop over the lines of a block
unfoldable pub read_line : BlockFields → Text → BlockFields
unfolding starts_with index_of trim trim_start set_field
read_line f line = if starts_with line (codes ":") then f else elim (index_of b':' line) [
  | none ↦ f
  | some i ↦ set_field (trim (take i line)) (trim_start (drop (suc i) line)) f
]

unfoldable pub finish_block : Runtime → ℕ → BlockFields → Option SseEvent
unfolding join
finish_block rt index f = elim f.lines [
  | [] ↦ none
  | l ∷ ls ↦ some (record {
    type_name = f.type_name;
    content = join (codes "\n") (l ∷ ls);
    id = f.id;
    parsed = rt.json_parse (join (codes "\n") (l ∷ ls));
    index = index;
  })
]

unfoldable pub parse_trimmed : Runtime → Text → ℕ → Option SseEvent
unfolding read_line finish_block split_on
parse_trimmed rt [] index = none
parse_trimmed rt (c ∷ trimmed) index =
    finish_block rt index (foldl read_line no_fields (split_on b'\n' (c ∷ trimmed)))

-- `parseSSEBlock`
unfoldable pub parse_sse_block : Runtime → Text → ℕ → Option SseEvent
unfolding trim parse_trimmed
parse_sse_block rt block index = parse_trimmed rt (trim block) index

-- `text.split(/\n\n+/)`; the flag is set behind a separator, whose further line ends are skipped
unfoldable pub split_runs : Bool → Text → List Text
unfolding cons_head
split_runs skip [] = [] ∷ []
split_runs skip (a ∷ []) = if skip && a == b'\n' then [] ∷ [] else (a ∷ []) ∷ []
split_runs skip (a ∷ b ∷ s) = elim (skip && a == b'\n') [
  | true ↦ split_runs true (b ∷ s)
  | false ↦ elim (a == b'\n' && b == b'\n') [
    | true ↦ [] ∷ split_runs true s
    | false ↦ cons_head a (split_runs false (b ∷ s))
  ]
]

-- the loop over the blocks: the events in order, numbered from `index`, and the next number
unfoldable pub parse_parts : Runtime → List Text → ℕ → List SseEvent × ℕ
parse_parts rt [] index = ([], index)
parse_parts rt (block ∷ blocks) index = elim (parse_sse_block rt block index) [
  | none ↦ parse_parts rt blocks index
  | some event ↦
      (event ∷ (parse_parts rt blocks (index + 1)).0, (parse_parts rt blocks (index + 1)).1)
]

-- `parseSSEBody`
unfoldable pub parse_sse_body : Runtime → Text → List SseEvent
unfolding split_runs parse_parts
parse_sse_body rt body = (parse_parts rt (split_runs false body) 0).0
