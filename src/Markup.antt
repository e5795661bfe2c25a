-- ===== src/Markup.antt =====
-- ui/src/body/markup-format-core.ts and the answer of markup-format.worker.ts: re-indenting a body
-- of HTML or XML and cutting it into highlighted lines. The formatters and the grammar of Prism
-- are arguments.
pub mod LineText
use protospy.Prelude.{ℕ, Option, none, some, List, [], ◌∷◌, ◌++◌, Text, split_on}
use protospy.Runtime.{Result, thrown, ok, ◌>>=◌}

pub data MarkupKind : Type 0 where
  html xml : MarkupKind

pub record MarkupToken : Type 0 where
  pub token_type : Text
  pub text : Text

abbrev pub MarkupLine : Type 0
MarkupLine = List MarkupToken

-- `string | Prism.Token`, and the content of a token: a string, a token or an array
mutual
  pub data PrismNode : Type 0 where
    plain : Text → PrismNode
    token : Text → PrismContent → PrismNode

  pub data PrismContent : Type 0 where
    leaf : Text → PrismContent
    single : PrismNode → PrismContent
    many : PrismNodes → PrismContent

  pub data PrismNodes : Type 0 where
    no_nodes : PrismNodes
    node : PrismNode → PrismNodes → PrismNodes

-- The libraries: `xmlFormat` and `beautify.html` with the source's options, and
-- `Prism.tokenize` with the grammar for markup. `none` stands for a thrown exception.
pub record MarkupLibraries : Type 0 where
  pub xml_format : Text → Option Text
  pub beautify_html : Text → Option Text
  pub tokenize : Text → Option PrismNodes

-- The array `lines`, which is never empty: its last line and those before it.
pub record Lines : Type 0 where
  pub before : List MarkupLine
  pub last : MarkupLine

-- `[[]]`
abbrev pub one_blank_line : Lines
one_blank_line = record { before = []; last = [] }

-- `lines.push([])`
abbrev pub push_line : Lines → Lines
push_line lines = record { before = lines.before ++ lines.last ∷ []; last = [] }

-- a part that is not empty goes to the last line
unfoldable pub push_part : Text → Text → Lines → Lines
push_part type [] lines = lines
push_part type (c ∷ part) lines = record lines {
  last = lines.last ++ record { token_type = type; text = c ∷ part } ∷ [];
}

-- the parts behind the first, each on a line of its own
unfoldable pub push_parts : Text → List Text → Lines → Lines
unfolding push_part
push_parts type [] lines = lines
push_parts type (part ∷ parts) lines = push_parts type parts (push_part type part (push_line lines))

-- the first part, and the others
unfoldable pub push_split : Text → List Text → Lines → Lines
unfolding push_part push_parts
push_split type [] lines = lines
push_split type (part ∷ parts) lines = push_parts type parts (push_part type part lines)

-- `pushText`
unfoldable pub push_text : Text → Text → Lines → Lines
unfolding push_split split_on
push_text type text lines = push_split type (split_on b'\n' text) lines

-- `node.type || inheritedType`
unfoldable pub type_or : Text → Text → Text
type_or [] inherited = inherited
type_or (c ∷ type) inherited = c ∷ type

unfoldable mutual
  unfolding push_text type_or

  pub walk : PrismNode → Text → Lines → Lines
  walk (plain text) inherited lines = push_text inherited text lines
  walk (token type content) inherited lines = walk_content content (type_or type inherited) lines

  pub walk_content : PrismContent → Text → Lines → Lines
  walk_content (leaf text) type lines = push_text type text lines
  walk_content (single inner) type lines = walk inner type lines
  walk_content (many children) type lines = walk_nodes children type lines

  pub walk_nodes : PrismNodes → Text → Lines → Lines
  walk_nodes no_nodes type lines = lines
  walk_nodes (node child children) type lines = walk_nodes children type (walk child type lines)

abbrev pub all_lines : Lines → List MarkupLine
all_lines lines = lines.before ++ lines.last ∷ []

-- a formatter's text, or the text itself where the formatter throws
unfoldable pub formatted_or : Option Text → Text → Text
formatted_or none text = text
formatted_or (some formatted) text = formatted

-- the result of `formatMarkup`
pub record MarkupFormatResult : Type 0 where
  pub lines : List MarkupLine
  pub formatted_text : Text

module _ (lib : MarkupLibraries) where
  unfoldable pub pretty_print_markup : Text → MarkupKind → Text
  unfolding formatted_or
  pretty_print_markup text xml = formatted_or (lib.xml_format text) text
  pretty_print_markup text html = formatted_or (lib.beautify_html text) text

  unfoldable pub tokenize_markup : Text → Result (List MarkupLine)
  unfolding walk_nodes
  tokenize_markup text = elim (lib.tokenize text) [
    | none ↦ thrown
    | some tokens ↦ ok (all_lines (walk_nodes tokens [] one_blank_line))
  ]

  -- the worker's answer; its "error" status is `thrown`
  unfoldable pub format_markup_job : Text → MarkupKind → Result MarkupFormatResult
  unfolding pretty_print_markup tokenize_markup
  format_markup_job text kind = do
    lines ← tokenize_markup (pretty_print_markup text kind)
    ok (record { lines = lines; formatted_text = pretty_print_markup text kind })
