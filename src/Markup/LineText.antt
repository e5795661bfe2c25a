-- ===== src/Markup/LineText.antt =====
-- The text of the lines that ui/src/body/markup-format-core.ts makes of a body.
use protospy.Prelude.{
  ◌≡◌, refl, sym, ap, ◌∙◌, List, [], ◌∷◌, ◌++◌, append_assoc, append-nil, Text, split_on, cons_head,
  ==_iff, Option-cases, none, some, inl, inr, ℕ, ◌==◌, Bool-cases,
}
use protospy.Runtime.{ok, thrown, ok_injective, thrown_or_ok, steps_return}
use protospy.Markup.{
  MarkupToken, MarkupLine, MarkupKind, PrismNode, PrismContent, PrismNodes, plain, token, leaf,
  single, many, no_nodes, node, MarkupLibraries, Lines, push_part, push_parts, push_split,
  push_text, type_or, walk, walk_content, walk_nodes, all_lines, push_line, pretty_print_markup,
  tokenize_markup, MarkupFormatResult, format_markup_job, one_blank_line,
}

-- The text of a line: those of its tokens in turn.
unfoldable pub line_text : MarkupLine → Text
line_text [] = []
line_text (t ∷ line) = t.text ++ line_text line

-- The texts of lines, each but the last with the line end behind it.
unfoldable pub lines_text : List MarkupLine → Text
unfolding line_text
lines_text [] = []
lines_text (line ∷ []) = line_text line
lines_text (line ∷ next ∷ lines) = line_text line ++ b'\n' ∷ lines_text (next ∷ lines)

-- The text that a stream of Prism's tokens stands for.
unfoldable mutual
  pub node_text : PrismNode → Text
  node_text (plain text) = text
  node_text (token type content) = content_text content

  pub content_text : PrismContent → Text
  content_text (leaf text) = text
  content_text (single inner) = node_text inner
  content_text (many children) = nodes_text children

  pub nodes_text : PrismNodes → Text
  nodes_text no_nodes = []
  nodes_text (node child children) = node_text child ++ nodes_text children

-- Each part with the line end before it.
parts_text : List Text → Text
parts_text [] = []
parts_text (part ∷ parts) = b'\n' ∷ part ++ parts_text parts

split_text : List Text → Text
unfolding parts_text
split_text [] = []
split_text (part ∷ parts) = part ++ parts_text parts

line_text-append :
    (line : MarkupLine) (t : MarkupToken) → line_text (line ++ t ∷ []) ≡ line_text line ++ t.text
unfolding line_text
line_text-append [] t = append-nil t.text
line_text-append (s ∷ line) t =
    ap (λ u. s.text ++ u) (line_text-append line t)
    ∙ sym (append_assoc s.text (line_text line) t.text)

-- What one line more brings.
lines_text-append :
    (lines : List MarkupLine) (line next : MarkupLine)
    → lines_text (lines ++ line ∷ next ∷ [])
      ≡ lines_text (lines ++ line ∷ []) ++ b'\n' ∷ line_text next
unfolding lines_text
lines_text-append [] line next = refl
lines_text-append (first ∷ []) line next =
    sym (append_assoc (line_text first) (b'\n' ∷ line_text line) (b'\n' ∷ line_text next))
lines_text-append (first ∷ second ∷ lines) line next =
    ap (λ u. line_text first ++ b'\n' ∷ u) (lines_text-append (second ∷ lines) line next)
    ∙ sym (
        append_assoc (line_text first) (b'\n' ∷ lines_text (second ∷ lines ++ line ∷ []))
          (b'\n' ∷ line_text next))

lines_text-extend :
    (lines : List MarkupLine) (line : MarkupLine) (t : MarkupToken)
    → lines_text (lines ++ (line ++ t ∷ []) ∷ []) ≡ lines_text (lines ++ line ∷ []) ++ t.text
unfolding lines_text
lines_text-extend [] line t = line_text-append line t
lines_text-extend (first ∷ []) line t =
    rw (line_text-append line t)
      (sym (append_assoc (line_text first) (b'\n' ∷ line_text line) t.text))
lines_text-extend (first ∷ second ∷ lines) line t =
    ap (λ u. line_text first ++ b'\n' ∷ u) (lines_text-extend (second ∷ lines) line t)
    ∙ sym (append_assoc (line_text first) (b'\n' ∷ lines_text (second ∷ lines ++ line ∷ [])) t.text)

push_part_lem :
    (type part : Text) (lines : Lines)
    → lines_text (all_lines (push_part type part lines)) ≡ lines_text (all_lines lines) ++ part
unfolding push_part
push_part_lem type [] lines = sym (append-nil (lines_text (all_lines lines)))
push_part_lem type (c ∷ part) lines =
    lines_text-extend lines.before lines.last (record { token_type = type; text = c ∷ part })

push_line_lem :
    (lines : Lines)
    → lines_text (all_lines (push_line lines)) ≡ lines_text (all_lines lines) ++ b'\n' ∷ []
unfolding line_text
push_line_lem lines =
    ap lines_text (append_assoc lines.before (lines.last ∷ []) ([] ∷ []))
    ∙ lines_text-append lines.before lines.last []

push_parts_lem :
    (type : Text) (parts : List Text) (lines : Lines)
    → lines_text (all_lines (push_parts type parts lines))
      ≡ lines_text (all_lines lines) ++ parts_text parts
unfolding push_parts parts_text
push_parts_lem type [] lines = sym (append-nil (lines_text (all_lines lines)))
push_parts_lem type (part ∷ parts) lines =
    push_parts_lem type parts (push_part type part (push_line lines))
    ∙ ap (λ u. u ++ parts_text parts) (push_part_lem type part (push_line lines))
    ∙ ap (λ u. (u ++ part) ++ parts_text parts) (push_line_lem lines)
    ∙ simp (append_assoc)

push_split_lem :
    (type : Text) (parts : List Text) (lines : Lines)
    → lines_text (all_lines (push_split type parts lines))
      ≡ lines_text (all_lines lines) ++ split_text parts
unfolding push_split split_text
push_split_lem type [] lines = sym (append-nil (lines_text (all_lines lines)))
push_split_lem type (part ∷ parts) lines =
    push_parts_lem type parts (push_part type part lines)
    ∙ ap (λ u. u ++ parts_text parts) (push_part_lem type part lines)
    ∙ append_assoc (lines_text (all_lines lines)) part (parts_text parts)

cons_head_text : (c : ℕ) (parts : List Text) → split_text (cons_head c parts) ≡ c ∷ split_text parts
unfolding cons_head split_text parts_text
cons_head_text c [] = refl
cons_head_text c (part ∷ parts) = refl

cons_head_parts :
    (c : ℕ) (parts : List Text)
    → parts_text (cons_head c parts) ≡ b'\n' ∷ split_text (cons_head c parts)
unfolding cons_head split_text parts_text
cons_head_parts c [] = refl
cons_head_parts c (part ∷ parts) = refl

split_on_parts :
    (text : Text) → parts_text (split_on b'\n' text) ≡ b'\n' ∷ split_text (split_on b'\n' text)
unfolding split_on split_text parts_text
split_on_parts [] = refl
split_on_parts (c ∷ text) = elim (Bool-cases (c == b'\n')) [
  | inl same ↦ rw (same) refl
  | inr other ↦ rw (other) (cons_head_parts c (split_on b'\n' text))
]

split_on_text : (text : Text) → split_text (split_on b'\n' text) ≡ text
unfolding split_on split_text parts_text
split_on_text [] = refl
split_on_text (c ∷ text) = elim (Bool-cases (c == b'\n')) [
  | inl same ↦
      rw (same, split_on_parts text, split_on_text text)
        (ap (λ d. d ∷ text) (sym ((==_iff c b'\n').0 same)))
  | inr other ↦ rw (other, cons_head_text c (split_on b'\n' text), split_on_text text) refl
]

push_text_lem :
    (type text : Text) (lines : Lines)
    → lines_text (all_lines (push_text type text lines)) ≡ lines_text (all_lines lines) ++ text
unfolding push_text
push_text_lem type text lines =
    push_split_lem type (split_on b'\n' text) lines
    ∙ ap (λ u. lines_text (all_lines lines) ++ u) (split_on_text text)

mutual
  unfolding walk walk_content walk_nodes node_text content_text nodes_text

  walk_lem :
      (n : PrismNode) (type : Text) (lines : Lines)
      → lines_text (all_lines (walk n type lines)) ≡ lines_text (all_lines lines) ++ node_text n
  walk_lem (plain text) type lines = push_text_lem type text lines
  walk_lem (token type content) inherited lines =
      walk_content_lem content (type_or type inherited) lines

  walk_content_lem :
      (content : PrismContent) (type : Text) (lines : Lines)
      → lines_text (all_lines (walk_content content type lines))
        ≡ lines_text (all_lines lines) ++ content_text content
  walk_content_lem (leaf text) type lines = push_text_lem type text lines
  walk_content_lem (single inner) type lines = walk_lem inner type lines
  walk_content_lem (many children) type lines = walk_nodes_lem children type lines

  walk_nodes_lem :
      (ns : PrismNodes) (type : Text) (lines : Lines)
      → lines_text (all_lines (walk_nodes ns type lines))
        ≡ lines_text (all_lines lines) ++ nodes_text ns
  walk_nodes_lem no_nodes type lines = sym (append-nil (lines_text (all_lines lines)))
  walk_nodes_lem (node child children) type lines =
      walk_nodes_lem children type (walk child type lines)
      ∙ ap (λ u. u ++ nodes_text children) (walk_lem child type lines)
      ∙ append_assoc (lines_text (all_lines lines)) (node_text child) (nodes_text children)

module _ (lib : MarkupLibraries) where
  tokenize_markup_failed :
      (text : Text) → lib.tokenize text ≡ none → tokenize_markup lib text ≡ thrown
  unfolding tokenize_markup
  tokenize_markup_failed text failed = rw (failed, tokenize_markup) refl

  tokenize_markup_found :
      (text : Text) (tokens : PrismNodes)
      → lib.tokenize text ≡ some tokens
      → tokenize_markup lib text ≡ ok (all_lines (walk_nodes tokens [] one_blank_line))
  unfolding tokenize_markup
  tokenize_markup_found text tokens found = rw (found, tokenize_markup) refl

  module _
      (sound : (text : Text) (tokens : PrismNodes)
        → lib.tokenize text ≡ some tokens
        → nodes_text tokens ≡ text) where
    tokenize_markup-lines :
        (text : Text) (lines : List MarkupLine)
        → tokenize_markup lib text ≡ ok lines
        → lines_text lines ≡ text
    unfolding lines_text line_text
    tokenize_markup-lines text lines done = elim (Option-cases (lib.tokenize text)) [
      | inl failed ↦ absurd (thrown_or_ok (sym (tokenize_markup_failed text failed) ∙ done))
      | inr (tokens, found) ↦
          ap lines_text (ok_injective (sym done ∙ tokenize_markup_found text tokens found))
          ∙ walk_nodes_lem tokens [] one_blank_line
          ∙ sound text tokens found
    ]

    -- Where the tokens that Prism returns for a text stand for that text, the lines of a formatted
    -- body, put together with line ends, are the formatted text of the same answer.
    pub format_markup_job-lines :
        (text : Text) (kind : MarkupKind) (r : MarkupFormatResult)
        → format_markup_job lib text kind ≡ ok r
        → lines_text r.lines ≡ r.formatted_text
    unfolding format_markup_job
    format_markup_job-lines text kind r done =
        let formatted = pretty_print_markup lib text kind in
        let (lines, tokenized, same) = steps_return (tokenize_markup lib formatted) _ _ done in
        let lines_same = tokenize_markup-lines formatted lines tokenized in cc
