-- ===== src/Tests/Markup.antt =====
-- Formatted markup at concrete inputs.
use protospy.Prelude.{◌≡◌, refl, subst, Option, none, some, [], ◌∷◌, ◌++◌, append-nil, Text, codes}
use protospy.Runtime.{ok}
use protospy.Markup.{
  MarkupKind, MarkupLibraries, MarkupFormatResult, PrismNodes, token, leaf, no_nodes, node,
  format_markup_job,
}
use protospy.Markup.LineText.{lines_text, nodes_text, format_markup_job-lines}

-- The formatter of XML throws, that of HTML appends a line, and a text is one tag.
abbrev one_tag : MarkupLibraries
one_tag = record {
  xml_format = λ t. none;
  beautify_html = λ t. some (t ++ codes "\n<hr>");
  tokenize = λ t. some (node (token (codes "tag") (leaf t)) no_nodes);
}

-- the text of the tokens of an answer, if there is one
abbrev text_of_answer : Option PrismNodes → Text
text_of_answer none = []
text_of_answer (some tokens) = nodes_text tokens

one_tag_sound :
    (text : Text) (tokens : PrismNodes)
    → one_tag.tokenize text ≡ some tokens
    → nodes_text tokens ≡ text
unfolding nodes_text
one_tag_sound text tokens found = subst (λ o. text_of_answer o ≡ text) found (append-nil text)

abbrev two_lines : MarkupFormatResult
two_lines = record {
  lines =
      (record { token_type = codes "tag"; text = codes "<p>" } ∷ [])
      ∷ (record { token_type = codes "tag"; text = codes "<hr>" } ∷ [])
      ∷ [];
  formatted_text = codes "<p>\n<hr>";
}

two_lines_formatted : format_markup_job one_tag (codes "<p>") MarkupKind.html ≡ ok two_lines
unfolding format_markup_job
two_lines_formatted = refl

format_markup_job-lines_example : lines_text two_lines.lines ≡ two_lines.formatted_text
format_markup_job-lines_example =
    format_markup_job-lines one_tag one_tag_sound (codes "<p>") MarkupKind.html two_lines
      two_lines_formatted
