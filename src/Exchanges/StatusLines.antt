-- ===== src/Exchanges/StatusLines.antt =====
-- The classifications of a status against each other.
use protospy.Prelude.{
  ℕ, zero, suc, ◌+◌, ◌-◌, ◌*◌, ◌/◌, ◌%◌, ◌<◌, ◌≤◌, ◌≡◌, refl, ap, ◌∙◌, Bool, true, false, Option,
  none, some, List, [], ◌∷◌, ◌++◌, append_assoc, append-nil, All, All-append, cons_head, Text,
  is_space, split_on, first_part, ltb, ◌==◌, Bool-cases, inl, inr, arith, ltb→lt,
}
use protospy.JsonTree.Values.{is_digit}
use protospy.JsonTree.Rows.Quote.{decimal, decimal_digits}
use protospy.Exchanges.Status.{
  Code, plus, read_digits, starts_with_digit, parse_int, at_least, StatusKind, kind_of_code,
  status_kind, StatusClass, class_of_code, status_class, number_class, reason_suffix,
  status_code_only,
}

is_digit-of : (d : ℕ) → d < 10 → is_digit (b'0' + d) ≡ true
unfolding is_digit
is_digit-of d h = ground arith

read_digits-digit :
    (n d : ℕ) (rest : Text)
    → d < 10
    → read_digits n ((b'0' + d) ∷ rest) ≡ read_digits (n * 10 + d) rest
unfolding read_digits
read_digits-digit n d rest h =
    let same : b'0' + d - b'0' ≡ d = omega arith in rw (is_digit-of d h, same) refl

less_tenth : (n fuel : ℕ) → 10 ≤ n → n < suc fuel → n / 10 < fuel
less_tenth n fuel large h = omega arith

read_digits-decimal_digits :
    (fuel n : ℕ) (rest : Text)
    → n < fuel
    → read_digits 0 (decimal_digits fuel n ++ rest) ≡ read_digits n rest
unfolding decimal_digits read_digits
read_digits-decimal_digits zero n rest h = ground arith
read_digits-decimal_digits (suc fuel) n rest h = elim (Bool-cases (ltb n 10)) [
  | inl small ↦
      rw small (
        read_digits-digit 0 n rest (ltb→lt n 10 small) ∙ ap (λ m. read_digits m rest) (omega arith))
  | inr large ↦
      let high = decimal_digits fuel (n / 10) in
      let low : Text = (b'0' + n % 10) ∷ [] in
      rw large (
        ap (read_digits 0) (append_assoc high low rest)
        ∙ read_digits-decimal_digits fuel (n / 10) (low ++ rest)
            (less_tenth n fuel (ground arith) h)
        ∙ read_digits-digit (n / 10) (n % 10) rest (omega arith)
        ∙ ap (λ m. read_digits m rest) (omega arith))
]

-- A decimal begins with a digit.
starts_with_digit-decimal_digits :
    (fuel n : ℕ) (rest : Text) → n < fuel → starts_with_digit (decimal_digits fuel n ++ rest) ≡ true
unfolding decimal_digits starts_with_digit
starts_with_digit-decimal_digits zero n rest h = ground arith
starts_with_digit-decimal_digits (suc fuel) n rest h = elim (Bool-cases (ltb n 10)) [
  | inl small ↦ rw small (is_digit-of n (ltb→lt n 10 small))
  | inr large ↦
      let high = decimal_digits fuel (n / 10) in
      let low : Text = (b'0' + n % 10) ∷ [] in
      rw large (
        ap starts_with_digit (append_assoc high low rest)
        ∙ starts_with_digit-decimal_digits fuel (n / 10) (low ++ rest)
            (less_tenth n fuel (ground arith) h))
]

digit_not_space : (c : ℕ) → is_digit c ≡ true → is_space c ≡ false
unfolding is_digit is_space
digit_not_space c h = ground arith

digit_not_minus : (c : ℕ) → is_digit c ≡ true → c == b'-' ≡ false
unfolding is_digit
digit_not_minus c h = ground arith

digit_not_plus : (c : ℕ) → is_digit c ≡ true → c == b'+' ≡ false
unfolding is_digit
digit_not_plus c h = ground arith

parse_int_digits :
    (s : Text) → starts_with_digit s ≡ true → parse_int s ≡ some (plus (read_digits 0 s))
unfolding parse_int starts_with_digit
parse_int_digits [] h = cc
parse_int_digits (c ∷ s) h =
    rw (digit_not_space c h, digit_not_minus c h, digit_not_plus c h, h) refl

read_digits_stops : (n : ℕ) (s : Text) → starts_with_digit s ≡ false → read_digits n s ≡ n
unfolding read_digits starts_with_digit
read_digits_stops n [] h = refl
read_digits_stops n (c ∷ s) h = rw h refl

-- Parsing a decimal that no digit follows gives its number.
parse_int-decimal :
    (n : ℕ) (rest : Text)
    → starts_with_digit rest ≡ false
    → parse_int (decimal n ++ rest) ≡ some (plus n)
unfolding decimal
parse_int-decimal n rest h =
    parse_int_digits (decimal_digits (suc n) n ++ rest)
      (starts_with_digit-decimal_digits (suc n) n rest (omega arith))
    ∙ ap (λ m. some (plus m))
        (read_digits-decimal_digits (suc n) n rest (omega arith) ∙ read_digits_stops n rest h)

reason_suffix_no_digit : (reason : Option Text) → starts_with_digit (reason_suffix reason) ≡ false
unfolding starts_with_digit reason_suffix is_digit
reason_suffix_no_digit none = refl
reason_suffix_no_digit (some reason) = refl

-- The text of a status: its code in decimal, and a reason or none.
abbrev pub line_of : ℕ → Option Text → Text
line_of status reason = decimal status ++ reason_suffix reason

abbrev pub NoSpaces : Text → Type 0
NoSpaces s = All (λ c. c == b' ' ≡ false) s

decimal_digits-NoSpaces : (fuel n : ℕ) → NoSpaces (decimal_digits fuel n)
unfolding decimal_digits
decimal_digits-NoSpaces zero n = tt
decimal_digits-NoSpaces (suc fuel) n = elim (Bool-cases (ltb n 10)) [
  | inl small ↦ rw small (ground arith, tt)
  | inr large ↦ rw large (
      All-append (λ c. c == b' ' ≡ false) (decimal_digits fuel (n / 10)) _
        (decimal_digits-NoSpaces fuel (n / 10)) (ground arith, tt))
]

first_part-cons_head :
    (a : ℕ) (parts : List Text) → first_part (cons_head a parts) ≡ a ∷ first_part parts
unfolding first_part cons_head
first_part-cons_head a [] = refl
first_part-cons_head a (p ∷ ps) = refl

status_code_only-append :
    (s rest : Text) → NoSpaces s → status_code_only (s ++ rest) ≡ s ++ status_code_only rest
unfolding status_code_only
status_code_only-append [] rest h = refl
status_code_only-append (c ∷ s) rest h =
    rw (h.0, first_part-cons_head c (split_on b' ' (s ++ rest)))
      (ap (◌∷◌ c) (status_code_only-append s rest h.1))

status_code_only-reason_suffix :
    (reason : Option Text) → status_code_only (reason_suffix reason) ≡ []
unfolding status_code_only reason_suffix
status_code_only-reason_suffix none = refl
status_code_only-reason_suffix (some reason) = refl

line_kind :
    (status : ℕ) (reason : Option Text) (has_error : Bool)
    → status_kind (some (line_of status reason)) has_error ≡ number_class (some status) has_error
unfolding status_kind number_class kind_of_code
line_kind status reason true = refl
line_kind status reason false =
    rw (parse_int-decimal status (reason_suffix reason) (reason_suffix_no_digit reason)) refl

line_code :
    (status : ℕ) (reason : Option Text) → status_code_only (line_of status reason) ≡ decimal status
unfolding decimal
line_code status reason =
    status_code_only-append (decimal_digits (suc status) status) (reason_suffix reason)
      (decimal_digits-NoSpaces (suc status) status)
    ∙ ap (λ s. decimal_digits (suc status) status ++ s) (status_code_only-reason_suffix reason)
    ∙ append-nil (decimal_digits (suc status) status)

-- A status line is classified by its text as its code is classified by its number, and the code
-- that is cut from the line is that number in decimal.
pub status_kind-line_of :
    (status : ℕ) (reason : Option Text) (has_error : Bool)
    → (status_kind (some (line_of status reason)) has_error ≡ number_class (some status) has_error)
      × (status_code_only (line_of status reason) ≡ decimal status)
status_kind-line_of status reason has_error =
    (line_kind status reason has_error, line_code status reason)

-- The names of one classification in the other.
abbrev pub class_of : StatusKind → StatusClass
class_of StatusKind.ok = StatusClass.ok
class_of StatusKind.redirect = StatusClass.redir
class_of StatusKind.client = StatusClass.cli
class_of StatusKind.server = StatusClass.srv
class_of StatusKind.pending = StatusClass.pending
class_of StatusKind.error = StatusClass.err

class_of_code-kind_of_code :
    (code : Option Code) → class_of_code code ≡ class_of (kind_of_code code)
unfolding class_of_code kind_of_code
class_of_code-kind_of_code none = refl
class_of_code-kind_of_code (some code) =
    ground (arith, at_least 500 code, at_least 400 code, at_least 300 code)

-- The two classifications of a status text are one, but for their names.
pub status_class-status_kind :
    (status : Option Text) → status_class status ≡ class_of (status_kind status false)
unfolding status_class status_kind
status_class-status_kind none = refl
status_class-status_kind (some status) = class_of_code-kind_of_code (parse_int status)
