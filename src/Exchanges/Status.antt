-- ===== src/Exchanges/Status.antt =====
-- How a status is classified: `statusClass`, `statusTextClass` and `statusChipClass` of
-- ui/src/lib/utils.ts, `statusKind` and `statusCodeOnly` of ui/src/lib/exchange.ts, and the
-- number-based `statusClass` and `statusLine` of ui/src/lib/tokens.ts.
use protospy.Prelude.{
  ℕ, ◌+◌, ◌-◌, ◌*◌, Bool, true, false, not, ◌&&◌, Option, none, some, List, [], ◌∷◌, ◌++◌, Text,
  codes, trim_start, split_on, first_part, leb, ◌==◌, if◌then◌else◌,
}
use protospy.JsMap.{get}
use protospy.JsonTree.Values.{is_digit}
use protospy.JsonTree.Rows.Quote.{decimal}

-- an integer, as `parseInt` returns it
pub data Code : Type 0 where
  plus minus : ℕ → Code

unfoldable pub read_digits : ℕ → Text → ℕ
unfolding is_digit
read_digits n [] = n
read_digits n (c ∷ s) = if is_digit c then read_digits (n * 10 + (c - b'0')) s else n

unfoldable pub starts_with_digit : Text → Bool
unfolding is_digit
starts_with_digit [] = false
starts_with_digit (c ∷ s) = is_digit c

-- the digits at the front, `none` for NaN
unfoldable pub read_number : (ℕ → Code) → Text → Option Code
unfolding read_digits starts_with_digit
read_number sign s = if starts_with_digit s then some (sign (read_digits 0 s)) else none

unfoldable pub read_signed : Text → Option Code
unfolding read_number
read_signed [] = none
read_signed (c ∷ s) =
    if c == b'-'
    then read_number minus s
    else if c == b'+'
    then read_number plus s
    else read_number plus (c ∷ s)

-- `parseInt(s, 10)`
unfoldable pub parse_int : Text → Option Code
unfolding trim_start read_signed
parse_int s = read_signed (trim_start s)

-- `code >= bound` for a positive bound
unfoldable pub at_least : ℕ → Code → Bool
at_least bound (plus n) = leb bound n
at_least bound (minus n) = false

-- `StatusKind`
pub data StatusKind : Type 0 where
  ok redirect client server pending error : StatusKind

unfoldable pub kind_of_code : Option Code → StatusKind
unfolding at_least
kind_of_code none = error
kind_of_code (some code) =
    if at_least 500 code
    then server
    else if at_least 400 code
    then client
    else if at_least 300 code
    then redirect
    else ok

-- `statusKind`
unfoldable pub status_kind : Option Text → Bool → StatusKind
unfolding kind_of_code parse_int
status_kind status true = error
status_kind none false = pending
status_kind (some status) false = kind_of_code (parse_int status)

-- `statusCodeOnly`
unfoldable pub status_code_only : Text → Text
unfolding split_on first_part
status_code_only status = first_part (split_on b' ' status)

-- the results of `statusClass` in utils.ts
pub data StatusClass : Type 0 where
  ok redir cli srv pending err : StatusClass

unfoldable pub class_of_code : Option Code → StatusClass
unfolding at_least
class_of_code none = StatusClass.err
class_of_code (some code) =
    if at_least 500 code
    then StatusClass.srv
    else if at_least 400 code
    then StatusClass.cli
    else if at_least 300 code
    then StatusClass.redir
    else StatusClass.ok

-- `statusClass` of utils.ts
unfoldable pub status_class : Option Text → StatusClass
unfolding class_of_code parse_int
status_class none = StatusClass.pending
status_class (some status) = class_of_code (parse_int status)

unfoldable pub within_codes : ℕ → ℕ → Option Code → Bool
unfolding at_least
within_codes low high none = false
within_codes low high (some code) = at_least low code && not (at_least high code)

unfoldable pub status_text_class : Text → Text
unfolding within_codes parse_int
status_text_class status =
    if within_codes 200 300 (parse_int status)
    then codes "text-ok"
    else if within_codes 300 400 (parse_int status)
    then codes "text-redirect"
    else codes "text-error"

unfoldable pub status_chip_class : Text → Text
unfolding within_codes parse_int
status_chip_class status =
    if within_codes 200 300 (parse_int status)
    then codes "border-ok text-ok"
    else if within_codes 300 400 (parse_int status)
    then codes "border-redirect text-redirect"
    else codes "border-error text-error"

-- `statusClass` of tokens.ts
unfoldable pub number_class : Option ℕ → Bool → StatusKind
number_class status true = error
number_class none false = pending
number_class (some status) false =
    if leb 500 status
    then server
    else if leb 400 status
    then client
    else if leb 300 status
    then redirect
    else ok

abbrev pub status_reason : List (ℕ × Text)
status_reason =
    (200, codes "OK")
    ∷ (201, codes "Created")
    ∷ (202, codes "Accepted")
    ∷ (204, codes "No Content")
    ∷ (301, codes "Moved Permanently")
    ∷ (302, codes "Found")
    ∷ (304, codes "Not Modified")
    ∷ (400, codes "Bad Request")
    ∷ (401, codes "Unauthorized")
    ∷ (403, codes "Forbidden")
    ∷ (404, codes "Not Found")
    ∷ (409, codes "Conflict")
    ∷ (422, codes "Unprocessable Entity")
    ∷ (429, codes "Too Many Requests")
    ∷ (500, codes "Internal Server Error")
    ∷ (502, codes "Bad Gateway")
    ∷ (503, codes "Service Unavailable")
    ∷ (504, codes "Gateway Timeout")
    ∷ []

-- the reason behind the code
unfoldable pub reason_suffix : Option Text → Text
reason_suffix none = []
reason_suffix (some reason) = b' ' ∷ reason

unfoldable pub status_line : Option ℕ → Option Text
unfolding get reason_suffix decimal
status_line none = none
status_line (some status) = some (decimal status ++ reason_suffix (get status status_reason))
