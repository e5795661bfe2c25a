-- ===== src/Shell/Toasts.antt =====
-- ui/src/lib/connection-toast.ts: the toast for a change of the connection.
use protospy.Prelude.{◌≡◌, ◌≢◌, refl, All, Option, none, some, List, [], ◌∷◌, ◌++◌, Text, codes}
use protospy.Store.State.{ConnectionStatus, connecting, opened, reconnecting}

pub data ToastKind : Type 0 where
  success failure : ToastKind

pub record ConnectionToast : Type 0 where
  pub kind : ToastKind
  pub message : Text

abbrev pub connection_lost : ConnectionToast
connection_lost = record { kind = failure; message = codes "Connection lost — reconnecting…" }

abbrev pub reconnected : ConnectionToast
reconnected = record { kind = success; message = codes "Reconnected" }

-- `connectionToast`
unfoldable pub connection_toast :
    Option ConnectionStatus → ConnectionStatus → Option ConnectionToast
connection_toast (some reconnecting) reconnecting = none
connection_toast (some connecting) reconnecting = some connection_lost
connection_toast (some opened) reconnecting = some connection_lost
connection_toast none reconnecting = some connection_lost
connection_toast (some reconnecting) opened = some reconnected
connection_toast (some connecting) opened = none
connection_toast (some opened) opened = none
connection_toast none opened = none
connection_toast previous connecting = none

abbrev toast_list : Option ConnectionToast → List ConnectionToast
toast_list none = []
toast_list (some toast) = toast ∷ []

-- The toasts for a sequence of statuses, each compared with the one before it.
unfoldable toasts : Option ConnectionStatus → List ConnectionStatus → List ConnectionToast
unfolding connection_toast
toasts previous [] = []
toasts previous (next ∷ statuses) =
    toast_list (connection_toast previous next) ++ toasts (some next) statuses

abbrev other : ToastKind → ToastKind
other success = failure
other failure = success

-- The kinds take turns, and the first is the given one.
abbrev TakeTurns : ToastKind → List ConnectionToast → Type 0
TakeTurns kind [] = Unit
TakeTurns kind (toast ∷ rest) = (toast.kind ≡ kind) × TakeTurns (other kind) rest

-- The kind of the next toast to come.
abbrev next_kind : Option ConnectionStatus → ToastKind
next_kind (some reconnecting) = success
next_kind (some connecting) = failure
next_kind (some opened) = failure
next_kind none = failure

-- Where the connection never goes back to its first status, the toasts tell of its loss and of its
-- recovery in turn, however often a status is repeated.
toasts-TakeTurns :
    (previous : Option ConnectionStatus) (statuses : List ConnectionStatus)
    → All (λ status. status ≢ connecting) statuses
    → TakeTurns (next_kind previous) (toasts previous statuses)
unfolding toasts connection_toast
toasts-TakeTurns previous [] later = tt
toasts-TakeTurns previous (connecting ∷ statuses) later = elim (later.0 refl) [ ]
toasts-TakeTurns (some reconnecting) (reconnecting ∷ statuses) later =
    toasts-TakeTurns (some reconnecting) statuses later.1
toasts-TakeTurns (some connecting) (reconnecting ∷ statuses) later =
    (refl, toasts-TakeTurns (some reconnecting) statuses later.1)
toasts-TakeTurns (some opened) (reconnecting ∷ statuses) later =
    (refl, toasts-TakeTurns (some reconnecting) statuses later.1)
toasts-TakeTurns none (reconnecting ∷ statuses) later =
    (refl, toasts-TakeTurns (some reconnecting) statuses later.1)
toasts-TakeTurns (some reconnecting) (opened ∷ statuses) later =
    (refl, toasts-TakeTurns (some opened) statuses later.1)
toasts-TakeTurns (some connecting) (opened ∷ statuses) later =
    toasts-TakeTurns (some opened) statuses later.1
toasts-TakeTurns (some opened) (opened ∷ statuses) later =
    toasts-TakeTurns (some opened) statuses later.1
toasts-TakeTurns none (opened ∷ statuses) later = toasts-TakeTurns (some opened) statuses later.1
