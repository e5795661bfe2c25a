-- ===== src/Store/State.antt =====
-- ui/src/state/store.ts: the state of the store and its actions. The fields `exchanges` and `ids`
-- are the record `Table`. An action whose updater throws leaves the state as it was.
use protospy.Prelude.{ℕ, Bool, false, not, Option, none, some, [], Text, ◌==◌, if◌then◌else◌}
use protospy.Wire.{Direction, EventMessage, Protocol}
use protospy.Runtime.{Runtime, ok, thrown}
use protospy.Body.ViewModes.{ViewMode}
use protospy.Store.Types.{BodyState, Exchange}
use protospy.JsMap.{get, set}
use protospy.Store.Reducer.{Table, apply}
use protospy.Store.Evict.{evict}

pub data ConnectionStatus : Type 0 where
  connecting opened reconnecting : ConnectionStatus

pub data Density : Type 0 where
  regular compact : Density

pub data Order : Type 0 where
  newest oldest : Order

pub data ListMode : Type 0 where
  rows table : ListMode

pub data TimeZone : Type 0 where
  local utc : TimeZone

pub record ListWidth : Type 0 where
  pub rows : ℕ
  pub table : ℕ

pub record StoreState : Type 0 where
  pub list_width : ListWidth
  pub density : Density
  pub order : Order
  pub list_mode : ListMode
  pub trace_group_on : Bool
  pub time_zone : TimeZone
  pub table : Table
  pub connection : ConnectionStatus
  pub service : Option Text
  pub protocol : Option Protocol
  pub selected_id : Option ℕ
  pub filter : Text
  pub trace_filter : Option Text
  pub hover_trace_id : Option Text
  pub cmd_k_open : Bool
  pub help_open : Bool
  pub request_view_mode : Option ViewMode
  pub response_view_mode : Option ViewMode

-- the state that `create` starts from, with no stored preferences
unfoldable pub initial_state : StoreState
initial_state = record {
  list_width = record { rows = 290; table = 640 };
  density = regular;
  order = newest;
  list_mode = rows;
  trace_group_on = false;
  time_zone = local;
  table = record { exchanges = []; ids = [] };
  connection = connecting;
  service = none;
  protocol = none;
  selected_id = none;
  filter = [];
  trace_filter = none;
  hover_trace_id = none;
  cmd_k_open = false;
  help_open = false;
  request_view_mode = none;
  response_view_mode = none;
}

-- `applyEvent`
unfoldable pub after_event : Runtime → EventMessage → StoreState → StoreState
after_event rt msg s = elim (apply rt s.table msg) [
  | thrown ↦ s
  | ok t ↦ record s { table = evict t s.selected_id }
]

-- `body.decodedBytes === decodedBytes`
unfoldable pub same_count : Option ℕ → ℕ → Bool
same_count none n = false
same_count (some m) n = m == n

-- the new body, or `none` where the action returns `{}`
unfoldable pub decoded_body : ℕ → Option BodyState → Option BodyState
unfolding same_count
decoded_body n none = none
decoded_body n (some body) =
    if same_count body.decoded_bytes n then none else some (record body { decoded_bytes = some n })

-- the new exchange, or `none` where nothing changes
unfoldable pub decoded_exchange : Direction → ℕ → Exchange → Option Exchange
unfolding decoded_body
decoded_exchange Direction.request n ex = elim (decoded_body n ex.request_body) [
  | none ↦ none
  | some body ↦ some (record ex { request_body = some body })
]
decoded_exchange Direction.response n ex = elim (decoded_body n ex.response_body) [
  | none ↦ none
  | some body ↦ some (record ex { response_body = some body })
]

-- `setBodyDecodedBytes` on the table
unfoldable pub set_decoded : ℕ → Direction → ℕ → Table → Table
unfolding decoded_exchange
set_decoded id direction n t = elim (get id t.exchanges) [
  | none ↦ t
  | some ex ↦ elim (decoded_exchange direction n ex) [
    | none ↦ t
    | some ex' ↦ record t { exchanges = set id ex' t.exchanges }
  ]
]

pub data Action : Type 0 where
  apply_event : EventMessage → Action
  set_body_decoded_bytes : ℕ → Direction → ℕ → Action
  set_connection : ConnectionStatus → Action
  set_service : Text → Action
  set_protocol : Option Protocol → Action
  set_selected_id : Option ℕ → Action
  set_filter : Text → Action
  set_trace_filter : Option Text → Action
  set_hover_trace_id : Option Text → Action
  set_list_mode : ListMode → Action
  set_list_width : ListMode → ℕ → Action
  set_order : Order → Action
  set_density : Density → Action
  toggle_trace_group : Action
  set_cmd_k_open : Bool → Action
  set_help_open : Bool → Action
  set_time_zone : TimeZone → Action
  set_request_view_mode : Option ViewMode → Action
  set_response_view_mode : Option ViewMode → Action

unfoldable pub with_width : ListMode → ℕ → ListWidth → ListWidth
with_width rows width w = record w { rows = width }
with_width table width w = record w { table = width }

-- one action of the store
unfoldable pub dispatch : Runtime → Action → StoreState → StoreState
unfolding after_event set_decoded with_width
dispatch rt (apply_event msg) s = after_event rt msg s
dispatch rt (set_body_decoded_bytes id direction n) s = record s {
  table = set_decoded id direction n s.table;
}
dispatch rt (set_connection status) s = record s { connection = status }
dispatch rt (set_service name) s = record s { service = some name }
dispatch rt (set_protocol protocol) s = record s { protocol = protocol }
dispatch rt (set_selected_id id) s = record s { selected_id = id }
dispatch rt (set_filter filter) s = record s { filter = filter }
dispatch rt (set_trace_filter trace_id) s = record s { trace_filter = trace_id }
dispatch rt (set_hover_trace_id trace_id) s = record s { hover_trace_id = trace_id }
dispatch rt (set_list_mode mode) s = record s { list_mode = mode }
dispatch rt (set_list_width mode width) s = record s {
  list_width = with_width mode width s.list_width;
}
dispatch rt (set_order order) s = record s { order = order }
dispatch rt (set_density density) s = record s { density = density }
dispatch rt toggle_trace_group s = record s { trace_group_on = not s.trace_group_on }
dispatch rt (set_cmd_k_open is_open) s = record s { cmd_k_open = is_open }
dispatch rt (set_help_open is_open) s = record s { help_open = is_open }
dispatch rt (set_time_zone tz) s = record s { time_zone = tz }
dispatch rt (set_request_view_mode mode) s = record s { request_view_mode = mode }
dispatch rt (set_response_view_mode mode) s = record s { response_view_mode = mode }
