-- ===== src/Wire.antt =====
-- The wire format: the TypeScript bindings of the proxy's events (bindings/*.ts), and the values
-- that `JSON.parse` returns. A number is kept as the text that `String(value)` gives for it; byte
-- counts, ids and times are natural numbers.
use protospy.Prelude.{ℕ, Bool, List, Option, Text}

-- `JsonValue` (ui/src/components/json-tree/model.ts); the entries of an object stand in the order
-- of `Object.entries`.
mutual
  pub data Value : Type 0 where
    null : Value
    bool : Bool → Value
    num : Text → Value
    str : Text → Value
    arr : Items → Value
    obj : Entries → Value

  pub data Items : Type 0 where
    nil : Items
    cons : Value → Items → Items

  pub data Entries : Type 0 where
    end : Entries
    entry : Text → Value → Entries → Entries

pub data BodyChunk : Type 0 where
  text : Text → BodyChunk
  binary : Text → BodyChunk

pub record BodyContent : Type 0 where
  pub offset : ℕ
  pub length : ℕ
  pub payload : BodyChunk

pub record Header : Type 0 where
  pub name : Text
  pub value : Text

abbrev pub ProxyHeaders : Type 0
ProxyHeaders = List Header

pub record BodyData : Type 0 where
  pub content : Option BodyContent
  pub trailers : Option ProxyHeaders
  pub at_end : Bool
  pub total_bytes : ℕ

pub data InitialBody : Type 0 where
  no_body : InitialBody
  not_read : InitialBody
  full : BodyData → InitialBody

pub data Direction : Type 0 where
  request response : Direction

pub data Event : Type 0 where
  request : (method uri version : Text) → ProxyHeaders → InitialBody → Event
  response : (status version : Text) → ProxyHeaders → (elapsed_ms : ℕ) → InitialBody → Event
  body_data : BodyData → Event
  error : Direction → (message : Text) → Event
  -- a `type` that the user interface does not know
  unknown : Event

pub record ExchangeMeta : Type 0 where
  pub exchange_id : ℕ
  pub timestamp : Text

pub record EventMessage : Type 0 where
  pub exchange : ExchangeMeta
  pub direction : Direction
  pub event : Event

pub data Protocol : Type 0 where
  elasticsearch opensearch anthropic : Protocol
