-- ===== src/Lib.antt =====
-- protospy's user interface: a model of the TypeScript code under ui/src, with its theorems.
--
-- protospy is a debugging proxy. Its web interface receives a stream of events (one request or
-- response head, a piece of a body, or a failure at a time), folds them into a table of exchanges,
-- and shows that table as a list with an inspector. The parts and the files that model them:
--
-- - bindings/*.ts, the wire format: Wire.antt. JSON values are those of `JsonValue`; a number is kept
--   as the text that `String(value)` gives for it.
-- - The platform (JSON.parse, atob, the text codecs): the record of functions in Runtime.antt. Every
--   theorem holds for all such functions; a thrown exception is `thrown` or `none`.
-- - ui/src/body/sse.ts and sse-stream.ts, the parser of event streams: Sse.antt (`parseSSEBlock`,
--   `parseSSEBody`) and Sse/Stream.antt (`feedChunk`, `applyRetention`).
-- - ui/src/state/types.ts, reducer.ts and store.ts: Store/Types.antt, Store/Reducer.antt (`apply`),
--   Store/Evict.antt (`evict`), Store/State.antt (the actions of the store) and
--   Store/Selectors.antt (the derived lists). A JavaScript `Map` is its entries in the order of
--   insertion (JsMap.antt); the map and the array of ids that the source changes in place are
--   the record `Table`, taken and returned.
-- - ui/src/body/view-modes.ts and split-sizing.ts: Body/ViewModes.antt and Body/SplitSizing.antt.
-- - ui/src/components/json-tree/model.ts, flatten.ts and expand.ts: JsonTree/Model.antt
--   (`buildJsonTree`, `markTruncationPoint`), JsonTree/Values.antt (`nodeToValue`), JsonTree/Rows.antt
--   (`flattenTree`, `flattenForest`), JsonTree/Rows/Quote.antt (`JSON.stringify` on a string,
--   `formatPath`) and JsonTree/Expand.antt (the default expansion). A tree that the source marks in
--   place is returned.
-- - ui/src/body/json-parse-core.ts and json-parse.worker.ts: JsonParse.antt (`parseWithTruncation`,
--   `parseNdjson`), JsonParse/Pretty.antt (`JSON.stringify`) and JsonParse/Worker.antt (`buildJson`,
--   `buildNdjson`). The parser best-effort-json-parser is an argument of these functions.
-- - ui/src/lib/format.ts: Format.antt. ui/src/lib/utils.ts, exchange.ts and tokens.ts:
--   Exchanges/Filter.antt, Exchanges/Status.antt, Exchanges/Headers.antt and Exchanges/Size.antt.
-- - ui/src/lib/tickSource.ts: Ticks.antt. The intervals of the platform are a list of numbers.
-- - ui/src/components/trace-rail.tsx and trace-group.tsx: Traces/Lanes.antt (`packLanes`) and
--   Traces/Groups.antt (`GroupedExchangeList`).
-- - ui/src/body/markup-format-core.ts and markup-format.worker.ts: Markup.antt. The formatters and
--   Prism are the record `MarkupLibraries`.
-- - ui/src/body/decode.ts: Decode/ContentType.antt, Decode/Bytes.antt (`concatenate`, `decompress`),
--   Decode/Outcomes.antt (`DecodeResult`) and Decode/Steps.antt (`decodeBody`). The decompressors and
--   text decoders are the record `Codecs`; the workers are the record `Workers`, which
--   `program_workers` fills with JsonParse/Worker.antt and Markup.antt.
-- - ui/src/components/app-shell.tsx: Shell/Moves.antt (the moves of the selection), Shell/Keys.antt
--   (`onKey`) and Shell/Panels.antt (`getInitialPanelSizes`, for widths in whole pixels).
-- - ui/src/components/json-tree/json-tree-viewer.tsx: Viewer/Forest.antt (`buildForest`,
--   `findNodeById`) and Viewer/State.antt (the state of the viewer and its clicks).
-- - ui/src/body/json-parse.ts: Jobs.antt (`runJob` and the listeners of the worker).
-- - ui/src/lib/hex.ts: Exchanges/Hex.antt; ui/src/lib/connection-toast.ts: Shell/Toasts.antt;
--   ui/src/anthropic/transcript.ts: Sse/Transcript.antt; `chunksToText`: Sse/ChunksText.antt; the
--   colours of traces: Exchanges/TraceColors.antt.
--
-- Strings are lists of UTF-16 code units (`Text`, Prelude/Strings.antt); case mapping is that of
-- ASCII. Names are the source's in snake case. Counts, sizes and times are natural numbers.
--
-- Bounds and fuel: the two loops of `evict` take fuel, the number of ids; a round takes one id away,
-- so it is enough, and the theorems on the caps say that the loops end by their tests. The
-- digits of a number `n` are read off with fuel `n + 1`, which a round divides by ten, or by 16. All other
-- loops are structural.
--
-- Not modelled: what the React components render, and the DOM; the persistence
-- of preferences; the network (EventSource, fetch); the libraries that the interface calls.
pub mod Prelude
pub mod Wire
pub mod Runtime
pub mod Body
pub mod Decode
pub mod Exchanges
pub mod Format
pub mod Jobs
pub mod JsMap
pub mod JsonParse
pub mod JsonTree
pub mod Markup
pub mod Shell
pub mod Sse
pub mod Store
pub mod Tests
pub mod Ticks
pub mod Traces
pub mod Viewer
