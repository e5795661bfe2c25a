-- ===== src/Tests.antt =====
-- Runs on concrete inputs: tests of the definitions, and the theorems at inputs that meet their
-- hypotheses.
mod Samples
mod Store
mod Sse
mod Body
mod JsonTree
mod Exchanges
mod JsonParse
mod Ticks
mod Traces
mod Markup
mod Decode
mod Shell
mod Viewer
mod Jobs
