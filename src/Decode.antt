-- ===== src/Decode.antt =====
-- ui/src/body/decode.ts: what the panes show of a body, from its chunks and headers.
pub mod ContentType
pub mod Bytes
pub mod Outcomes
pub mod Steps
pub mod Copying
pub mod Branches
pub mod Results
pub mod Errors
pub mod Contract
pub mod Described
