-- ===== src/Tests/Store.antt =====
-- The reducer, the eviction and the store at concrete inputs.
use protospy.Prelude.{
  ℕ, ◌≤◌, ◌≡◌, refl, ◌⊎◌, none, some, [], ◌∷◌, ◌++◌, codes, length, filter, arith,
}
use mathlib.Core.List.{flatten}
use protospy.Runtime.{ok}
use protospy.Sse.Stream.{
  chunk_to_text, create_sse_stream_state, max_sse_events, feed_chunk, apply_retention,
}
use protospy.JsMap.{get, set}
use protospy.Store.Types.{BodyState, Exchange}
use protospy.Store.Reducer.{Table, seed, get_header, update_exchange, apply}
use protospy.Store.Consistency.{IsConsistent}
use protospy.Store.Evict.{max_exchanges, max_payload_bytes, total_bytes, evict}
use protospy.Store.Evict.Steps.{drop_evictable}
use protospy.Store.Eviction
use protospy.Store.Events.{IsPushedOut, after_event-get_ne}
use protospy.Store.Bodies
use protospy.Store.Bodies.{append_all, Accumulates, last_total}
use protospy.Store.State.{
  StoreState, apply_event, set_selected_id, initial_state, after_event, dispatch,
}
use protospy.Store.Reachable.{start, act, IsSound, Reachable-IsSound}
use protospy.Store.Selectors.{select_visible_ids}
use protospy.Store.Visible.{arranged, is_visible, select_visible_ids_lem}
use protospy.Tests.Samples.{plain_runtime, chunk_event, raw_body, big_table, request_event}

-- The unprotected first exchange goes, and that is enough.
evict_runs : (evict big_table (some 2)).ids ≡ 2 ∷ 3 ∷ []
unfolding evict
evict_runs = refl

abbrev requested : Exchange
requested = record (seed 4 (codes "now") none) {
  method = some (codes "GET");
  uri = some (codes "/a");
  version = some (codes "HTTP/1.1");
  request_headers = some (record { name = codes "Traceparent"; value = codes "00-abc-01" } ∷ []);
  trace_id = some (codes "abc");
}

abbrev grown_table : Table
grown_table = record {
  exchanges = big_table.exchanges ++ (4, requested) ∷ [];
  ids = 1 ∷ 2 ∷ 3 ∷ 4 ∷ [];
}

apply_runs : apply plain_runtime big_table (request_event 4) ≡ ok grown_table
unfolding apply update_exchange get set get_header
apply_runs = refl

big_table-IsConsistent : IsConsistent big_table
big_table-IsConsistent = record { same_ids = refl; distinct = omega arith }

evict-IsConsistent_example : IsConsistent (evict big_table (some 1))
evict-IsConsistent_example = Eviction.evict-IsConsistent big_table (some 1) big_table-IsConsistent

evict_within_caps_example :
    (length (evict big_table (some 1)).ids ≤ max_exchanges)
    × ((total_bytes (evict big_table (some 1)).exchanges (evict big_table (some 1)).ids
          ≤ max_payload_bytes)
        ⊎ (length (evict big_table (some 1)).ids ≤ 1))
evict_within_caps_example = Eviction.evict_within_caps big_table (some 1) big_table-IsConsistent

evict-get_protected_example : get 1 (evict big_table (some 1)).exchanges ≡ get 1 big_table.exchanges
evict-get_protected_example = Eviction.evict-get_protected big_table 1

evict_oldest_first_example :
    (n : ℕ) × ((evict big_table (some 1)).ids ≡ drop_evictable (some 1) n big_table.ids)
evict_oldest_first_example = Eviction.evict_oldest_first big_table (some 1)

-- The selected exchange 1 stays; of the others, 2 is asked for.
abbrev selecting : StoreState
selecting = record initial_state { table = big_table; selected_id = some 1 }

after_event-get_ne_example :
    (get 2 (after_event plain_runtime (request_event 4) selecting).table.exchanges
      ≡ get 2 selecting.table.exchanges)
    ⊎ IsPushedOut plain_runtime (request_event 4) selecting 2
after_event-get_ne_example =
    after_event-get_ne plain_runtime (request_event 4) selecting 2 big_table-IsConsistent
      (omega arith)

append_all-Accumulates_example :
    (end : BodyState) × (append_all plain_runtime raw_body
        (chunk_event (codes "ab") 9 ∷ chunk_event (codes "c") 10 ∷ [])
      ≡ ok end)
    × Accumulates raw_body (chunk_event (codes "ab") 9 ∷ chunk_event (codes "c") 10 ∷ []) end
append_all-Accumulates_example =
    Bodies.append_all-Accumulates plain_runtime
      (chunk_event (codes "ab") 9 ∷ chunk_event (codes "c") 10 ∷ []) raw_body refl

abbrev sse_body : BodyState
sse_body = record raw_body { sse_state = some create_sse_stream_state }

append_all-feed_chunk_example :
    (end : BodyState) × (append_all plain_runtime sse_body
        (chunk_event (codes "data: a\n") 9 ∷ chunk_event (codes "\ndata: b\n\n") 20 ∷ [])
      ≡ ok end)
    × (end.sse_state
        ≡ some (
            apply_retention max_sse_events (
              feed_chunk plain_runtime create_sse_stream_state
                (codes "data: a\n" ++ flatten (codes "\ndata: b\n\n" ∷ [])))))
    × (end.chunks ≡ [])
    × (end.wire_bytes ≡ 20)
unfolding chunk_to_text
append_all-feed_chunk_example =
    Bodies.append_all-feed_chunk plain_runtime
      (chunk_event (codes "data: a\n") 9 ∷ chunk_event (codes "\ndata: b\n\n") 20 ∷ [])
      (codes "data: a\n") (codes "\ndata: b\n\n" ∷ []) sse_body create_sse_stream_state refl refl

abbrev requested_state : StoreState
requested_state = dispatch plain_runtime (apply_event (request_event 4)) initial_state

Reachable-IsSound_example :
    IsSound (dispatch plain_runtime (set_selected_id (some 4)) requested_state).table
Reachable-IsSound_example =
    Reachable-IsSound plain_runtime
      (dispatch plain_runtime (set_selected_id (some 4)) requested_state)
      (act (act (start refl) (apply_event (request_event 4)) refl) (set_selected_id (some 4)) refl)

abbrev listing : StoreState
listing = record initial_state { table = big_table }

select_visible_ids_lem_example :
    select_visible_ids listing
    ≡ arranged listing.order (filter (is_visible listing) (1 ∷ 2 ∷ 3 ∷ []))
select_visible_ids_lem_example = select_visible_ids_lem listing (omega arith)

visible_runs : select_visible_ids listing ≡ 3 ∷ 2 ∷ 1 ∷ []
unfolding select_visible_ids initial_state
visible_runs = refl
