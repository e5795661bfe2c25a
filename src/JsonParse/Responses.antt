-- ===== src/JsonParse/Responses.antt =====
-- The responses of ui/src/body/json-parse.worker.ts to documents.
use protospy.Prelude.{◌≡◌, refl, sym, List, [], ◌∷◌}
use protospy.Wire.{Value}
use protospy.Runtime.{ok, ok_injective, thrown_or_ok}
use protospy.JsonParse.{NdjsonParseResult}
use protospy.JsonParse.Worker.{OutMessage, ndjson_response, some_documents}

-- A response without an error is that to one document at least.
pub some_documents_lem :
    (vs : List Value) (r : NdjsonParseResult) (m : OutMessage)
    → some_documents vs r ≡ ok m
    → (first : Value) × (others : List Value) × (vs ≡ first ∷ others) × (m ≡ ndjson_response r)
unfolding some_documents
some_documents_lem [] r m answered = absurd (thrown_or_ok answered)
some_documents_lem (v ∷ vs) r m answered = (v, vs, refl, sym (ok_injective answered))
