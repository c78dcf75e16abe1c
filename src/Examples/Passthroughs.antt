-- ===== src/Examples/Passthroughs.antt =====
-- Requests to upstreams.
use shimiaocheng_llm.Prelude.{
  Option, Text, ◌⊎◌, subst, ◌≡◌, refl, true, false, [], ◌∷◌, none, some, text, text_eq, text_lt,
  arith, pos, if◌then◌else◌,
}
use shimiaocheng_llm.Float64.{ceil}
use shimiaocheng_llm.Multiplier.{get_effective_multiplier, find_all_enabled}
use shimiaocheng_llm.Quota.{
  atomic_deduct_quota, find, update_where, rows_affected, gate_open, deduct, new_cycle,
  aligned_cycle_start, anchor,
}
use shimiaocheng_llm.Router.{
  ProviderEntry, ProviderTable, resolve_provider, resolve_rules, sort_routing_rules,
  default_provider, provider_of,
}
use shimiaocheng_llm.Proxy.Body.{after_prefix}
use shimiaocheng_llm.Proxy.Exchange.Isolation.{SameRow}
use shimiaocheng_llm.Proxy.Handler.{try_acquire, multiplier_of, get_fixed_multiplier}
use shimiaocheng_llm.Proxy.Passthrough.{
  Header, UpstreamRequest, values, build_upstream_request, is_stripped, auth_lines, copied_headers,
  inject_upstream_auth, copy_response_headers, is_streaming_response, stream_copy, to_lower,
}
use shimiaocheng_llm.Proxy.Passthrough.Headers.{over, last_value, build_upstream_request-headers}
use shimiaocheng_llm.Proxy.Passthrough.Serve.{
  serve_passthrough, serve_slot, serve_body, serve_provider, charge_passthrough, after_charge,
  forward, relay,
}
use shimiaocheng_llm.Proxy.Passthrough.Stages.{
  PassthroughHandler, PassthroughRequest, UpstreamAnswer, Network, answered, relayed, is_enabled,
  read_passthrough_body, has_body, resolve_upstream, allowed_upstream,
}
use shimiaocheng_llm.Proxy.Passthrough.Settle.{PassthroughSpec, charge_passthrough-refines}
use shimiaocheng_llm.Proxy.Passthrough.Gate.{IsForwarded, serve_passthrough-gated}
use shimiaocheng_llm.Proxy.Passthrough.Isolation.{CounterLeft, serve_passthrough-isolates}
use shimiaocheng_llm.Proxy.Upstream.{
  Fields, no_fields, field, boolean, MapCodec, with_usage, ensure_stream_usage,
}
use shimiaocheng_llm.Proxy.Upstream.Asking.{
  ReadsBack, Asks, streams, declines, ensure_stream_usage-Asks,
}
use shimiaocheng_llm.Examples.Data.{decode, now, sample, rows, rows-IsUnique, rows-sample}
use shimiaocheng_llm.Examples.Requests.{
  environment, faults, faults-AllExecute, call, db, http_request, world,
}

abbrev entry : ProviderEntry
entry = record {
  slug = text "z";
  endpoint = text "https://z.example/";
  api_key = text "secret";
  allow_passthrough = true;
  auth_header = [];
  auth_scheme = text "x-api-key";
  extra_headers = (text "Version", text "1") ∷ [];
}

-- The client's key, a header of the connection, and one that is forwarded.
abbrev client_headers : Header
client_headers =
    (text "Authorization", text "Bearer sk-1")
    ∷ (text "Connection", text "close")
    ∷ (text "Accept", text "*/*")
    ∷ []

abbrev sent : UpstreamRequest
sent = record {
  method = text "GET";
  url = text "https://z.example/mcp";
  headers = inject_upstream_auth entry (copied_headers client_headers);
  body = none;
}

sent_built :
    build_upstream_request true
      (text "GET")
      (text "https://z.example/mcp")
      client_headers
      none
      entry
    ≡ some sent
unfolding build_upstream_request
sent_built = refl

build_upstream_request-headers_example :
    values (text "x-api-key") sent.headers
    ≡ over (last_value (text "x-api-key") entry.extra_headers) (
        over
          (last_value (text "x-api-key") (auth_lines entry))
          (if is_stripped (text "x-api-key") then [] else values (text "x-api-key") client_headers))
build_upstream_request-headers_example =
    build_upstream_request-headers (text "GET") (text "https://z.example/mcp") client_headers none
      entry sent (text "x-api-key") sent_built

abbrev upstream_answer : UpstreamAnswer
upstream_answer = record {
  status = 200;
  headers = (text "Content-Type", text "text/event-stream") ∷ [];
  content_length = pos 0;
  steps =
      record { gone = false; bytes = text "data"; writes = true; failed = false }
      ∷ record { gone = true; bytes = text "lost"; writes = true; failed = false }
      ∷ [];
}

abbrev network : Network
network = record { builds = true; send = λ r. answered upstream_answer }

charge_passthrough-refines_example :
    PassthroughSpec environment faults now network call sent db sample
charge_passthrough-refines_example =
    charge_passthrough-refines environment faults now network call sent db sample faults-AllExecute
      rows-IsUnique rows-sample

abbrev table : ProviderTable
table = record { providers = (text "z", entry) ∷ []; mappings = []; rules = []; default = text "z" }

abbrev handler : PassthroughHandler
handler = record {
  quota_checker = true;
  multiplier_eng = true;
  router = some table;
  passthrough_enabled = some true;
}

abbrev request : PassthroughRequest
request = record {
  client = http_request;
  method = text "GET";
  path = text "/v1/passthrough/mcp";
  raw_query = [];
  content_length = pos 0;
  headers = client_headers;
}

serve_passthrough-isolates_example :
    SameRow 8 rows
      (serve_passthrough environment handler faults now network request world).0.db.quotas
    × CounterLeft environment faults now network handler request world
serve_passthrough-isolates_example =
    serve_passthrough-isolates environment faults now network handler request world 8
      (λ e. omega arith)

request_relayed :
    (serve_passthrough environment handler faults now network request world).1
    ≡ relayed 200
        ((text "Content-Type", text "text/event-stream")
          ∷ (text "X-Accel-Buffering", text "no")
          ∷ [])
        (text "data")
unfolding serve_passthrough is_enabled try_acquire serve_slot read_passthrough_body has_body
    serve_body resolve_upstream allowed_upstream resolve_provider resolve_rules sort_routing_rules
    default_provider provider_of serve_provider charge_passthrough after_charge forward relay
    atomic_deduct_quota find update_where rows_affected gate_open deduct new_cycle
    aligned_cycle_start anchor multiplier_of get_fixed_multiplier get_effective_multiplier
    find_all_enabled ceil build_upstream_request copy_response_headers is_streaming_response
    stream_copy text_eq text_lt decode to_lower after_prefix
request_relayed = refl

serve_passthrough-gated_example :
    IsForwarded environment handler faults now network request world 200 (text "data")
serve_passthrough-gated_example =
    serve_passthrough-gated environment handler faults now network request world 200
      ((text "Content-Type", text "text/event-stream") ∷ (text "X-Accel-Buffering", text "no") ∷ [])
      (text "data") request_relayed

-- The body "s" asks for a stream, and "u" for its usage too.
abbrev streaming : Fields
streaming = field (text "stream") (boolean true) no_fields

abbrev map_codec : MapCodec
map_codec = record {
  decode = λ t. if text_eq t (text "u") then some (with_usage streaming) else some streaming;
  encode = λ m. some (text "u");
}

usage-ReadsBack : ReadsBack map_codec (with_usage streaming)
unfolding text_eq
usage-ReadsBack t e = subst (λ t. map_codec.decode t ≡ some (with_usage streaming)) (same e) refl
  where
    same : {a b : Text} → ◌≡◌ {A = Option Text} (some a) (some b) → a ≡ b
    same h = cc

streaming_decoded : map_codec.decode (text "s") ≡ some streaming
unfolding text_eq
streaming_decoded = refl

ensure_stream_usage-Asks_example :
    ((streams streaming ≡ true)
      × (declines streaming ≡ false)
      × ((ensure_stream_usage map_codec (text "s") ≡ text "s")
            × (map_codec.encode (with_usage streaming) ≡ none)
          ⊎ (m' : Fields) × (map_codec.decode (ensure_stream_usage map_codec (text "s")) ≡ some m')
            × Asks streaming m'))
    ⊎ (((streams streaming ≡ false) ⊎ (declines streaming ≡ true))
        × (ensure_stream_usage map_codec (text "s") ≡ text "s"))
ensure_stream_usage-Asks_example =
    ensure_stream_usage-Asks map_codec (text "s") streaming usage-ReadsBack streaming_decoded
