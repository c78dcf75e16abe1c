-- ===== src/Proxy/Passthrough.antt =====
-- internal/proxy/passthrough_request.go, and methodPathModel, providerEntryFromRouter and
-- isStreamingResponse of internal/proxy/passthrough.go: the request that is sent to the upstream and
-- what is forwarded of its answer. An http.Header is the list of its lines, the values of a name in
-- their order; names are compared without case, as their canonical forms are.
pub mod Headers
pub mod Stages
pub mod Serve
pub mod Gate
pub mod Settle
pub mod Isolation
use shimiaocheng_llm.Prelude.{
  ℕ, ◌+◌, Bool, true, false, not, ◌&&◌, ◌||◌, List, [], ◌∷◌, ◌++◌, Option, none, some, Text, text,
  text_eq, leb, ◌==◌, if◌then◌else◌, map, keep, any, ℤ, pos, ◌<ℤ◌, or_default,
}
use shimiaocheng_llm.Router.{Provider, ProviderEntry}
use shimiaocheng_llm.Proxy.Body.{after_prefix}
use shimiaocheng_llm.Proxy.Exchange.{contains}

abbrev pub Header : Type 0
Header = List (Text × Text)

abbrev lower_char : ℕ → ℕ
lower_char c = if leb b'A' c && leb c b'Z' then c + 32 else c

-- `strings.ToLower` on a name, which is ASCII.
unfoldable pub to_lower : Text → Text
to_lower [] = []
to_lower (c ∷ s) = lower_char c ∷ to_lower s

abbrev pub same_name : Text → Text → Bool
same_name a b = text_eq (to_lower a) (to_lower b)

-- `h.Values(k)`.
unfoldable pub values : Text → Header → List Text
values k [] = []
values k ((j, v) ∷ h) = let rest = values k h in if same_name j k then v ∷ rest else rest

-- `h.Get(k)`.
unfoldable pub get : Text → Header → Text
unfolding values
get k h = elim (values k h) [ [] ↦ [] | v ∷ vs ↦ v ]

-- `h.Del(k)` and `h.Set(k, v)`.
unfoldable pub del : Text → Header → Header
del k [] = []
del k ((j, v) ∷ h) = let rest = del k h in if same_name j k then rest else (j, v) ∷ rest

abbrev pub set : Text → Text → Header → Header
set k v h = del k h ++ (k, v) ∷ []

-- `strings.TrimSuffix(endpoint, "/")`.
unfoldable pub trim_slash : Text → Text
trim_slash [] = []
trim_slash (c ∷ []) = if c == b'/' then [] else c ∷ []
trim_slash (c ∷ d ∷ s) = c ∷ trim_slash (d ∷ s)

-- `buildPassthroughTarget`.
unfoldable pub build_passthrough_target : Text → Text → Text → Text
unfolding trim_slash
build_passthrough_target endpoint sub_path [] = trim_slash endpoint ++ sub_path
build_passthrough_target endpoint sub_path (c ∷ q) = trim_slash endpoint ++ sub_path ++ b'?' ∷ c ∷ q

abbrev pub hop_by_hop : List Text
hop_by_hop =
    text "connection"
    ∷ text "keep-alive"
    ∷ text "proxy-authenticate"
    ∷ text "proxy-authorization"
    ∷ text "te"
    ∷ text "trailers"
    ∷ text "transfer-encoding"
    ∷ text "upgrade"
    ∷ []

-- `isHopByHop`.
unfoldable pub is_hop_by_hop : Text → Bool
is_hop_by_hop key = any (text_eq (to_lower key)) hop_by_hop

abbrev pub client_auth : List Text
client_auth =
    text "host" ∷ text "authorization" ∷ text "x-api-key" ∷ text "proxy-authorization" ∷ []

-- The client's headers that are left out.
unfoldable pub is_stripped : Text → Bool
unfolding is_hop_by_hop
is_stripped key = any (text_eq (to_lower key)) client_auth || is_hop_by_hop key

-- The copy of the client's headers.
unfoldable pub copied_headers : Header → Header
unfolding is_stripped
copied_headers [] = []
copied_headers ((k, v) ∷ h) =
    let rest = copied_headers h in if is_stripped k then rest else (k, v) ∷ rest

-- The line that the scheme sets; `none` sets one only where a header is configured, and a scheme
-- that is not known is `bearer`.
unfoldable pub auth_lines : ProviderEntry → List (Text × Text)
auth_lines prov =
    let scheme = or_default prov.auth_scheme (text "bearer") in
    if text_eq scheme (text "x-api-key")
    then (or_default prov.auth_header (text "X-Api-Key"), prov.api_key) ∷ []
    else if text_eq scheme (text "none")
    then elim prov.auth_header [ [] ↦ [] | c ∷ s ↦ (c ∷ s, prov.api_key) ∷ [] ]
    else (or_default prov.auth_header (text "Authorization"), text "Bearer " ++ prov.api_key) ∷ []

unfoldable pub set_all : List (Text × Text) → Header → Header
unfolding del
set_all [] h = h
set_all ((k, v) ∷ extra) h = set_all extra (set k v h)

-- `injectUpstreamAuth`; the extra headers come in the order in which the map is ranged over.
unfoldable pub inject_upstream_auth : ProviderEntry → Header → Header
unfolding auth_lines set_all
inject_upstream_auth prov h = set_all prov.extra_headers (set_all (auth_lines prov) h)

pub record UpstreamRequest : Type 0 where
  pub method : Text
  pub url : Text
  pub headers : Header
  pub body : Option Text

-- `buildUpstreamRequest`; `none` where net/http does not take the method or the URL. The body is
-- `none` where the request has none.
unfoldable pub build_upstream_request :
    (builds : Bool)
    → (method url : Text) → Header
    → Option Text
    → ProviderEntry
    → Option UpstreamRequest
unfolding copied_headers inject_upstream_auth
build_upstream_request builds method url h body prov =
    if builds
    then some (record {
      method = method;
      url = url;
      headers = inject_upstream_auth prov (copied_headers h);
      body = body;
    })
    else none

unfoldable pub forwarded_headers : Header → Header
unfolding is_hop_by_hop
forwarded_headers [] = []
forwarded_headers ((k, v) ∷ h) =
    let rest = forwarded_headers h in if is_hop_by_hop k then rest else (k, v) ∷ rest

-- `copyResponseHeaders` onto what the client's response has already.
unfoldable pub copy_response_headers : Header → Header → (is_stream : Bool) → Header
unfolding forwarded_headers del
copy_response_headers dst src is_stream =
    let all = dst ++ forwarded_headers src in
    if is_stream
    then set (text "X-Accel-Buffering") (text "no") (del (text "Content-Length") all)
    else all

-- One turn of the copy: whether the client has left, the bytes that were read, whether they can be
-- written, and whether the read failed. After the last one the body ends.
pub record ReadStep : Type 0 where
  pub gone : Bool
  pub bytes : Text
  pub writes : Bool
  pub failed : Bool

-- `streamCopy`: what the client has got, and whether the copy came to the end of the body.
unfoldable pub stream_copy : List ReadStep → Text × Bool
stream_copy [] = ([], true)
stream_copy (r ∷ rs) =
    let (out, ended) = stream_copy rs in
    if r.gone
    then ([], false)
    else if not (text_eq r.bytes []) && not r.writes
    then ([], false)
    else if r.failed
    then (r.bytes, false)
    else (r.bytes ++ out, ended)

-- `isStreamingResponse` on the headers and the length, which is negative where none is given.
unfoldable pub is_streaming_response : Header → ℤ → Bool
unfolding contains get
is_streaming_response h content_length =
    let ct = get (text "Content-Type") h in
    contains (text "text/event-stream") ct
    || contains (text "application/stream") ct
    || contains (text "application/x-ndjson") ct
    || contains (text "chunked") (to_lower (get (text "Transfer-Encoding") h))
    || content_length <ℤ pos 0

-- `methodPathModel`.
unfoldable pub method_path_model : Text → Text → Text
method_path_model method [] = method
method_path_model method (c ∷ s) = method ++ b' ' ∷ c ∷ s

-- `providerEntryFromRouter`.
unfoldable pub provider_entry_from_router : Provider → ProviderEntry
provider_entry_from_router p = record {
  slug = p.id;
  endpoint = p.endpoint;
  api_key = p.api_key;
  allow_passthrough = p.allow_passthrough;
  auth_header = p.auth_header;
  auth_scheme = p.auth_scheme;
  extra_headers = p.extra_headers;
}
