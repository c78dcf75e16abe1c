-- ===== src/Proxy/Upstream.antt =====
-- internal/proxy/upstream.go: the request for chats that is sent to the upstream.
pub mod Asking
use shimiaocheng_llm.Prelude.{
  ℕ, Bool, true, false, not, List, [], ◌∷◌, ◌++◌, Option, none, some, Text, text, text_eq, length,
  drop, leb, ◌-◌, if◌then◌else◌,
}
use shimiaocheng_llm.Proxy.Passthrough.{Header, UpstreamRequest, trim_slash, set, del}

-- What `json.Unmarshal` puts into an `interface{}`, as far as the program looks into it, and the
-- entries of a `map[string]interface{}`.
mutual
  pub data Value : Type 0 where
    boolean : Bool → Value
    object : Fields → Value
    other : Text → Value

  pub data Fields : Type 0 where
    no_fields : Fields
    field : Text → Value → Fields → Fields

-- `json.Unmarshal` into such a map, and `json.Marshal` of one; `none` is an error.
pub record MapCodec : Type 0 where
  pub decode : Text → Option Fields
  pub encode : Fields → Option Text

-- `m[key]` and `m[key] = value`.
unfoldable pub value_of : Text → Fields → Option Value
value_of key no_fields = none
value_of key (field k v m) = if text_eq k key then some v else value_of key m

unfoldable pub put_value : Text → Value → Fields → Fields
put_value key value no_fields = field key value no_fields
put_value key value (field k v m) =
    let rest = put_value key value m in if text_eq k key then field k value m else field k v rest

-- `v.(bool)` is true, or false, and `v.(map[string]interface{})` with an empty map for a default.
abbrev pub is_true : Option Value → Bool
is_true (some (boolean b)) = b
is_true _ = false

abbrev pub is_false : Option Value → Bool
is_false (some (boolean b)) = not b
is_false _ = false

abbrev pub fields_or_none : Option Value → Fields
fields_or_none (some (object m)) = m
fields_or_none _ = no_fields

-- The map with `stream_options.include_usage` set.
abbrev pub with_usage : Fields → Fields
with_usage m =
    put_value (text "stream_options")
      (object (
        put_value (text "include_usage") (boolean true)
          (fields_or_none (value_of (text "stream_options") m))))
      m

-- `ensureStreamUsage` on the decoded map.
unfoldable pub asking_body : MapCodec → Text → Fields → Text
unfolding value_of put_value
asking_body c body m =
    if not (is_true (value_of (text "stream") m))
    then body
    else if is_false
        (value_of (text "include_usage") (fields_or_none (value_of (text "stream_options") m)))
    then body
    else elim (c.encode (with_usage m)) [ none ↦ body | some out ↦ out ]

-- `ensureStreamUsage`.
unfoldable pub ensure_stream_usage : MapCodec → Text → Text
unfolding asking_body
ensure_stream_usage c body = elim (c.decode body) [ none ↦ body | some m ↦ asking_body c body m ]

-- `strings.HasSuffix(s, t)`.
unfoldable pub has_suffix : Text → Text → Bool
has_suffix s t =
    if leb (length t) (length s) then text_eq (drop (length s - length t) s) t else false

-- The URL, which ends in /chat/completions.
unfoldable pub chat_url : Text → Text
unfolding has_suffix
chat_url url =
    if has_suffix url (text "/chat/completions")
    then url
    else trim_slash url ++ text "/chat/completions"

-- `BuildUpstreamRequest`; `none` where net/http does not take the URL.
unfoldable pub build_chat_request :
    MapCodec → (builds : Bool) → (url api_key body : Text) → Option UpstreamRequest
unfolding chat_url ensure_stream_usage del
build_chat_request c builds url api_key body =
    if builds
    then some (record {
      method = text "POST";
      url = chat_url url;
      headers = set (text "Accept") (text "application/json") (
          set (text "Authorization") (text "Bearer " ++ api_key)
            (set (text "Content-Type") (text "application/json") []));
      body = some (ensure_stream_usage c body);
    })
    else none
