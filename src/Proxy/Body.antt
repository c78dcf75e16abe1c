-- ===== src/Proxy/Body.antt =====
-- The functions of internal/proxy/handler.go on request and response bodies.
pub mod Compact
use shimiaocheng_llm.Prelude.{
  ℕ, zero, suc, ◌-◌, Bool, true, false, not, ◌&&◌, ◌||◌, List, [], ◌∷◌, ◌++◌, Option, none, some,
  Text, text, text_eq, leb, ◌==◌, if◌then◌else◌, lookup, length, drop, keep,
}
use shimiaocheng_llm.TimeUtil.{trim_space}
use shimiaocheng_llm.Proxy.Json.{Json, put, get_or, objects_of, from_objects}

-- The texts that are not empty, of the parts of type text.
texts_of : List (Text × Text) → List Text
texts_of [] = []
texts_of ((type, t) ∷ parts) =
    let rest = texts_of parts in
    if text_eq type (text "text") && not (text_eq t []) then t ∷ rest else rest

-- `strings.Join(texts, "\n")`.
join_lines : List Text → Text
join_lines [] = []
join_lines (t ∷ []) = t
join_lines (t ∷ u ∷ ts) = t ++ 10 ∷ join_lines (u ∷ ts)

-- The string for a content that is an array of parts.
flat_content : Json → Text → Option Text
unfolding texts_of join_lines
flat_content j content = elim (trim_space content) [
  | [] ↦ none
  | c ∷ _ ↦
      if c == b'['
      then elim (j.parts_of content) [
        | none ↦ none
        | some parts ↦ some (j.from_string (join_lines (texts_of parts)))
      ]
      else none
]

flat_message : Json → List (Text × Text) → Option (List (Text × Text))
unfolding flat_content
flat_message j msg = elim (lookup text_eq (text "content") msg) [
  | none ↦ none
  | some content ↦ elim (flat_content j content) [
    | none ↦ none
    | some t ↦ some (put (text "content") t msg)
  ]
]

-- The messages after the loop, and whether one of them changed.
flat_messages : Json → List (List (Text × Text)) → List (List (Text × Text)) × Bool
unfolding flat_message
flat_messages j [] = ([], false)
flat_messages j (m ∷ ms) =
    let (ms', changed) = flat_messages j ms in
    elim (flat_message j m) [ none ↦ (m ∷ ms', changed) | some m' ↦ (m' ∷ ms', true) ]

-- The body with the flattened messages; where their encoding fails, the field is the nil slice.
flat_body : Json → Text → List (Text × Text) → List (List (Text × Text)) × Bool → Text
flat_body j body raw (ms, false) = body
flat_body j body raw (ms, true) =
    let encoded : Option Text = elim (from_objects j ms) [
      | none ↦ none
      | some ts ↦ j.from_array ts
    ] in
    get_or (j.from_object (put (text "messages") (get_or encoded []) raw)) body

-- `normalizeContentArrays`.
unfoldable pub normalize_content_arrays : Json → Text → Text
unfolding flat_messages flat_body
normalize_content_arrays j body = elim (j.object_of body) [
  | none ↦ body
  | some raw ↦ elim (lookup text_eq (text "messages") raw) [
    | none ↦ body
    | some messages ↦ elim (j.array_of messages) [
      | none ↦ body
      | some ts ↦ elim (objects_of j ts) [
        | none ↦ body
        | some ms ↦ flat_body j body raw (flat_messages j ms)
      ]
    ]
  ]
]

-- `rewriteBodyModel`.
unfoldable pub rewrite_body_model : Json → Text → Text → Text
rewrite_body_model j body model = elim (j.object_of body) [
  | none ↦ body
  | some raw ↦ get_or (j.from_object (put (text "model") (j.from_string model) raw)) body
]

-- What follows a prefix.
unfoldable pub after_prefix : Text → Text → Option Text
after_prefix [] s = some s
after_prefix (p ∷ ps) [] = none
after_prefix (p ∷ ps) (c ∷ s) = let rest = after_prefix ps s in if p == c then rest else none

-- `bytes.Replace(body, old, new, 1)` for an `old` that is not empty.
unfoldable pub replace_first : Text → Text → Text → Text
replace_first old new [] = []
replace_first old new (c ∷ s) =
    let rest = replace_first old new s in
    elim (after_prefix old (c ∷ s)) [ none ↦ c ∷ rest | some r ↦ new ++ r ]

-- `"model":"…"`.
abbrev pub model_field : Text → Text
model_field model = b'"' ∷ text "model" ++ b'"' ∷ b':' ∷ b'"' ∷ model ++ b'"' ∷ []

-- `rewriteResponseModel`.
unfoldable pub rewrite_response_model : Json → Text → Text → Text
unfolding replace_first
rewrite_response_model j body model = elim (j.model_of body) [
  | none ↦ body
  | some found ↦
      if text_eq model [] || text_eq found [] || text_eq found model
      then body
      else replace_first (model_field found) (model_field model) body
]

-- The two halves of the messages: those of the system, and the chat history.
unfoldable pub is_system : Json → Text → Bool
is_system j m = elim (j.role_of m) [ none ↦ false | some role ↦ text_eq role (text "system") ]

-- `tryBuild`: the request with the newest messages, as many as given, of the history.
unfoldable pub try_build : Json → List (Text × Text) → (system others : List Text) → ℕ → Option Text
try_build j raw system others keep_n =
    elim (j.from_array (system ++ drop (length others - keep_n) others)) [
      | none ↦ none
      | some messages ↦ j.from_object (put (text "messages") messages raw)
    ]

unfoldable pub fitting : ℕ → Option Text → Option Text
fitting max_body none = none
fitting max_body (some out) = if leb (length out) max_body then some out else none

-- The loop from the given number of messages down to the least.
unfoldable pub first_fit : (ℕ → Option Text) → (max_body min_keep : ℕ) → ℕ → Option Text
first_fit build max_body min_keep zero =
    if leb min_keep 0 then fitting max_body (build zero) else none
first_fit build max_body min_keep (suc k) =
    let rest = first_fit build max_body min_keep k in
    if leb min_keep (suc k)
    then elim (fitting max_body (build (suc k))) [ none ↦ rest | some out ↦ some out ]
    else none

abbrev pub least : List Text → ℕ
least [] = 0
least (o ∷ os) = 1

unfoldable pub compacted : Json → Text → List (Text × Text) → (system others : List Text) → ℕ → Text
unfolding first_fit try_build
compacted j body raw system others max_body =
    get_or (first_fit (try_build j raw system others) max_body (least others) (length others))
      (get_or (try_build j raw system others (least others)) body)

-- `compactMessagesToBudget`.
unfoldable pub compact_messages_to_budget : Json → Text → ℕ → Text
unfolding compacted is_system
compact_messages_to_budget j body max_body =
    if max_body == 0 || leb (length body) max_body then body else elim (j.object_of body) [
      | none ↦ body
      | some raw ↦ elim (lookup text_eq (text "messages") raw) [
        | none ↦ body
        | some messages ↦ elim (j.array_of messages) [
          | none ↦ body
          | some [] ↦ body
          | some (m ∷ ms) ↦
              compacted j body raw (keep (is_system j) (m ∷ ms))
                (keep (λ t. not (is_system j t)) (m ∷ ms)) max_body
        ]
      ]
    ]
