-- ===== src/Proxy/Upstream/Asking.antt =====
-- upstream.go: the usage that a stream is asked for, and the URL.
use shimiaocheng_llm.Prelude.{
  ◌-◌, ◌≡◌, ◌⊎◌, refl, ap, sym, ◌∙◌, subst, inl, inr, Bool, true, false, ◌++◌, none, some,
  Option-cases, Text, text, text_eq, text_eq_refl, eq_of_text_eq, length, length-append, drop,
  drop-append, leb, if◌then◌else◌, Bool-cases, arith,
}
use shimiaocheng_llm.Proxy.Passthrough.{trim_slash}
use shimiaocheng_llm.Proxy.Upstream.{
  Value, boolean, object, Fields, no_fields, field, MapCodec, value_of, put_value, is_true,
  is_false, fields_or_none, with_usage, asking_body, ensure_stream_usage, has_suffix, chat_url,
}

-- What encoding/json documents of a map: where it can be marshalled, the text decodes to it.
abbrev pub ReadsBack : MapCodec → Fields → Type 0
ReadsBack c m = (t : Text) → c.encode m ≡ some t → c.decode t ≡ some m

value_of-put :
    (j k : Text) (v : Value) (m : Fields)
    → value_of j (put_value k v m) ≡ (if text_eq k j then some v else value_of j m)
unfolding value_of put_value
value_of-put j k v no_fields = refl
value_of-put j k v (field i w m) = elim (Bool-cases (text_eq i k)) [
  | inl e ↦ elim (Bool-cases (text_eq k j)) [
    | inl f ↦ rw (e, f, subst (λ t. text_eq t j ≡ true) (sym (eq_of_text_eq i k e)) f) refl
    | inr f ↦ rw (e, f, subst (λ t. text_eq t j ≡ false) (sym (eq_of_text_eq i k e)) f) refl
  ]
  | inr e ↦ elim (Bool-cases (text_eq i j)) [
    | inl f ↦ rw (e, f, apart f e) refl
    | inr f ↦ rw (e, f) (value_of-put j k v m)
  ]
]
  where
    -- Another name than that of the entry.
    apart : text_eq i j ≡ true → text_eq i k ≡ false → text_eq k j ≡ false
    apart f e = elim (Bool-cases (text_eq k j)) [
      | inr g ↦ g
      | inl g ↦ absurd (
          differ (
            sym (text_eq_refl i)
            ∙ subst (λ t. text_eq i t ≡ false) (eq_of_text_eq k j g ∙ sym (eq_of_text_eq i j f)) e))
    ]
      where
        differ : true ≡ false → ⊥
        differ h = cc

abbrev pub streams : Fields → Bool
streams m = is_true (value_of (text "stream") m)

abbrev pub options : Fields → Fields
options m = fields_or_none (value_of (text "stream_options") m)

abbrev pub declines : Fields → Bool
declines m = is_false (value_of (text "include_usage") (options m))

-- The map asks for the usage, and is otherwise the one before.
pub record Asks (before after : Fields) : Type 0 where
  pub asked : value_of (text "include_usage") (options after) ≡ some (boolean true)
  pub other_options :
      (k : Text)
      → text_eq (text "include_usage") k ≡ false
      → value_of k (options after) ≡ value_of k (options before)
  pub others :
      (k : Text) → text_eq (text "stream_options") k ≡ false → value_of k after ≡ value_of k before

with_usage-Asks : (m : Fields) → Asks m (with_usage m)
unfolding text_eq
with_usage-Asks m = record {
  asked =
      rw stored
        (value_of-put (text "include_usage") (text "include_usage") (boolean true) (options m));
  other_options = λ k e.
      rw stored (value_of-put k (text "include_usage") (boolean true) (options m) ∙ rw e refl);
  others = λ k e. value_of-put k (text "stream_options") _ m ∙ rw e refl;
}
  where
    stored :
        value_of (text "stream_options") (with_usage m)
        ≡ some (object (put_value (text "include_usage") (boolean true) (options m)))
    stored = value_of-put (text "stream_options") (text "stream_options") _ m

-- The body of a request for a stream that does not decline the usage asks for it, where the changed
-- map can be marshalled: it decodes to the map of the client's with `include_usage` set, every other
-- field and every other option of the stream as before. Any other body that decodes stays as it is.
pub ensure_stream_usage-Asks :
    (c : MapCodec) (body : Text) (m : Fields)
    → ReadsBack c (with_usage m)
    → c.decode body ≡ some m
    → ((streams m ≡ true)
        × (declines m ≡ false)
        × ((ensure_stream_usage c body ≡ body) × (c.encode (with_usage m) ≡ none)
            ⊎ (m' : Fields) × (c.decode (ensure_stream_usage c body) ≡ some m') × Asks m m'))
      ⊎ (((streams m ≡ false) ⊎ (declines m ≡ true)) × (ensure_stream_usage c body ≡ body))
unfolding ensure_stream_usage asking_body
ensure_stream_usage-Asks c body m law e = elim (Bool-cases (streams m)) [
  | inr s ↦ inr (inl s, rw (e, s, ensure_stream_usage, asking_body) refl)
  | inl s ↦ elim (Bool-cases (declines m)) [
    | inl d ↦ inr (inr d, rw (e, s, d, ensure_stream_usage, asking_body) refl)
    | inr d ↦ inl (
      s,
      d,
      elim (Option-cases (c.encode (with_usage m))) [
        | inl f ↦ inl (rw (e, s, d, f, ensure_stream_usage, asking_body) refl, f)
        | inr (out, f) ↦ inr (
          with_usage m,
          ap c.decode (rw (e, s, d, f, ensure_stream_usage, asking_body) refl) ∙ law out f,
          with_usage-Asks m,
        )
      ],
    )
  ]
]

has_suffix-append : (s t : Text) → has_suffix (s ++ t) t ≡ true
unfolding has_suffix
has_suffix-append s t = rw (fits, rest) (text_eq_refl t)
  where
    fits : leb (length t) (length (s ++ t)) ≡ true
    fits = ground (arith, length-append s t)

    front : length (s ++ t) - length t ≡ length s
    front = omega (arith, length-append s t)

    rest : drop (length (s ++ t) - length t) (s ++ t) ≡ t
    rest = ap (λ n. drop n (s ++ t)) front ∙ drop-append s t

-- The URL of a request ends in /chat/completions, which is appended at most once.
pub chat_url_idem :
    (url : Text)
    → (has_suffix (chat_url url) (text "/chat/completions") ≡ true)
      × (chat_url (chat_url url) ≡ chat_url url)
unfolding chat_url
chat_url_idem url = (ends, rw (ends, chat_url) refl)
  where
    ends : has_suffix (chat_url url) (text "/chat/completions") ≡ true
    ends = elim (Bool-cases (has_suffix url (text "/chat/completions"))) [
      | inl e ↦ rw e e
      | inr e ↦ rw e (has_suffix-append (trim_slash url) (text "/chat/completions"))
    ]
