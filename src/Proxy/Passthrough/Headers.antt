-- ===== src/Proxy/Passthrough/Headers.antt =====
-- passthrough_request.go: what of the client's headers reaches the upstream, and of the upstream's the
-- client.
use shimiaocheng_llm.Prelude.{
  ◌≡◌, refl, ap, sym, ◌∙◌, subst, inl, inr, Bool, true, false, List, [], ◌∷◌, ◌++◌, Option, none,
  some, Option-cases, Text, text, text_eq, text_eq_refl, eq_of_text_eq, if◌then◌else◌, Bool-cases,
}
use shimiaocheng_llm.Router.{ProviderEntry}
use shimiaocheng_llm.Proxy.Passthrough.{
  Header, to_lower, same_name, values, del, set, set_all, is_stripped, is_hop_by_hop,
  copied_headers, auth_lines, inject_upstream_auth, UpstreamRequest, build_upstream_request,
  forwarded_headers, copy_response_headers,
}

values-append : (k : Text) (h g : Header) → values k (h ++ g) ≡ values k h ++ values k g
unfolding values
values-append k [] g = refl
values-append k ((j, v) ∷ h) g = elim (Bool-cases (same_name j k)) [
  | inl e ↦ rw (e, values-append k h g) refl
  | inr e ↦ rw (e, values-append k h g) refl
]

-- Names that lower to one text are stripped alike.
stripped_alike : (j k : Text) → same_name j k ≡ true → is_stripped j ≡ is_stripped k
unfolding is_stripped is_hop_by_hop
stripped_alike j k e = rw (eq_of_text_eq (to_lower j) (to_lower k) e) refl

hop_alike : (j k : Text) → same_name j k ≡ true → is_hop_by_hop j ≡ is_hop_by_hop k
unfolding is_hop_by_hop
hop_alike j k e = rw (eq_of_text_eq (to_lower j) (to_lower k) e) refl

-- The copy has no line of a name that is stripped, and every line of another name.
values-copied :
    (k : Text) (h : Header)
    → values k (copied_headers h) ≡ (if is_stripped k then [] else values k h)
unfolding values copied_headers
values-copied k [] = same (is_stripped k)
  where
    same : (b : Bool) → ◌≡◌ {A = List Text} [] (if b then [] else [])
    same true = refl
    same false = refl
values-copied k ((j, v) ∷ h) = elim (Bool-cases (same_name j k)) [
  | inl e ↦ elim (Bool-cases (is_stripped k)) [
    | inl s ↦ rw (stripped_alike j k e, s) (values-copied k h ∙ rw s refl)
    | inr s ↦ rw (stripped_alike j k e, s, e) (ap (λ t. v ∷ t) (values-copied k h ∙ rw s refl))
  ]
  | inr e ↦ elim (Bool-cases (is_stripped j)) [
    | inl s ↦ rw (s, e) (values-copied k h)
    | inr s ↦ rw (s, e) (values-copied k h)
  ]
]

same_left : (i j k : Text) → same_name i j ≡ true → same_name i k ≡ same_name j k
same_left i j k e =
    subst (λ t. text_eq (to_lower i) (to_lower k) ≡ text_eq t (to_lower k))
      (eq_of_text_eq (to_lower i) (to_lower j) e) refl

same_apart : (i j k : Text) → same_name i j ≡ false → same_name i k ≡ true → same_name j k ≡ false
same_apart i j k e s = elim (Bool-cases (same_name j k)) [
  | inr f ↦ f
  | inl t ↦ absurd (
      clash (
        eq_of_text_eq (to_lower i) (to_lower k) s
        ∙ sym (eq_of_text_eq (to_lower j) (to_lower k) t)))
]
  where
    clash : to_lower i ≡ to_lower j → ⊥
    clash p = differ (rw p (text_eq_refl (to_lower j)))
      where
        differ : same_name i j ≡ true → ⊥
        differ h = cc

values-del :
    (k j : Text) (h : Header) → values k (del j h) ≡ (if same_name j k then [] else values k h)
unfolding values del
values-del k j [] = same (same_name j k)
  where
    same : (b : Bool) → ◌≡◌ {A = List Text} [] (if b then [] else [])
    same true = refl
    same false = refl
values-del k j ((i, v) ∷ h) = elim (Bool-cases (same_name i j)) [
  | inl e ↦ elim (Bool-cases (same_name j k)) [
    | inl s ↦ rw (e, values-del k j h, s) refl
    | inr s ↦ rw (e, values-del k j h, s, same_left i j k e, s) refl
  ]
  | inr e ↦ elim (Bool-cases (same_name i k)) [
    | inl s ↦ rw (e, s, values-del k j h, same_apart i j k e s) refl
    | inr s ↦ rw (e, s) (values-del k j h)
  ]
]

append_nil : (xs : List Text) → xs ++ [] ≡ xs
append_nil [] = refl
append_nil (x ∷ xs) = ap (λ t. x ∷ t) (append_nil xs)

pub values-set :
    (k j : Text) (v : Text) (h : Header)
    → values k (set j v h) ≡ (if same_name j k then v ∷ [] else values k h)
unfolding values
values-set k j v h = elim (Bool-cases (same_name j k)) [
  | inl e ↦ rw (values-append k (del j h) ((j, v) ∷ []), values-del k j h, e) refl
  | inr e ↦
      rw (values-append k (del j h) ((j, v) ∷ []), values-del k j h, e) (append_nil (values k h))
]

-- The value that the last line of a name sets.
unfoldable pub last_value : Text → List (Text × Text) → Option Text
last_value k [] = none
last_value k ((j, v) ∷ lines) =
    let rest = last_value k lines in
    elim rest [ some w ↦ some w | none ↦ if same_name j k then some v else none ]

-- What a name has after lines were set.
abbrev pub over : Option Text → List Text → List Text
over none vs = vs
over (some v) vs = v ∷ []

values-set_all :
    (k : Text) (lines : List (Text × Text)) (h : Header)
    → values k (set_all lines h) ≡ over (last_value k lines) (values k h)
unfolding set_all last_value
values-set_all k [] h = refl
values-set_all k ((j, v) ∷ lines) h =
    values-set_all k lines (set j v h) ∙ elim (Option-cases (last_value k lines)) [
      | inr (w, e) ↦ rw e refl
      | inl e ↦ elim (Bool-cases (same_name j k)) [
        | inl s ↦ rw (e, values-set k j v h, s) refl
        | inr s ↦ rw (e, values-set k j v h, s) refl
      ]
    ]

-- What the upstream gets under any name: the provider's value, where its extra headers or its
-- scheme set one, the extra headers before the scheme; else what the client sent, but nothing under
-- the names of credentials, Host and those specific to the connection.
pub build_upstream_request-headers :
    (method url : Text) (h : Header) (body : Option Text) (prov : ProviderEntry)
    (r : UpstreamRequest) (k : Text)
    → build_upstream_request true method url h body prov ≡ some r
    → values k r.headers
      ≡ over
          (last_value k prov.extra_headers)
          (over (last_value k (auth_lines prov)) (if is_stripped k then [] else values k h))
unfolding build_upstream_request inject_upstream_auth
build_upstream_request-headers method url h body prov r k e =
    ap (λ r. values k r.headers) (sym (same e))
    ∙ values-set_all k prov.extra_headers (set_all (auth_lines prov) (copied_headers h))
    ∙ ap (over (last_value k prov.extra_headers)) (
        values-set_all k (auth_lines prov) (copied_headers h)
        ∙ ap (over (last_value k (auth_lines prov))) (values-copied k h))
  where
    same : {a b : UpstreamRequest} → ◌≡◌ {A = Option UpstreamRequest} (some a) (some b) → a ≡ b
    same h = cc

values-forwarded :
    (k : Text) (h : Header)
    → values k (forwarded_headers h) ≡ (if is_hop_by_hop k then [] else values k h)
unfolding values forwarded_headers
values-forwarded k [] = same (is_hop_by_hop k)
  where
    same : (b : Bool) → ◌≡◌ {A = List Text} [] (if b then [] else [])
    same true = refl
    same false = refl
values-forwarded k ((j, v) ∷ h) = elim (Bool-cases (same_name j k)) [
  | inl e ↦ elim (Bool-cases (is_hop_by_hop k)) [
    | inl s ↦ rw (hop_alike j k e, s) (values-forwarded k h ∙ rw s refl)
    | inr s ↦ rw (hop_alike j k e, s, e) (ap (λ t. v ∷ t) (values-forwarded k h ∙ rw s refl))
  ]
  | inr e ↦ elim (Bool-cases (is_hop_by_hop j)) [
    | inl s ↦ rw (s, e) (values-forwarded k h)
    | inr s ↦ rw (s, e) (values-forwarded k h)
  ]
]

-- What the client gets under any name where its response had no header yet: the upstream's lines,
-- but nothing specific to the connection, and for a stream no Content-Length and no buffering.
pub copy_response_headers-values :
    (src : Header) (k : Text)
    → (values k (copy_response_headers [] src false)
        ≡ (if is_hop_by_hop k then [] else values k src))
      × (values k (copy_response_headers [] src true) ≡ (
          if same_name (text "X-Accel-Buffering") k
          then text "no" ∷ []
          else if same_name (text "Content-Length") k
          then []
          else if is_hop_by_hop k
          then []
          else values k src))
unfolding copy_response_headers
copy_response_headers-values src k = (
  values-forwarded k src,
  values-set k (text "X-Accel-Buffering") (text "no")
        (del (text "Content-Length") (forwarded_headers src))
      ∙ ap (λ t. if same_name (text "X-Accel-Buffering") k then text "no" ∷ [] else t)
          (values-del k (text "Content-Length") (forwarded_headers src)
            ∙ ap (λ t. if same_name (text "Content-Length") k then [] else t)
                (values-forwarded k src)),
)
