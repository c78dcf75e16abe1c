-- ===== src/Auth/Expiry.antt =====
-- NormalizeExpiry and ParseExpiry of internal/models/expiry.go, one after the other.
use shimiaocheng_llm.Prelude.{
  ◌*◌, ◌/◌, ◌≡◌, ◌≢◌, ◌⊎◌, inl, inr, refl, sym, ap, ◌∙◌, [], ◌∷◌, Option, none, some, Text,
  Option-cases, subst, arith,
}
use shimiaocheng_llm.GoTime.{Time, Layout, IsLayout, HasFourDigits, IsMinuteZone, second}
use shimiaocheng_llm.TimeUtil.{trim_space}
use shimiaocheng_llm.Auth.{expiry_time, parse_expiry, normalize_expiry, in_shanghai}

expiry_time-zone :
    (l : Layout) (parse_date : Text → Option Time) (s : Text) (e : Time)
    → expiry_time l parse_date s ≡ some e
    → in_shanghai e ≡ e
unfolding expiry_time
expiry_time-zone l parse_date s e h = elim (Option-cases (l.parse s)) [
  | inr (t, p) ↦ let k = rw (expiry_time, p) at h in cc
  | inl p ↦ elim (Option-cases (parse_date s)) [
    | inr (t, q) ↦ let k = rw (expiry_time, p, q) at h in cc
    | inl q ↦ let k = rw (expiry_time, p, q) at h in cc
  ]
]

-- The instant at the start of its second.
abbrev pub whole : Time → Time
whole t = record t { nanos = t.nanos / second * second }

parse_expiry-filled :
    (l : Layout) (parse_date : Text → Option Time) (s : Text)
    → s ≢ []
    → parse_expiry l parse_date s ≡ expiry_time l parse_date s
unfolding parse_expiry
parse_expiry-filled l parse_date [] ne = absurd (ne refl)
parse_expiry-filled l parse_date (c ∷ s) ne = refl

format-expiry :
    (l : Layout)
    → IsLayout l
    → (parse_date : Text → Option Time) (e : Time) → in_shanghai e ≡ e
    → HasFourDigits e
    → parse_expiry l parse_date (l.format e) ≡ some (whole e)
unfolding expiry_time
format-expiry l laws parse_date e z y =
    let m : IsMinuteZone e.zone =
      subst (λ t. IsMinuteZone t.zone) z (refl, refl, omega arith, omega arith) in
    parse_expiry-filled l parse_date (l.format e) (laws.format_filled e)
    ∙ rw (expiry_time, laws.parse_format e y m) (ap (λ t. some (whole t)) z)

-- A normalized expiry: none was given, or the text stands for the same instant as the given one, to
-- the second.
abbrev pub Normalized : Layout → (Text → Option Time) → Text → Text → Type 0
Normalized l parse_date s text =
    ((trim_space s ≡ []) × (text ≡ []))
    ⊎ ((e : Time) × (parse_expiry l parse_date (trim_space s) ≡ some e)
        × (parse_expiry l parse_date text ≡ some (whole e)))

-- What is stored for an expiry is read back: for every text that is accepted and that stands for no
-- instant after the year 9999 in Shanghai, either it is blank and the stored text is empty, or the
-- stored text parses to the instant of the given one, white space trimmed, to the second.
pub normalize_expiry-Normalized :
    (l : Layout)
    → IsLayout l
    → (parse_date : Text → Option Time) (s text : Text)
    → ((e : Time) → parse_expiry l parse_date (trim_space s) ≡ some e → HasFourDigits e)
    → normalize_expiry l parse_date s ≡ some text
    → Normalized l parse_date s text
unfolding normalize_expiry
normalize_expiry-Normalized l laws parse_date s text y h = cases (trim_space s) y h
  where
    cases :
        (t : Text)
        → ((e : Time) → parse_expiry l parse_date t ≡ some e → HasFourDigits e)
        → elim t as (λ x. Option Text) [
          | [] ↦ some []
          | c ∷ t ↦ elim (expiry_time l parse_date (c ∷ t)) as (λ x. Option Text) [
            | none ↦ none
            | some e ↦ some (l.format e)
          ]
        ]
          ≡ some text
        → ((t ≡ []) × (text ≡ []))
          ⊎ ((e : Time) × (parse_expiry l parse_date t ≡ some e)
              × (parse_expiry l parse_date text ≡ some (whole e)))
    cases [] f k = inl (refl, cc)
    cases (c ∷ t) f k = elim (Option-cases (expiry_time l parse_date (c ∷ t))) [
      | inl e ↦ absurd (no (rw e at k))
      | inr (e, p) ↦
          inr (e, parse_expiry-filled l parse_date (c ∷ t) filled ∙ p, stored e p (rw p at k))
    ]
      where
        no : none ≡ some text → ⊥
        no q = cc

        filled : ◌≢◌ {A = Text} (c ∷ t) []
        filled q = cc

        stored :
            (e : Time)
            → expiry_time l parse_date (c ∷ t) ≡ some e
            → some (l.format e) ≡ some text
            → parse_expiry l parse_date text ≡ some (whole e)
        stored e p q =
            let same : l.format e ≡ text = cc in
            ap (parse_expiry l parse_date) (sym same)
            ∙ format-expiry l laws parse_date e (expiry_time-zone l parse_date (c ∷ t) e p)
                (f e (parse_expiry-filled l parse_date (c ∷ t) filled ∙ p))
