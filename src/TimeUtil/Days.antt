-- ===== src/TimeUtil/Days.antt =====
-- MatchDay of internal/timeutil/timeutil.go against sets of weekdays.
use mathlib.Core.List.{append_assoc}
use shimiaocheng_llm.Prelude.{
  ℕ, ◌+◌, ◌<◌, ◌≡◌, refl, true, false, ◌||◌, List, [], ◌∷◌, ◌++◌, Text, text, text_eq, arith, any,
  All, ◌==◌, map, ap,
}
use shimiaocheng_llm.TimeUtil.{
  shanghai_weekday, is_space, trim_left, trim_right, trim_space, split, digit, match_day,
}

-- White space only.
abbrev IsBlank : Text → Type 0
IsBlank = All (λ c. is_space c ≡ true)

-- A mask entry: a weekday number, with white space round it.
pub record Entry : Type 0 where
  pub before : Text
  pub day : ℕ
  pub after : Text

abbrev pub IsEntry : Entry → Type 0
IsEntry e = IsBlank e.before × (e.day < 7) × IsBlank e.after

abbrev entry_text : Entry → Text
entry_text e = e.before ++ (48 + e.day) ∷ e.after

-- The entries with commas between them, as an administrator types them.
abbrev pub mask_text : Entry → List Entry → Text
mask_text e [] = entry_text e
mask_text e (f ∷ es) = entry_text e ++ b',' ∷ mask_text f es

trim_left-blank : (s t : Text) → IsBlank s → trim_left (s ++ t) ≡ trim_left t
unfolding trim_left
trim_left-blank [] t b = refl
trim_left-blank (c ∷ s) t b = rw (b.0) (trim_left-blank s t b.1)

trim_right-blank : (s : Text) → IsBlank s → trim_right s ≡ []
unfolding trim_right
trim_right-blank [] b = refl
trim_right-blank (c ∷ s) b = rw (trim_right-blank s b.1, b.0)

digit-not-space : (d : ℕ) → d < 7 → is_space (48 + d) ≡ false
unfolding is_space
digit-not-space d h = ground arith

trim_space-entry : (e : Entry) → IsEntry e → trim_space (entry_text e) ≡ digit e.day
unfolding trim_space
trim_space-entry e (b, d, a) =
    rw (trim_left-blank e.before ((48 + e.day) ∷ e.after) b) (trimmed (digit-not-space e.day d))
  where
    trimmed :
        is_space (48 + e.day) ≡ false
        → trim_right (trim_left ((48 + e.day) ∷ e.after)) ≡ digit e.day
    trimmed n = rw n (rw (trim_right-blank e.after a) (rw n))

-- No comma.
abbrev IsField : Text → Type 0
IsField = All (λ c. (c == b',') ≡ false)

split-field : (s : Text) → IsField s → split b',' s ≡ s ∷ []
unfolding split
split-field [] f = refl
split-field (c ∷ s) f = rw (f.0, split-field s f.1)

split-comma : (s t : Text) → IsField s → split b',' (s ++ b',' ∷ t) ≡ s ∷ split b',' t
unfolding split
split-comma [] t f = refl
split-comma (c ∷ s) t f = rw (f.0, split-comma s t f.1)

space-not-comma : (c : ℕ) → is_space c ≡ true → (c == b',') ≡ false
unfolding is_space
space-not-comma c h = ground arith

blank-IsField : (s : Text) → IsBlank s → IsField s
blank-IsField [] b = tt
blank-IsField (c ∷ s) b = (space-not-comma c b.0, blank-IsField s b.1)

append-IsField : (s t : Text) → IsField s → IsField t → IsField (s ++ t)
append-IsField [] t f g = g
append-IsField (c ∷ s) t f g = (f.0, append-IsField s t f.1 g)

entry-IsField : (e : Entry) → IsEntry e → IsField (entry_text e)
entry-IsField e (b, d, a) =
    append-IsField e.before ((48 + e.day) ∷ e.after) (blank-IsField e.before b)
      (ground arith, blank-IsField e.after a)

split-mask :
    (e : Entry) (es : List Entry)
    → IsEntry e
    → All IsEntry es
    → split b',' (mask_text e es) ≡ map entry_text (e ∷ es)
split-mask e [] v vs = split-field (entry_text e) (entry-IsField e v)
split-mask e (f ∷ es) v vs =
    rw (split-comma (entry_text e) (mask_text f es) (entry-IsField e v))
      (ap (◌∷◌ (entry_text e)) (split-mask f es vs.0 vs.1))

digit-eq : (d w : ℕ) → text_eq (digit d) (digit w) ≡ (d == w)
unfolding text_eq
digit-eq d w = ground arith

any-entries :
    (w : ℕ) (es : List Entry)
    → All IsEntry es
    → any (λ d. text_eq (trim_space d) (digit w)) (map entry_text es) ≡ any (λ e. e.day == w) es
any-entries w [] vs = refl
any-entries w (e ∷ es) vs =
    rw (trim_space-entry e vs.0, any-entries w es vs.1, digit-eq e.day w) refl

space-not-star : (c : ℕ) → is_space c ≡ true → (c == b'*') ≡ false
unfolding is_space
space-not-star c h = ground arith

-- What begins with blanks and a digit is neither empty nor a star.
plain :
    (b t : Text) (d : ℕ)
    → IsBlank b
    → (text_eq (b ++ (48 + d) ∷ t) (text "*") || text_eq (b ++ (48 + d) ∷ t) []) ≡ false
unfolding text_eq
plain [] t d b = ground arith
plain (c ∷ s) t d b = ground (arith, space-not-star c b.0)

mask-plain :
    (e : Entry) (es : List Entry)
    → IsEntry e
    → (text_eq (mask_text e es) (text "*") || text_eq (mask_text e es) []) ≡ false
mask-plain e [] v = plain e.before e.after e.day v.0
mask-plain e (f ∷ es) v =
    rw (append_assoc e.before ((48 + e.day) ∷ e.after) (b',' ∷ mask_text f es))
      (plain e.before (e.after ++ b',' ∷ mask_text f es) e.day v.0)

-- A comma list of weekday numbers, each with any white space round it, matches exactly on the
-- listed weekdays of Shanghai.
pub match_day-mask :
    (e : Entry) (es : List Entry) (now : ℕ)
    → IsEntry e
    → All IsEntry es
    → match_day (mask_text e es) now ≡ any (λ f. f.day == shanghai_weekday now) (e ∷ es)
unfolding match_day
match_day-mask e es now v vs =
    rw (mask-plain e es v, split-mask e es v vs)
      (any-entries (shanghai_weekday now) (e ∷ es) (v, vs))
