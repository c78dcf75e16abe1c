-- ===== src/Examples/Routes.antt =====
-- Routing and model names on a sample snapshot.
use shimiaocheng_llm.Prelude.{
  ℕ, ◌*◌, ◌+◌, ◌&&◌, leb, Bool, if◌then◌else◌, ◌≡◌, inl, inr, true, false, List, [], ◌∷◌, Text,
  text, pos, arith, In, ap,
}
use shimiaocheng_llm.Router.{ProviderEntry, ProviderTable, RoutingRule, resolve_provider}
use shimiaocheng_llm.Router.Selection.{
  HasDistinctIds, RouteCases, resolve_provider-cases, resolve_provider-order_free,
}
use shimiaocheng_llm.Router.Outcome.{Providers}
use shimiaocheng_llm.Router.Models.{
  Mappings, HasOneFold, SameEntries, rewrite_model, rewrite_model-order_free, equal_fold,
}

abbrev zhipu : ProviderEntry
zhipu = record {
  slug = text "zhipu";
  endpoint = text "https://z.example";
  api_key = text "key";
  allow_passthrough = false;
  auth_header = [];
  auth_scheme = [];
  extra_headers = [];
}

-- A rule for every day between 22:00 and 06:00.
abbrev night : RoutingRule
night = record {
  id = 1;
  provider_id = text "zhipu";
  start_time = text "22:00";
  end_time = text "06:00";
  days_of_week = text "*";
  timezone = text "Asia/Shanghai";
  enabled = true;
  priority = pos 5;
  default_provider_id = [];
}

abbrev morning : RoutingRule
morning = record night { id = 2; start_time = text "04:00"; end_time = text "09:00" }

abbrev table : ProviderTable
table = record {
  providers = (text "zhipu", zhipu) ∷ [];
  mappings =
      (text "GLM", (text "zhipu", text "glm-5.2") ∷ [])
      ∷ (text "qwen", (text "zhipu", text "q") ∷ [])
      ∷ [];
  rules = night ∷ morning ∷ [];
  default = text "zhipu";
}

abbrev same_order : Providers → Providers
same_order m = m

-- 05:00 in Shanghai.
abbrev dawn : ℕ
dawn = 63908168400 * 1000000000

resolve_provider-cases_example : RouteCases same_order table dawn
resolve_provider-cases_example = resolve_provider-cases same_order table dawn

rules-distinct : HasDistinctIds (night ∷ morning ∷ [])
rules-distinct a b (inl p) (inl q) e = cc
rules-distinct a b (inl p) (inr (inl q)) e = absurd (omega (arith, ids-night, ids-morning, e))
  where
    ids-night : a.id ≡ 1
    ids-night = ap (λ (r : RoutingRule). r.id) p

    ids-morning : b.id ≡ 2
    ids-morning = ap (λ (r : RoutingRule). r.id) q
rules-distinct a b (inr (inl p)) (inl q) e = absurd (omega (arith, ids-morning, ids-night, e))
  where
    ids-morning : a.id ≡ 2
    ids-morning = ap (λ (r : RoutingRule). r.id) p

    ids-night : b.id ≡ 1
    ids-night = ap (λ (r : RoutingRule). r.id) q
rules-distinct a b (inr (inl p)) (inr (inl q)) e = cc
rules-distinct a b (inr (inr x)) _ e = absurd x
rules-distinct a b _ (inr (inr x)) e = absurd x

swapped : (a x y : RoutingRule) → In a (x ∷ y ∷ []) → In a (y ∷ x ∷ [])
swapped a x y (inl e) = inr (inl e)
swapped a x y (inr (inl e)) = inl e
swapped a x y (inr (inr z)) = absurd z

resolve_provider-order_free_example :
    resolve_provider same_order (record table { rules = morning ∷ night ∷ [] }) dawn
    ≡ resolve_provider same_order table dawn
resolve_provider-order_free_example =
    resolve_provider-order_free same_order table (morning ∷ night ∷ []) dawn rules-distinct
      (λ a i. swapped a night morning i) (λ a i. swapped a morning night i)

-- Lower case for the letters of ASCII.
abbrev fold : ℕ → ℕ
fold c = if leb 65 c && leb c 90 then c + 32 else c

abbrev external : Text
external = text "glm"

abbrev same_mappings : Mappings → Mappings
same_mappings m = m

abbrev reversed : Mappings → Mappings
reversed (x ∷ y ∷ []) = y ∷ x ∷ []
reversed m = m

same-truth : {x : Bool} → x ≡ false → x ≡ true → ⊥
same-truth a b = cc

mappings-HasOneFold : HasOneFold fold external table.mappings
unfolding equal_fold
mappings-HasOneFold j k m n (inl p) (inl q) e e' = cc
mappings-HasOneFold j k m n (inr (inl p)) _ e e' =
    absurd (same-truth (ap (λ (x : Text × List (Text × Text)). equal_fold fold x.0 external) p) e)
mappings-HasOneFold j k m n _ (inr (inl q)) e e' =
    absurd (same-truth (ap (λ (x : Text × List (Text × Text)). equal_fold fold x.0 external) q) e')
mappings-HasOneFold j k m n (inr (inr x)) _ e e' = absurd x
mappings-HasOneFold j k m n (inl p) (inr (inr x)) e e' = absurd x

mappings-SameEntries : SameEntries table.mappings (same_mappings table.mappings)
mappings-SameEntries = ((λ x i. i), (λ x i. i))

reversed-In : (x a b : Text × List (Text × Text)) → In x (a ∷ b ∷ []) → In x (b ∷ a ∷ [])
reversed-In x a b (inl e) = inr (inl e)
reversed-In x a b (inr (inl e)) = inl e
reversed-In x a b (inr (inr z)) = absurd z

reversed-SameEntries : SameEntries table.mappings (reversed table.mappings)
reversed-SameEntries = ((λ x i. reversed-In x _ _ i), (λ x i. reversed-In x _ _ i))

rewrite_model-order_free_example :
    rewrite_model fold reversed table external (text "zhipu")
    ≡ rewrite_model fold same_mappings table external (text "zhipu")
rewrite_model-order_free_example =
    rewrite_model-order_free fold same_mappings reversed table external (text "zhipu")
      mappings-HasOneFold mappings-SameEntries reversed-SameEntries
