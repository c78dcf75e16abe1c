-- ===== src/Multiplier.antt =====
-- internal/quota/multiplier.go: the time multipliers, their table, and the one in effect.
pub mod Effective
pub mod Rows
use shimiaocheng_llm.Prelude.{
  ℕ, suc, ◌+◌, Bool, true, false, not, ◌&&◌, List, [], ◌∷◌, ◌++◌, Option, none, some, Text, ◌==◌,
  if◌then◌else◌,
}
use shimiaocheng_llm.Float64.{Float64, one, gt}
use shimiaocheng_llm.GoTime.{Time}
use shimiaocheng_llm.TimeUtil.{is_in_range, match_day}

pub record TimeMultiplier : Type 0 where
  pub id : ℕ
  pub start_time : Text
  pub end_time : Text
  pub multiplier : Float64
  pub days_of_week : Text
  pub enabled : Bool
  pub created_at : Text

-- The table time_multipliers in the order of its ids, with the next id.
pub record Table : Type 0 where
  pub rows : List TimeMultiplier
  pub next_id : ℕ

-- `FindAllEnabled` and `FindAll`; `none` is an error of the query.
enabled_rows : List TimeMultiplier → List TimeMultiplier
enabled_rows [] = []
enabled_rows (r ∷ rs) = let rest = enabled_rows rs in if r.enabled then r ∷ rest else rest

unfoldable pub find_all_enabled : Bool → Table → Option (List TimeMultiplier)
unfolding enabled_rows
find_all_enabled reads t = if reads then some (enabled_rows t.rows) else none

unfoldable pub find_all : Bool → Table → Option (List TimeMultiplier)
find_all reads t = if reads then some t.rows else none

-- A rule whose weekdays and window hold now.
unfoldable pub applies : ℕ → TimeMultiplier → Bool
applies now r = match_day r.days_of_week now && is_in_range r.start_time r.end_time now

-- The loop: the maximum so far, and the rules to come.
unfoldable pub max_multiplier : ℕ → Float64 → List TimeMultiplier → Float64
unfolding applies
max_multiplier now best [] = best
max_multiplier now best (r ∷ rs) =
    max_multiplier now (if applies now r && gt r.multiplier best then r.multiplier else best) rs

-- `GetEffectiveMultiplier`.
unfoldable pub get_effective_multiplier : Bool → Table → Time → Float64
unfolding max_multiplier find_all_enabled
get_effective_multiplier reads t now = elim (find_all_enabled reads t) [
  | none ↦ one
  | some rules ↦ max_multiplier now.nanos one rules
]

-- `Create`: the new table and the new row.
unfoldable pub create :
    Bool → Text → Text → Float64 → Text → Text → Table → Option (Table × TimeMultiplier)
create writes start_time end_time multiplier days_of_week now t =
    let row : TimeMultiplier = record {
      id = t.next_id;
      start_time = start_time;
      end_time = end_time;
      multiplier = multiplier;
      days_of_week = days_of_week;
      enabled = true;
      created_at = now;
    } in
    if writes
    then some (record { rows = t.rows ++ row ∷ []; next_id = suc t.next_id }, row)
    else none

-- The fields that a request may give.
pub record Updates : Type 0 where
  pub start_time : Option Text
  pub end_time : Option Text
  pub multiplier : Option Float64
  pub days_of_week : Option Text
  pub enabled : Option Bool

abbrev pub or_old {ℓ} : {A : Type ℓ} → Option A → A → A
or_old none a = a
or_old (some b) a = b

abbrev pub apply_updates : Updates → TimeMultiplier → TimeMultiplier
apply_updates u r = record r {
  start_time = or_old u.start_time r.start_time;
  end_time = or_old u.end_time r.end_time;
  multiplier = or_old u.multiplier r.multiplier;
  days_of_week = or_old u.days_of_week r.days_of_week;
  enabled = or_old u.enabled r.enabled;
}

abbrev pub is_none {ℓ} : {A : Type ℓ} → Option A → Bool
is_none none = true
is_none (some a) = false

abbrev pub gives_nothing : Updates → Bool
gives_nothing u =
    is_none u.start_time
    && is_none u.end_time
    && is_none u.multiplier
    && is_none u.days_of_week
    && is_none u.enabled

unfoldable pub update_rows : ℕ → Updates → List TimeMultiplier → List TimeMultiplier
update_rows id u [] = []
update_rows id u (r ∷ rs) = (if r.id == id then apply_updates u r else r) ∷ update_rows id u rs

-- `Update`: with no field given nothing is executed.
unfoldable pub update : Bool → ℕ → Updates → Table → Option Table
unfolding update_rows
update writes id u t =
    if gives_nothing u
    then some t
    else if writes
    then some (record t { rows = update_rows id u t.rows })
    else none

unfoldable pub delete_rows : ℕ → List TimeMultiplier → List TimeMultiplier
delete_rows id [] = []
delete_rows id (r ∷ rs) = let rest = delete_rows id rs in if r.id == id then rest else r ∷ rest

-- `Delete`.
unfoldable pub delete : Bool → ℕ → Table → Option Table
unfolding delete_rows
delete writes id t = if writes then some (record t { rows = delete_rows id t.rows }) else none

unfoldable pub find_row : ℕ → List TimeMultiplier → Option TimeMultiplier
find_row id [] = none
find_row id (r ∷ rs) = if r.id == id then some r else find_row id rs

-- `GetByID`; the outer `none` is an error of the query.
unfoldable pub get_by_id : Bool → ℕ → Table → Option (Option TimeMultiplier)
unfolding find_row
get_by_id reads id t = if reads then some (find_row id t.rows) else none
