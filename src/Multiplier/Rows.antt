-- ===== src/Multiplier/Rows.antt =====
-- Create, Update, Delete and GetByID of internal/quota/multiplier.go, seen through GetByID.
use shimiaocheng_llm.Prelude.{
  ℕ, suc, ◌<◌, ◌≡◌, refl, Bool, true, false, List, [], ◌∷◌, ◌++◌, Option, none, some, Text, arith,
  ◌==◌, if◌then◌else◌, Bool-cases, All, inl, inr,
}
use shimiaocheng_llm.Float64.{Float64}
use shimiaocheng_llm.Multiplier.{
  TimeMultiplier, Table, Updates, apply_updates, gives_nothing, create, update, update_rows, delete,
  delete_rows, find_row, get_by_id,
}

-- Every id of the table has been given out.
abbrev pub IsFresh : Table → Type 0
IsFresh t = All (λ r. r.id < t.next_id) t.rows

All-snoc :
    (n m : ℕ) (rows : List TimeMultiplier) (r : TimeMultiplier)
    → n < m
    → r.id < m
    → All (λ s. s.id < n) rows
    → All (λ s. s.id < m) (rows ++ r ∷ [])
All-snoc n m [] r lt k h = (k, tt)
All-snoc n m (s ∷ rows) r lt k h = (omega arith, All-snoc n m rows r lt k h.1)

find_row-snoc :
    (id : ℕ) (rows : List TimeMultiplier) (r : TimeMultiplier)
    → All (λ s. s.id < r.id) rows
    → find_row id (rows ++ r ∷ []) ≡ (if r.id == id then some r else find_row id rows)
unfolding find_row
find_row-snoc id [] r h = refl
find_row-snoc id (s ∷ rows) r h = ground (arith, find_row-snoc id rows r h.1)

find_row-update :
    (id j : ℕ) (u : Updates) (rows : List TimeMultiplier)
    → find_row j (update_rows id u rows) ≡ elim (find_row j rows) [
      | none ↦ none
      | some r ↦ some (if id == j then apply_updates u r else r)
    ]
unfolding find_row update_rows
find_row-update id j u [] = refl
find_row-update id j u (r ∷ rows) = ground (arith, find_row-update id j u rows)

find_row-delete :
    (id j : ℕ) (rows : List TimeMultiplier)
    → find_row j (delete_rows id rows) ≡ (if id == j then none else find_row j rows)
unfolding find_row delete_rows
find_row-delete id j [] = ground arith
find_row-delete id j (r ∷ rows) = ground (arith, find_row-delete id j rows)

apply_updates-nothing :
    (u : Updates) (r : TimeMultiplier) → gives_nothing u ≡ true → apply_updates u r ≡ r
apply_updates-nothing u r h = ground arith

-- What an update makes of a table, also where it gives no field.
update-found :
    (t : Table) (id j : ℕ) (u : Updates)
    → (t' : Table) × (update true id u t ≡ some t')
      × (t'.next_id ≡ t.next_id)
      × (find_row j t'.rows ≡ elim (find_row j t.rows) [
        | none ↦ none
        | some r ↦ some (if id == j then apply_updates u r else r)
      ])
unfolding update
update-found t id j u = elim (Bool-cases (gives_nothing u)) [
  | inr e ↦
      (record t { rows = update_rows id u t.rows }, rw e refl, refl, find_row-update id j u t.rows)
  | inl e ↦ (t, rw e refl, refl, same (find_row j t.rows) e)
]
  where
    same :
        (o : Option TimeMultiplier)
        → gives_nothing u ≡ true
        → o ≡ elim o [ none ↦ none | some r ↦ some (if id == j then apply_updates u r else r) ]
    same none e = refl
    same (some r) e = rw (apply_updates-nothing u r e) (ground arith)

-- What the three writing operations make of a table, seen by `GetByID` at any id: a created row is
-- found under its own id, which is new, and nothing else changes; an update changes the fields
-- that it gives in that row alone; a deletion removes that row alone. The ids stay fresh.
pub table_laws :
    (t : Table) (start_time end_time days now : Text) (m : Float64) (id j : ℕ) (u : Updates)
    → IsFresh t
    → ((t' : Table) × (row : TimeMultiplier) × (create true start_time end_time m days now t
          ≡ some (t', row))
        × IsFresh t'
        × (row.id ≡ t.next_id)
        × (get_by_id true j t' ≡ (if row.id == j then some (some row) else get_by_id true j t)))
      × ((t' : Table) × (update true id u t ≡ some t')
          × (t'.next_id ≡ t.next_id)
          × (get_by_id true j t'
              ≡ some (elim (find_row j t.rows) [
                | none ↦ none
                | some r ↦ some (if id == j then apply_updates u r else r)
              ])))
      × ((t' : Table) × (delete true id t ≡ some t')
          × (t'.next_id ≡ t.next_id)
          × (get_by_id true j t' ≡ (if id == j then some none else get_by_id true j t)))
unfolding create delete get_by_id
table_laws t start_time end_time days now m id j u fresh =
    let row : TimeMultiplier = record {
      id = t.next_id;
      start_time = start_time;
      end_time = end_time;
      multiplier = m;
      days_of_week = days;
      enabled = true;
      created_at = now;
    } in
    let (t', p, n, f) = update-found t id j u in
    (
      (
        record { rows = t.rows ++ row ∷ []; next_id = suc t.next_id },
        row,
        refl,
        All-snoc t.next_id (suc t.next_id) t.rows row (omega arith) (omega arith) fresh,
        refl,
        rw (find_row-snoc j t.rows row fresh) (found (row.id == j) row (find_row j t.rows)),
      ),
      (t', p, n, rw f refl),
      (
        record t { rows = delete_rows id t.rows },
        refl,
        refl,
        rw (find_row-delete id j t.rows) (gone (id == j) (find_row j t.rows)),
      ),
    )
  where
    found :
        (b : Bool) (row : TimeMultiplier) (o : Option TimeMultiplier)
        → some (if b then some row else o) ≡ (if b then some (some row) else some o)
    found true row o = refl
    found false row o = refl

    gone :
        (b : Bool) (o : Option TimeMultiplier)
        → some (if b then none else o) ≡ (if b then some none else some o)
    gone true o = refl
    gone false o = refl
