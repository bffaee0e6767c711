-- ===== src/Row/Reads.antt =====
-- `rtcom_el_db_schema_get_row` and `rtcom_el_db_schema_update_row` of src/db.c.
use rtcom_eventlogger.Common.{ℕ, suc, ◌≡◌, refl, sym, subst, ◌∙◌, Option, some, List, [], ◌∷◌, same}
use rtcom_eventlogger.Row.{
  EventField, fields, Cell, Casts, Columns, find, put, value_of, update_from, update_row,
  insert_unset, get_row,
}

-- What a hash table for these fields has, from column `i` on.
abbrev pub read_from : Casts → List EventField → ℕ → (ℕ → Cell) → Columns
read_from casts [] i cells = []
read_from casts (f ∷ fs) i cells =
    (f.name, value_of casts f.type (cells i)) ∷ read_from casts fs (suc i) cells

-- Each name has the value of its column, from column `i` on.
abbrev pub Found : Casts → List EventField → ℕ → (ℕ → Cell) → Columns → Type 0
Found casts [] i cells row = Unit
Found casts (f ∷ fs) i cells row =
    (find f.name row ≡ some (value_of casts f.type (cells i))) × Found casts fs (suc i) cells row

module _ (casts : Casts) where
  abbrev pub columns_of : (ℕ → Cell) → Columns
  columns_of cells = read_from casts fields 0 cells

  pub get_row_lem : (cells : ℕ → Cell) → get_row casts cells ≡ some (columns_of cells)
  unfolding get_row update_row update_from insert_unset fields find put same
  get_row_lem cells = refl

  pub update_row_lem :
      (old cells : ℕ → Cell) → update_row casts cells (columns_of old) ≡ some (columns_of cells)
  unfolding update_row update_from fields find put same
  update_row_lem old cells = refl

  columns_of-Found : (cells : ℕ → Cell) → Found casts fields 0 cells (columns_of cells)
  unfolding fields find same
  columns_of-Found cells = (
    refl,
    (
      refl,
      (
        refl,
        (
          refl,
          (
            refl,
            (
              refl,
              (
                refl,
                (
                  refl,
                  (
                    refl,
                    (
                      refl,
                      (
                        refl,
                        (
                          refl,
                          (
                            refl,
                            (
                              refl,
                              (refl, (refl, (refl, (refl, (refl, (refl, (refl, (refl, tt)))))))),
                            ),
                          ),
                        ),
                      ),
                    ),
                  ),
                ),
              ),
            ),
          ),
        ),
      ),
    ),
  )

  -- A hash table that was made for one row serves for any other: `rtcom_el_db_schema_update_row`
  -- makes of it what `rtcom_el_db_schema_get_row` makes from nothing, and both never meet a name
  -- that is missing. Each name then has the value of its own column, by its own type.
  pub update_row-Found :
      (old cells : ℕ → Cell) (row : Columns)
      → get_row casts old ≡ some row
      → (row' : Columns) × (update_row casts cells row ≡ some row')
        × (get_row casts cells ≡ some row')
        × Found casts fields 0 cells row'
  update_row-Found old cells row made = (
    columns_of cells,
    subst (λ r. update_row casts cells r ≡ some (columns_of cells))
        (injective (sym (get_row_lem old) ∙ made)) (update_row_lem old cells),
    get_row_lem cells,
    columns_of-Found cells,
  )
    where
      injective : {a b : Columns} → ◌≡◌ {A = Option Columns} (some a) (some b) → a ≡ b
      injective p = cc
