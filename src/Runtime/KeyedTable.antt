-- ===== src/Runtime/KeyedTable.antt =====
-- A table with one row for a key, as control-plane-store.ts uses its tables. The database is not
-- part of the repository: the operations are a parameter, with the laws of a primary key.
use gooseherd.Prelude.{
  String, ◌≡◌, refl, Option, none, some, if◌then◌else◌, ◌==◌, String-Eq, Nat-Eq,
}

pub record KeyedTable (Row : Type 0) : Type 1 where
  pub Rows : Type 0
  -- `select … where key = …`, the first row
  pub find : String → Rows → Option Row
  -- `insert` where the key is free, `update` or `onConflictDoUpdate` where it is not
  pub put : String → Row → Rows → Rows
  -- `delete … where key = …`
  pub remove : String → Rows → Rows
  pub find-put :
      (k j : String) (row : Row) (rows : Rows)
      → find j (put k row rows) ≡ (if k == j then some row else find j rows)
  pub find-remove :
      (k j : String) (rows : Rows) → find j (remove k rows) ≡ (if k == j then none else find j rows)

-- Functions as tables, to show that the laws can be met.
abbrev pub function_table : (Row : Type 0) → KeyedTable Row
function_table Row = record {
  Rows = String → Option Row;
  find = λ k rows. rows k;
  put = λ k row rows. λ j. if k == j then some row else rows j;
  remove = λ k rows. λ j. if k == j then none else rows j;
  find-put = λ k j row rows. refl;
  find-remove = λ k j rows. refl;
}
