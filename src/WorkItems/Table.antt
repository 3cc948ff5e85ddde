-- ===== src/WorkItems/Table.antt =====
-- The table `workItems` of the database, as src/work-items/store.ts reads and writes it by its
-- primary key. The database and its query builder are not part of the repository: the operations
-- are a parameter, and the laws are what an SQL table with a primary key promises.
use gooseherd.Prelude.{
  String, ◌≡◌, refl, Option, none, some, List, [], ◌∷◌, arith, eq_iff, if◌then◌else◌, ◌==◌,
  String-Eq, Nat-Eq, map_option,
}
use gooseherd.WorkItems.Types.{WorkItemRecord}

-- A row has no `activeRunCount`: the field is `none` in it.
pub record WorkItemTable : Type 1 where
  pub Db : Type 0
  -- `select … where id = …`, the first row
  pub find : String → Db → Option WorkItemRecord
  -- `insert … values …`
  pub insert : WorkItemRecord → Db → Db
  -- `update … set … where id = …`
  pub set : String → (WorkItemRecord → WorkItemRecord) → Db → Db
  pub find_key : (i : String) (r : WorkItemRecord) (db : Db) → find i db ≡ some r → r.id ≡ i
  pub find-insert :
      (r : WorkItemRecord) (j : String) (db : Db)
      → find r.id db ≡ none
      → find j (insert r db) ≡ (if r.id == j then some r else find j db)
  pub find-set :
      (i j : String) (f : WorkItemRecord → WorkItemRecord) (db : Db)
      → ((r : WorkItemRecord) → (f r).id ≡ r.id)
      → find j (set i f db) ≡ (if i == j then map_option f (find j db) else find j db)

-- Rows in a list, to show that the laws can be met.
unfoldable pub find_row : String → List WorkItemRecord → Option WorkItemRecord
find_row i [] = none
find_row i (r ∷ rows) = if r.id == i then some r else find_row i rows

unfoldable pub insert_row : WorkItemRecord → List WorkItemRecord → List WorkItemRecord
insert_row r rows = r ∷ rows

unfoldable pub set_row :
    String → (WorkItemRecord → WorkItemRecord) → List WorkItemRecord → List WorkItemRecord
set_row i f [] = []
set_row i f (r ∷ rows) = (if r.id == i then f r else r) ∷ set_row i f rows

pub find_row_key :
    (i : String) (r : WorkItemRecord) (rows : List WorkItemRecord)
    → find_row i rows ≡ some r
    → r.id ≡ i
unfolding find_row
find_row_key i r [] h = ground arith
find_row_key i r (s ∷ rows) h = ground (arith, eq_iff s.id i, find_row_key i r rows)

pub find_row-insert_row :
    (r : WorkItemRecord) (j : String) (rows : List WorkItemRecord)
    → find_row r.id rows ≡ none
    → find_row j (insert_row r rows) ≡ (if r.id == j then some r else find_row j rows)
unfolding find_row insert_row
find_row-insert_row r j rows h = refl

pub find_row-set_row :
    (i j : String) (f : WorkItemRecord → WorkItemRecord) (rows : List WorkItemRecord)
    → ((r : WorkItemRecord) → (f r).id ≡ r.id)
    → find_row j (set_row i f rows)
      ≡ (if i == j then map_option f (find_row j rows) else find_row j rows)
unfolding find_row set_row
find_row-set_row i j f [] keeps = ground arith
find_row-set_row i j f (r ∷ rows) keeps = ground (
  arith,
  keeps r,
  eq_iff r.id i,
  eq_iff r.id j,
  eq_iff i j,
  eq_iff (f r).id j,
  find_row-set_row i j f rows keeps,
)

abbrev pub list_table : WorkItemTable
list_table = record {
  Db = List WorkItemRecord;
  find = find_row;
  insert = insert_row;
  set = set_row;
  find_key = find_row_key;
  find-insert = find_row-insert_row;
  find-set = find_row-set_row;
}
