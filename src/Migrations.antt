-- ===== src/Migrations.antt =====
-- The schema migrations of alembic/versions: the operations of Alembic that they use, on tables that
-- may have rows. A table stores its rows by column: each column has one value for each row, in one
-- order. An operation that PostgreSQL refuses gives `none`, and undoes the whole migration.
pub mod Created
pub mod Revisions
pub mod Metadata
pub mod Roundtrip
pub mod Head
use resume_screening_service.Common.{
  ℕ, zero, suc, String, Bool, true, false, Option, none, some, List, [], ◌∷◌, ◌++◌, map, not, ◌&&◌,
  ◌||◌, is_none, option_is, ◌==◌, string_eq, if◌then◌else◌, find, select, every, distinct, contains,
  values, nat_beq,
}

-- The types of columns: `sa.UUID()`, `sa.String(length=…)`, `sa.Text()`, `postgresql.JSONB(…)`,
-- `sa.DateTime(timezone=True)`, `sa.Integer()` and `sa.Float()`.
pub data Kind : Type 0 where
  uuid text jsonb datetime integer float : Kind
  string : ℕ → Kind

-- `sa.Column`, and the value of each row.
pub record Column : Type 0 where
  pub name : String
  pub kind : Kind
  pub nullable : Bool
  pub server_default : Option String
  pub stored : List (Option String)

-- A foreign key to the column `id`, the primary key, of another table.
pub record ForeignKey : Type 0 where
  pub name : Option String
  pub column : String
  pub target : String
  pub cascade : Bool

-- A unique constraint or an index, of one column. A constraint may have no name of its own.
pub record Named : Type 0 where
  pub name : Option String
  pub column : String

pub record Table : Type 0 where
  pub name : String
  pub columns : List Column
  pub primary_key : Option String
  pub uniques : List Named
  pub foreign_keys : List ForeignKey
  pub indexes : List Named
  pub rows : ℕ

abbrev pub Schema : Type 0
Schema = List Table

-- What the migrations call of `op`.
pub data Op : Type 0 where
  create_table : Table → Op
  drop_table : String → Op
  add_column : String → Column → Op
  drop_column : String → String → Op
  alter_column : String → String → Bool → Op
  create_index : String → String → String → Op
  drop_index : String → String → Op
  create_unique_constraint : String → String → String → Op
  create_foreign_key : String → ForeignKey → Op
  drop_constraint : String → String → Op
  truncate : List String → Op

-- n copies
abbrev pub copies {ℓ} : {A : Type ℓ} → ℕ → A → List A
copies zero a = []
copies (suc n) a = a ∷ copies n a

-- `a in xs`
abbrev pub among : String → List String → Bool
among a [] = false
among a (x ∷ xs) = x == a || among a xs

module _ {A : Type 0} (name_of : A → String) where
  -- a change of the item with a name, which must be there
  abbrev pub modify : String → (A → Option A) → List A → Option (List A)
  modify n f [] = none
  modify n f (x ∷ xs) =
      let rest = modify n f xs in
      if name_of x == n
      then elim (f x) [ none ↦ none | some y ↦ some (y ∷ xs) ]
      else elim rest [ none ↦ none | some ys ↦ some (x ∷ ys) ]

abbrev pub table_name : Table → String
table_name t = t.name

abbrev pub column_name : Column → String
column_name c = c.name

abbrev pub is_named : String → Named → Bool
is_named n x = elim x.name [ none ↦ false | some m ↦ m == n ]

abbrev pub has_key : String → ForeignKey → Bool
has_key n x = elim x.name [ none ↦ false | some m ↦ m == n ]

-- the values of the column `id` of a table, which a foreign key can refer to if it is the primary key
abbrev pub ids_of : String → Schema → Option (List String)
ids_of target s = elim (find (λ (t : Table). t.name == target) s) [
  | none ↦ none
  | some t ↦ elim (find (λ (c : Column). c.name == "id") t.columns) [
    | none ↦ none
    | some c ↦ if option_is t.primary_key "id" then some (values (λ v. v) c.stored) else none
  ]
]

-- every value of a column that is not NULL is an id of the target
abbrev pub refers_to : Table → ForeignKey → List String → Bool
refers_to t k ids = elim (find (λ (c : Column). c.name == k.column) t.columns) [
  | none ↦ false
  | some c ↦ every (λ v. among v ids) (values (λ v. v) c.stored)
]

-- `ALTER TABLE … ADD COLUMN`: a NOT NULL column with no default is refused on a table with rows.
abbrev pub add_column_to : Column → Table → Option Table
add_column_to c t =
    if not (is_none (find (λ (x : Column). x.name == c.name) t.columns))
      || (not c.nullable && is_none c.server_default && not (nat_beq t.rows 0))
    then none
    else some (record t {
      columns = t.columns ++ (record c { stored = copies t.rows c.server_default } ∷ []);
    })

-- `DROP COLUMN`: with the indexes and constraints of the column
abbrev pub drop_column_of : String → Table → Option Table
drop_column_of n t =
    if is_none (find (λ (x : Column). x.name == n) t.columns)
    then none
    else some (record t {
      columns = select (λ (x : Column). not (x.name == n)) t.columns;
      primary_key = if option_is t.primary_key n then none else t.primary_key;
      uniques = select (λ (x : Named). not (x.column == n)) t.uniques;
      foreign_keys = select (λ (x : ForeignKey). not (x.column == n)) t.foreign_keys;
      indexes = select (λ (x : Named). not (x.column == n)) t.indexes;
    })

-- `SET NOT NULL` is refused if a row has NULL.
abbrev pub set_nullable : Bool → Column → Option Column
set_nullable b c =
    if b || every (λ v. not (is_none v)) c.stored then some (record c { nullable = b }) else none

abbrev pub add_unique_to : String → String → Table → Option Table
add_unique_to n column t = elim (find (λ (x : Column). x.name == column) t.columns) [
  | none ↦ none
  | some c ↦
      if distinct (values (λ v. v) c.stored) && is_none (find (is_named n) t.uniques)
      then some
          (record t { uniques = t.uniques ++ (record { name = some n; column = column } ∷ []) })
      else none
]

abbrev pub add_index_to : String → String → Table → Option Table
add_index_to n column t =
    if is_none (find (λ (x : Column). x.name == column) t.columns)
      || not (is_none (find (is_named n) t.indexes))
    then none
    else some (record t { indexes = t.indexes ++ (record { name = some n; column = column } ∷ []) })

abbrev pub drop_index_of : String → Table → Option Table
drop_index_of n t =
    if is_none (find (is_named n) t.indexes)
    then none
    else some (record t { indexes = select (λ x. not (is_named n x)) t.indexes })

abbrev pub drop_constraint_of : String → Table → Option Table
drop_constraint_of n t =
    if is_none (find (is_named n) t.uniques) && is_none (find (has_key n) t.foreign_keys)
    then none
    else some (record t {
      uniques = select (λ x. not (is_named n x)) t.uniques;
      foreign_keys = select (λ x. not (has_key n x)) t.foreign_keys;
    })

abbrev pub emptied_column : Column → Column
emptied_column c = record c { stored = [] }

-- a table without its rows
abbrev pub emptied : Table → Table
emptied t = record t { columns = map emptied_column t.columns; rows = 0 }

-- no table outside of the list refers to one of the list
abbrev pub truncatable : List String → Schema → Bool
truncatable ns s =
    every
      (λ (t : Table).
        among t.name ns || every (λ (k : ForeignKey). not (among k.target ns)) t.foreign_keys)
      s

abbrev pub apply : Op → Schema → Option Schema
apply (Op.create_table t) s =
    if is_none (find (λ (x : Table). x.name == t.name) s)
      && every (λ (k : ForeignKey). not (is_none (ids_of k.target s))) t.foreign_keys
    then some (s ++ (t ∷ []))
    else none
apply (Op.drop_table n) s =
    if is_none (find (λ (x : Table). x.name == n) s) || not (truncatable (n ∷ []) s)
    then none
    else some (select (λ (x : Table). not (x.name == n)) s)
apply (Op.add_column n c) s = modify table_name n (add_column_to c) s
apply (Op.drop_column n c) s = modify table_name n (drop_column_of c) s
apply (Op.alter_column n c nullable) s =
    modify table_name n
      (λ t. elim (modify column_name c (set_nullable nullable) t.columns) [
        | none ↦ none
        | some cs ↦ some (record t { columns = cs })
      ])
      s
apply (Op.create_index n table column) s = modify table_name table (add_index_to n column) s
apply (Op.drop_index n table) s = modify table_name table (drop_index_of n) s
apply (Op.create_unique_constraint n table column) s =
    modify table_name table (add_unique_to n column) s
apply (Op.create_foreign_key table k) s = elim (ids_of k.target s) [
  | none ↦ none
  | some ids ↦
      modify table_name table
        (λ t.
          if refers_to t k ids
          then some (record t { foreign_keys = t.foreign_keys ++ (k ∷ []) })
          else none)
        s
]
apply (Op.drop_constraint n table) s = modify table_name table (drop_constraint_of n) s
apply (Op.truncate ns) s =
    if truncatable ns s then some (map (λ t. if among t.name ns then emptied t else t) s) else none

-- The operations of a migration, in one transaction.
abbrev pub run : List Op → Schema → Option Schema
run [] s = some s
run (o ∷ os) s = elim (apply o s) [ none ↦ none | some s' ↦ run os s' ]
