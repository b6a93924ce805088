-- ===== src/Tests/Setup.antt =====
-- Concrete stand-ins for the code that is not in the repository.
use shadyurl.Common.{
  ℕ, ◌^◌, ◌≤◌, ◌<◌, ◌≡◌, ◌≢◌, true, none, some, [], ◌∷◌, Bytes, codes, if◌then◌else◌, arith, Dict,
  lookup, insert, lookup-insert, bytes_eq_iff, bytes_eq_refl,
}
use shadyurl.Boost.Reference.{reference}
use shadyurl.Generate.Entropy.{Random}
use shadyurl.Sqlite.{Sqlite, Sql}
use shadyurl.Mime.{MimeTypeMap}
use shadyurl.ServerState.{TomlTable, ServerState}
use shadyurl.Handlers.Effects.{Env, World, opened, page}

pub least_range : (lo hi st : ℕ) → lo ≤ hi → (lo ≤ lo) × (lo ≤ hi)
least_range lo hi st h = omega arith

-- Every draw gives the least number of its range.
abbrev pub least : Random
least = record { State = ℕ; uniform = λ lo hi st. (lo, st); uniform_range = least_range }

abbrev pub Rows : Type 0
Rows = Dict Bytes

-- One table, with unique tokens.
unfoldable pub put_row : Rows → Bytes → Bytes → ℕ × Rows
put_row db t u = elim (lookup t db) [ some _ ↦ (19, db) | none ↦ (101, insert t u db) ]

unfoldable pub get_row : Rows → Bytes → ℕ × Bytes
get_row db t = elim (lookup t db) [ some u ↦ (100, u) | none ↦ (101, []) ]

pub get-put :
    (db db' : Rows) (path t u : Bytes) → put_row db t u ≡ (101, db') → get_row db' t ≡ (100, u)
unfolding put_row get_row
get-put db db' path t u h = ground (arith, lookup-insert t t u db, bytes_eq_refl t)

pub get-put_other :
    (db db' : Rows) (path t t' u : Bytes)
    → put_row db t u ≡ (101, db')
    → t' ≢ t
    → get_row db' t' ≡ get_row db t'
unfolding put_row get_row
get-put_other db db' path t t' u h n = ground (arith, lookup-insert t t' u db, bytes_eq_iff t t')

pub put_row_taken :
    (db : Rows) (path t u : Bytes) → (get_row db t).0 ≡ 100 → (put_row db t u).0 ≢ 101
unfolding put_row get_row
put_row_taken db path t u h = ground arith

pub put_row_failed :
    (db : Rows) (path t u : Bytes) → (put_row db t u).0 ≢ 101 → (put_row db t u).1 ≡ db
unfolding put_row
put_row_failed db path t u h = ground arith

pub prepare_lem : (db : Rows) (path : Bytes) (sql : Sql) → ◌≢◌ {A = ℕ} 21 0
prepare_lem db path sql = omega arith

abbrev pub rows : Sqlite
rows = record {
  Db = Rows;
  opens = λ db path. true;
  prepare = λ db path handle sql. if handle then 0 else 21;
  bind_text = λ db path t. 0;
  errmsg = λ db path handle. codes "error";
  step_insert = λ db path t u. put_row db t u;
  step_select = λ db path t. get_row db t;
  prepare_null = prepare_lem;
  select_inserted = get-put;
  select_other = get-put_other;
  insert_taken = put_row_taken;
  insert_failed = put_row_failed;
}

abbrev pub env : Env
env = record {
  algo = reference;
  random = least;
  sqlite = rows;
  server = codes "Boost.Beast";
  open_file = λ path. opened 5;
  render = λ path host given. page (codes "done");
  parser_execute = λ boundary body. [];
}

pub no_number : (b : ℕ) (s k : Bytes) (n : ℕ) → none ≡ some n → n < b
no_number b s k n h = cc

-- A configuration file that says nothing.
abbrev pub no_table : TomlTable
no_table = record {
  uint32 = λ s k. none;
  uint32_range = no_number (2 ^ 32);
  uint16 = λ s k. none;
  uint16_range = no_number (2 ^ 16);
  bool = λ s k. none;
  string = λ s k. none;
}

abbrev pub table : MimeTypeMap
table = record {
  mimetypes =
      (codes "gz", codes "application/x-gzip") ∷ (codes "tar.gz", codes "application/x-tgz") ∷ [];
  mimetypes_file = codes "mimetypes.txt";
  default_mimetype = codes "application/octet-stream";
}

abbrev pub state : ServerState
state = record { tbl = no_table; mtm = table }

abbrev pub fresh : World env
fresh = record { db = []; rng = 0 }
