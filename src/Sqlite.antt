-- ===== src/Sqlite.antt =====
-- What the program takes from SQLite, which is not in the repository: the state of the database
-- files, and the calls on the table `urls` with the result codes that they return.
use shadyurl.Common.{ℕ, ◌≡◌, ◌≢◌, Bool, false, Bytes}

abbrev pub sqlite_ok : ℕ
sqlite_ok = 0

abbrev pub sqlite_row : ℕ
sqlite_row = 100

abbrev pub sqlite_done : ℕ
sqlite_done = 101

-- The two statements that the program prepares.
pub data Sql : Type 0 where
  insert_url select_url : Sql

-- A `Bool` handle is `true` for an open connection and `false` for the null pointer.
pub record Sqlite : Type 1 where
  pub Db : Type 0
  -- `sqlite3_open` returned 0
  pub opens : Db → Bytes → Bool
  -- the result of `sqlite3_prepare_v2`
  pub prepare : Db → Bytes → Bool → Sql → ℕ
  -- the result of `sqlite3_bind_text`
  pub bind_text : Db → Bytes → Bytes → ℕ
  -- `sqlite3_errmsg`
  pub errmsg : Db → Bytes → Bool → Bytes
  -- `sqlite3_step` of INSERT INTO urls (token, url), and the state behind it
  pub step_insert : Db → Bytes → Bytes → Bytes → ℕ × Db
  -- `sqlite3_step` of SELECT url FROM urls WHERE token, and the first column of the row
  pub step_select : Db → Bytes → Bytes → ℕ × Bytes
  -- a null connection is a misuse
  pub prepare_null : (db : Db) (path : Bytes) (sql : Sql) → prepare db path false sql ≢ sqlite_ok
  -- a row that was inserted is found by its token, and by no other
  pub select_inserted :
      (db db' : Db) (path t u : Bytes)
      → step_insert db path t u ≡ (sqlite_done, db')
      → step_select db' path t ≡ (sqlite_row, u)
  pub select_other :
      (db db' : Db) (path t t' u : Bytes)
      → step_insert db path t u ≡ (sqlite_done, db')
      → t' ≢ t
      → step_select db' path t' ≡ step_select db path t'
  -- the column `token` is UNIQUE
  pub insert_taken :
      (db : Db) (path t u : Bytes)
      → (step_select db path t).0 ≡ sqlite_row
      → (step_insert db path t u).0 ≢ sqlite_done
  -- a statement that fails changes nothing
  pub insert_failed :
      (db : Db) (path t u : Bytes)
      → (step_insert db path t u).0 ≢ sqlite_done
      → (step_insert db path t u).1 ≡ db
