-- ===== src/Store.antt =====
-- The table `urls` as the program sees it: a map from tokens to URLs, whatever SQLite keeps of it.
pub mod Refined
pub mod Location
pub mod Lasting
use mathlib.Core.Path.{fun_ext}
use shadyurl.Common.{
  ℕ, ◌≡◌, ◌≢◌, refl, sym, ap, ◌∙◌, Bool, true, false, Option, none, some, [], ◌∷◌, Bytes, ◌==◌,
  if◌then◌else◌, c_str, bytes_eq, bytes_eq_iff, arith, Bool-cases, inl, inr,
}
use shadyurl.Sqlite.{Sqlite, sqlite_row, sqlite_done}
use shadyurl.Handlers.{fallback_url, found_url}

-- What a token stands for.
abbrev pub View : Type 0
View = Bytes → Option Bytes

abbrev pub put : Bytes → Bytes → View → View
put token url v t = if bytes_eq t token then some url else v t

-- Where a token leads.
abbrev pub target_of : Option Bytes → Bytes
target_of none = fallback_url
target_of (some url) = url

abbrev row_url : ℕ × Bytes → Option Bytes
row_url (step, column) = if step == sqlite_row then some (c_str column) else none

module _ (sqlite : Sqlite) (path : Bytes) where
  unfoldable pub view : sqlite.Db → View
  view db token = row_url (sqlite.step_select db path token)

pub c_str_twice : (s : Bytes) → c_str (c_str s) ≡ c_str s
unfolding c_str
c_str_twice [] = refl
c_str_twice (x ∷ s) = ground (arith, c_str_twice s)

module _ (sqlite : Sqlite) (path : Bytes) where
  pub found_url-view :
      (db : sqlite.Db) (token : Bytes)
      → found_url (sqlite.step_select db path token) ≡ target_of (view sqlite path db token)
  unfolding view
  found_url-view db token = ground arith

  insert-pair :
      (db : sqlite.Db) (token url : Bytes)
      → (sqlite.step_insert db path token url).0 ≡ sqlite_done
      → sqlite.step_insert db path token url
        ≡ (sqlite_done, (sqlite.step_insert db path token url).1)
  insert-pair db token url h = λ i. (h i, (sqlite.step_insert db path token url).1)

  view-free :
      (db : sqlite.Db) (token url : Bytes)
      → (sqlite.step_insert db path token url).0 ≡ sqlite_done
      → view sqlite path db token ≡ none
  unfolding view
  view-free db token url h = ground (arith, sqlite.insert_taken db path token url)

  pub view-inserted :
      (db : sqlite.Db) (token url t : Bytes)
      → (sqlite.step_insert db path token url).0 ≡ sqlite_done
      → view sqlite path (sqlite.step_insert db path token url).1 t
        ≡ put token (c_str url) (view sqlite path db) t
  unfolding view
  view-inserted db token url t h =
      let db' = (sqlite.step_insert db path token url).1 in
      let e = insert-pair db token url h in
      ground (
        arith,
        bytes_eq_iff t token,
        sqlite.select_inserted db db' path token url e,
        sqlite.select_other db db' path token t url e,
      )

  -- A row is inserted only under a token that is free, and adds that row alone.
  pub view-insert :
      (db : sqlite.Db) (token url : Bytes)
      → (sqlite.step_insert db path token url).0 ≡ sqlite_done
      → (view sqlite path db token ≡ none)
        × (view sqlite path (sqlite.step_insert db path token url).1
            ≡ put token (c_str url) (view sqlite path db))
  view-insert db token url h =
      (view-free db token url h, fun_ext (λ t. view-inserted db token url t h))
