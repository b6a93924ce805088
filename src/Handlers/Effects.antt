-- ===== src/Handlers/Effects.antt =====
-- What the handlers take from code that is not in the repository: Boost.StringAlgo, the random
-- numbers, SQLite, the file system (`http::file_body`), inja, and the multipart parser.
use shadyurl.Common.{ℕ, Option, List, Bytes}
use shadyurl.Boost.{StringAlgo}
use shadyurl.Generate.Entropy.{Random}
use shadyurl.Sqlite.{Sqlite}
use shadyurl.Multipart.{Event}

-- `body.open`: the size of the file, or the error.
pub data FileOpen : Type 0 where
  opened : ℕ → FileOpen
  no_such_file : FileOpen
  open_error : Bytes → FileOpen

-- `env.render(env.parse_template(path), data)`, or what the exception says.
pub data Rendered : Type 0 where
  page : Bytes → Rendered
  render_error : Bytes → Rendered

pub record Env : Type 1 where
  pub algo : StringAlgo
  pub random : Random
  pub sqlite : Sqlite
  -- BOOST_BEAST_VERSION_STRING
  pub server : Bytes
  pub open_file : Bytes → FileOpen
  -- the path, `data["hostname"]`, and `data["url"]` with `data["token"]` where they are set
  pub render : Bytes → Bytes → Option (Bytes × Bytes) → Rendered
  -- the calls that `multipart_parser_execute` makes, for a boundary and a body
  pub parser_execute : Bytes → Bytes → List Event

-- What the handlers change.
pub record World (env : Env) : Type 0 where
  pub db : env.sqlite.Db
  pub rng : env.random.State
