-- ===== src/Http.antt =====
-- The requests and responses of Boost.Beast, as far as the program reads and writes them, and the
-- response builders at the top of include/request.hpp.
use shadyurl.Common.{ℕ, Bool, true, false, Option, none, some, ◌++◌, Bytes, codes}
use shadyurl.PathUtil.{get_mime_type}
use shadyurl.ServerState.{ServerState}

pub data Verb : Type 0 where
  get head post other : Verb

-- `content_type` is `req["Content-Type"]`, empty where the field is absent.
pub record Request : Type 0 where
  pub method : Verb
  pub version : ℕ
  pub target : Bytes
  pub keep_alive : Bool
  pub content_type : Bytes
  pub body : Bytes

-- `http::empty_body`, `string_body` and `file_body`; a file is its path and its size.
pub data Body : Type 0 where
  empty_body : Body
  string_body : Bytes → Body
  file_body : Bytes → ℕ → Body

-- What the program sets: `none` is a field that it leaves alone, `prepared` a call of
-- `prepare_payload`.
pub record Response : Type 0 where
  pub status : ℕ
  pub version : ℕ
  pub server : Bytes
  pub content_type : Option Bytes
  pub location : Option Bytes
  pub keep_alive : Option Bool
  pub content_length : Option ℕ
  pub body : Body
  pub prepared : Bool

-- `server` is `BOOST_BEAST_VERSION_STRING`.
module _ (server : Bytes) (req : Request) where
  -- A page of text, kept alive as the request asks.
  abbrev pub text_response : ℕ → Bytes → Response
  text_response status content = record {
    status = status;
    version = req.version;
    server = server;
    content_type = some (codes "text/html");
    location = none;
    keep_alive = some req.keep_alive;
    content_length = none;
    body = string_body content;
    prepared = true;
  }

  abbrev pub bad_request : Bytes → Response
  bad_request why = text_response 400 why

  abbrev pub not_found : Bytes → Response
  not_found target =
      text_response 404 (codes "The resource '" ++ (target ++ codes "' was not found."))

  abbrev pub server_error : Bytes → Response
  server_error what = text_response 500 (codes "An error occurred: '" ++ (what ++ codes "'"))

  abbrev pub ok_string : Bytes → Response
  ok_string content = text_response 200 content

  abbrev pub redirect_permanent : Bytes → Response
  redirect_permanent url = record {
    status = 301;
    version = req.version;
    server = server;
    content_type = none;
    location = some url;
    keep_alive = none;
    content_length = none;
    body = empty_body;
    prepared = true;
  }

  -- `ok_head_file` and `ok_get_file` differ in the body alone.
  abbrev file_response : Bytes → ℕ → ServerState → Body → Response
  file_response path size state content = record {
    status = 200;
    version = req.version;
    server = server;
    content_type = some (get_mime_type path state.mtm);
    location = none;
    keep_alive = some req.keep_alive;
    content_length = some size;
    body = content;
    prepared = false;
  }

  abbrev pub ok_head_file : Bytes → ℕ → ServerState → Response
  ok_head_file path size state = file_response path size state empty_body

  abbrev pub ok_get_file : Bytes → ℕ → ServerState → Response
  ok_get_file path size state = file_response path size state (file_body path size)
