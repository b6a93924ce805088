-- ===== src/Handlers/Files.antt =====
-- `handle_file`: HEAD against GET.
use shadyurl.Common.{◌≡◌, refl, false, some, ◌==◌, if◌then◌else◌, c_str, arith}
use shadyurl.PathUtil.{path_cat}
use shadyurl.ServerState.{ServerState, get_config_doc_root}
use shadyurl.Http.{get, head, Request, Response, empty_body}
use shadyurl.Routes.{handle_file, routes, select, illegal}
use shadyurl.Handlers.{sent, handle_request, handle_file_response}
use shadyurl.Handlers.Effects.{Env, World, FileOpen, opened, no_such_file, open_error}

-- A response of success without its body.
abbrev pub bodyless : Response → Response
bodyless res = if res.status == 200 then record res { body = empty_body } else res

abbrev pub with_head : Request → Request
with_head req = record req { method = head }

abbrev pub with_get : Request → Request
with_get req = record req { method = get }

module _ (env : Env) (state : ServerState) (req : Request) where
  head_get :
      (o : FileOpen)
      → env.open_file (c_str (path_cat (get_config_doc_root state) req.target)) ≡ o
      → handle_file_response env state (with_head req)
        ≡ bodyless (handle_file_response env state (with_get req))
  unfolding handle_file_response
  head_get (opened size) e = ground (arith, e)
  head_get no_such_file e = ground (arith, e)
  head_get (open_error message) e = ground (arith, e)

  -- For a target that the table hands to `handle_file`, HEAD is answered as GET is, with the same
  -- status and fields, but for the body of a file; the page of an error is sent with both.
  pub handle_request-head :
      (w : World env)
      → illegal req.target ≡ false
      → select routes req.target ≡ some handle_file
      → (handle_request env state (with_get req) w
          ≡ sent (handle_file_response env state (with_get req)) w)
        × (handle_request env state (with_head req) w
            ≡ sent (bodyless (handle_file_response env state (with_get req))) w)
  unfolding handle_request
  handle_request-head w legal route =
      let e =
        head_get (env.open_file (c_str (path_cat (get_config_doc_root state) req.target))) refl in
      (ground (arith, legal, route), ground (arith, legal, route, e))
