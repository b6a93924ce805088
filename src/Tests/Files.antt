-- ===== src/Tests/Files.antt =====
-- A file that is asked for by HEAD, and a file of MIME types.
use shadyurl.Common.{
  ◌≡◌, refl, false, [], ◌∷◌, codes, contains, starts_with, arith, some, List, Bytes,
}
use shadyurl.Common.Result.{ok}
use shadyurl.Regex.{full_match}
use shadyurl.Routes.{handle_file, routes, select, illegal}
use shadyurl.Http.{get, Request}
use shadyurl.Handlers.{sent, handle_request, handle_file_response}
use shadyurl.Handlers.Files.{bodyless, with_head, with_get, handle_request-head}
use shadyurl.Handlers.Builders.{Answered}
use shadyurl.Handlers.Formed.{IsFormed, handle_request-IsFormed}
use shadyurl.Mime.{text, make_mime_type_map}
use shadyurl.Mime.Format.{printed, insert_all, make_mime_type_map-printed}
use shadyurl.Tests.Setup.{env, state, fresh}
use shadyurl.Tests.Requests.{ask}

abbrev pub style : Request
style = ask get (codes "/assets/a.css") []

style_route : illegal style.target ≡ false
unfolding illegal contains starts_with
style_route = refl

style_chosen : select routes style.target ≡ some handle_file
unfolding select full_match
style_chosen = refl

handle_request-head_example :
    (handle_request env state (with_get style) fresh
      ≡ sent (handle_file_response env state (with_get style)) fresh)
    × (handle_request env state (with_head style) fresh
        ≡ sent (bodyless (handle_file_response env state (with_get style))) fresh)
handle_request-head_example = handle_request-head env state style fresh style_route style_chosen

abbrev types : List (Bytes × Bytes)
types = (codes "css", codes "text/css") ∷ (codes "js", codes "text/js") ∷ []

make_mime_type_map-printed_example :
    make_mime_type_map (λ file. text (printed b'\t' types) false) (codes "m") (codes "d")
    ≡ ok (record {
      mimetypes = insert_all types [];
      mimetypes_file = codes "m";
      default_mimetype = codes "d";
    })
make_mime_type_map-printed_example =
    make_mime_type_map-printed (λ file. text (printed b'\t' types) false) (codes "m") (codes "d")
      b'\t' types refl (omega arith) (ground arith) refl

handle_request-IsFormed_example :
    Answered (IsFormed env style) (handle_request env state style fresh)
handle_request-IsFormed_example = handle_request-IsFormed env state style fresh
