-- ===== src/Tests/Running.antt =====
-- A server on which a URL is posted, and one that a request ends.
use shadyurl.Common.{
  ◌≡◌, ◌↔◌, refl, true, false, none, some, List, [], ◌∷◌, ◌++◌, codes, c_str, lookup, insert,
  bytes_eq, find, count, starts_with, contains,
}
use shadyurl.Boost.Split.{split_on}
use shadyurl.ParseQs.{parse_qsl, store_all, store}
use shadyurl.Generate.{
  generate_random_filename, parts, next_part, wants_random, last_parts, generate_randstr,
  randstr_from,
}
use shadyurl.Generate.Entropy.{bind}
use shadyurl.Http.{post, Request, Response, redirect_permanent, ok_string}
use shadyurl.Regex.{full_match}
use shadyurl.Routes.{select, illegal}
use shadyurl.Session.{Session, on_request, on_written, writes, read, write, step}
use shadyurl.Session.Order.{behind}
use shadyurl.Network.{
  plain, serving, on_run, on_detect, in_session, ServerEvent, on_accept, at, server_step,
}
use shadyurl.Handlers.{
  sent, handle_request, handle_post_outcome, handle_get_url_response, shorten, store_url,
  finish_post, valid_url,
}
use shadyurl.Handlers.Form.{extract_url}
use shadyurl.Handlers.Effects.{World}
use shadyurl.Store.{view}
use shadyurl.Store.Location.{location_of}
use shadyurl.Store.Refined.{view_of, IsSafe}
use shadyurl.Server.{Server, running, terminated, io_run, booted}
use shadyurl.Server.Durable.{io_run-redirects, io_run-location}
use shadyurl.Server.Crash.{IsKilled, io_run-terminated_iff}
use shadyurl.Server.Answers.{All2, IsAnswer, own, io_run-answers}
use shadyurl.Tests.Setup.{env, state, fresh, put_row, get_row}
use shadyurl.Tests.Requests.{
  submit, follow, ask, the_url, the_token, row, ampersands, the_token-IsToken,
}

abbrev connect : List (ServerEvent Request)
connect = on_accept false ∷ at 0 on_run ∷ at 0 (on_detect false (codes "POST") false) ∷ []

abbrev day : List (ServerEvent Request)
day = connect ++ at 0 (in_session (on_request submit)) ∷ at 0 (in_session (on_written false)) ∷ []

abbrev pub after_post : World env
after_post = record { db = row; rng = 0 }

abbrev thanks : Response
thanks = ok_string (codes "Boost.Beast") submit (codes "done")

abbrev visit : Session Response
visit = record { items = []; reading = true; writing = none; log = read ∷ write thanks ∷ read ∷ [] }

abbrev pub open_server : Server env
open_server = record {
  world = after_post;
  sockets = record {
    accepting = true;
    connections = record { stage = serving plain visit; buffer = codes "POST" } ∷ [];
  };
}

day-run : io_run env state day (booted fresh) ≡ running open_server
unfolding io_run handle_request handle_post_outcome shorten store_url finish_post extract_url
    parse_qsl store_all store split_on count bytes_eq lookup insert find generate_random_filename
    parts next_part wants_random last_parts generate_randstr randstr_from bind full_match select
    illegal contains starts_with c_str valid_url put_row server_step step
day-run = refl

refused-run : io_run env state (on_accept true ∷ []) open_server ≡ running open_server
unfolding io_run server_step
refused-run = refl

stored : view_of env state after_post.db the_token ≡ some the_url
unfolding view get_row lookup bytes_eq c_str
stored = refl

io_run-redirects_example :
    handle_request env state follow after_post
    ≡ sent (redirect_permanent (codes "Boost.Beast") follow the_url) after_post
io_run-redirects_example =
    io_run-redirects env state (on_accept true ∷ []) open_server open_server the_token the_url
      follow refused-run the_token-IsToken stored refl refl refl refl

empty-IsSafe : IsSafe (view_of env state fresh.db)
unfolding view get_row lookup
empty-IsSafe t u h = cc

followed : location_of (handle_request env state follow after_post) ≡ some the_url
unfolding handle_request handle_get_url_response illegal select full_match contains starts_with
    get_row lookup bytes_eq c_str
followed = refl

io_run-location_example : valid_url the_url ≡ true
io_run-location_example =
    io_run-location env state day (booted fresh) open_server follow the_url empty-IsSafe day-run
      followed

abbrev attack : List (ServerEvent Request)
attack =
    connect ++ at 0 (in_session (on_request (ask post (codes "/post.html") (ampersands 1001)))) ∷ []

io_run-terminated_iff_example :
    (io_run env state attack (booted fresh) ≡ terminated fresh)
    ↔ IsKilled env state attack (booted fresh) fresh
io_run-terminated_iff_example = io_run-terminated_iff env state attack (booted fresh) fresh

io_run-answers_example :
    All2 (IsAnswer env state) (own 0 day) (writes visit.log ++ behind visit.items)
io_run-answers_example = io_run-answers env state day fresh open_server 0 plain visit day-run refl
