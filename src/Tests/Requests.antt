-- ===== src/Tests/Requests.antt =====
-- A URL is posted and asked for; a body with too many parameters; the routes.
use shadyurl.Common.{
  ℕ, zero, suc, ◌≡◌, refl, true, false, some, [], ◌∷◌, Bytes, codes, arith, Lacks, lookup, insert,
  bytes_eq, find, count, contains, starts_with, c_str,
}
use shadyurl.Common.Result.{ok}
use shadyurl.Boost.Reference.{reference}
use shadyurl.Boost.Split.{split_on}
use shadyurl.ParseQs.{parse_qsl, store_all, store}
use shadyurl.Generate.{
  generate_random_filename, parts, next_part, wants_random, last_parts, generate_randstr,
  randstr_from,
}
use shadyurl.Generate.Entropy.{bind, Produces}
use shadyurl.Generate.Bounds.{IsToken, generate_random_filename-IsToken}
use shadyurl.Http.{Verb, get, post, Request, redirect_permanent, ok_string, server_error}
use shadyurl.Regex.{full_match}
use shadyurl.Handlers.Effects.{World}
use shadyurl.Routes.{routes, select, illegal, handle_get_url}
use shadyurl.Routes.Table.{Chosen, select-Chosen}
use shadyurl.Routes.Tokens.{token-route}
use shadyurl.Handlers.{
  sent, handle_request, valid_url, handle_post_outcome, shorten, store_url, finish_post,
}
use shadyurl.Handlers.Form.{url, extract_url}
use shadyurl.Store.Refined.{view_of, Refines, handle_request-Refines}
use shadyurl.Store.Lasting.{at_once, then_request, get-post}
use shadyurl.Handlers.Statuses.{Tells, handle_request-Tells}
use shadyurl.Handlers.Posting.{
  Accounted, Explained, handle_request-Accounted, handle_request-Explained,
}
use shadyurl.Tests.Setup.{least, env, state, fresh, put_row, Rows}

abbrev pub ask : Verb → Bytes → Bytes → Request
ask method target body = record {
  method = method;
  version = 11;
  target = target;
  keep_alive = true;
  content_type = codes "application/x-www-form-urlencoded";
  body = body;
}

abbrev pub the_url : Bytes
the_url = codes "http://a.b/c"

abbrev pub submit : Request
submit = ask post (codes "/post.html") (codes "url=http%3A%2f%2Fa.b/c")

abbrev pub the_token : Bytes
the_token = codes "aaaaaa-aaaaaa-aaaaaa-419-scam-419-scam.avi"

abbrev pub follow : Request
follow = ask get (b'/' ∷ the_token) []

pub drawn : generate_random_filename least reference 0 ≡ some (the_token, 0)
unfolding generate_random_filename parts next_part wants_random last_parts generate_randstr
    randstr_from bind
drawn = refl

pub extracted : extract_url env submit.content_type submit.body ≡ ok (url the_url)
unfolding extract_url parse_qsl store_all store split_on count bytes_eq lookup find
extracted = refl

pub valid : valid_url the_url ≡ true
unfolding valid_url
valid = refl

abbrev pub row : Rows
row = (the_token, the_url) ∷ []

pub inserted : put_row [] the_token the_url ≡ (101, row)
unfolding put_row lookup insert
inserted = refl

abbrev stored_row : World env
stored_row = record { db = row; rng = 0 }

-- The same form comes in again, and draws the same token.
second_time :
    handle_request env state submit stored_row
    ≡ sent (server_error (codes "Boost.Beast") submit (codes "SQL error: error")) stored_row
unfolding handle_request handle_post_outcome shorten store_url finish_post extract_url parse_qsl
    store_all store split_on count bytes_eq lookup insert find generate_random_filename parts
    next_part wants_random last_parts generate_randstr randstr_from bind full_match select illegal
    contains starts_with c_str valid_url put_row
second_time = refl

get-post_example :
    (handle_request env state submit fresh
      ≡ sent (ok_string (codes "Boost.Beast") submit (codes "done")) stored_row)
    × (handle_request env state follow stored_row
        ≡ sent (redirect_permanent (codes "Boost.Beast") follow the_url) stored_row)
get-post_example =
    get-post env state submit follow fresh stored_row the_url the_token 0 row refl refl extracted
      valid (omega arith) drawn refl inserted
      (then_request submit (server_error (codes "Boost.Beast") submit (codes "SQL error: error"))
        at_once second_time)
      refl refl refl refl

handle_request-Accounted_example :
    Accounted env state submit fresh (handle_request env state submit fresh)
handle_request-Accounted_example = handle_request-Accounted env state submit fresh

handle_request-Refines_example :
    Refines env state (view_of env state fresh.db) (handle_request env state submit fresh)
handle_request-Refines_example = handle_request-Refines env state submit fresh

abbrev pub ampersands : ℕ → Bytes
ampersands zero = []
ampersands (suc n) = b'&' ∷ ampersands n

handle_request-Explained_example :
    Explained env state
      (ask post (codes "/post.html") (ampersands 1001))
      fresh
      (handle_request env state (ask post (codes "/post.html") (ampersands 1001)) fresh)
handle_request-Explained_example =
    handle_request-Explained env state (ask post (codes "/post.html") (ampersands 1001)) fresh

pub the_token-IsToken : IsToken the_token
the_token-IsToken = record {
  stem =
      codes "aaaaaa" ∷ codes "aaaaaa" ∷ codes "aaaaaa" ∷ codes "419-scam" ∷ codes "419-scam" ∷ [];
  index = 0;
  spelled = refl;
  names = ground arith;
  enough = omega arith;
  few = omega arith;
  listed = omega arith;
}

token-route_example :
    (illegal (b'/' ∷ the_token) ≡ false)
    × (select routes (b'/' ∷ the_token) ≡ some handle_get_url)
    × Lacks 0 the_token
token-route_example = token-route the_token the_token-IsToken

generate_random_filename-IsToken_example :
    Produces least IsToken (generate_random_filename least reference)
generate_random_filename-IsToken_example = generate_random_filename-IsToken least reference

select-Chosen_example : Chosen (select routes (codes "/assets/a.css")) (codes "assets/a.css")
select-Chosen_example = select-Chosen (codes "assets/a.css")

handle_request-Tells_example : Tells env state submit [] (handle_request env state submit fresh)
handle_request-Tells_example = handle_request-Tells env state submit fresh refl
