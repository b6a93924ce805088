-- ===== src/Tests/Shortening.antt =====
-- A form comes in on a connection, and its token is asked for when the response is out.
use shadyurl.Common.{
  ◌≡◌, refl, true, false, none, some, List, [], ◌∷◌, Bytes, codes, arith, lookup, insert, bytes_eq,
  find, count, starts_with, contains, c_str,
}
use shadyurl.Boost.Split.{split_on}
use shadyurl.ParseQs.{parse_qsl, store_all, store}
use shadyurl.ParseQs.Query.{IsForm, encoded_as, end_of_form, last_value}
use shadyurl.ParseQs.Unquote.{hex_digit, as_digits}
use shadyurl.Generate.{
  generate_random_filename, parts, next_part, wants_random, last_parts, generate_randstr,
  randstr_from,
}
use shadyurl.Generate.Entropy.{bind}
use shadyurl.Http.{Request, redirect_permanent}
use shadyurl.Regex.{full_match}
use shadyurl.Routes.{select, illegal}
use shadyurl.Session.{on_request, on_written, read, step}
use shadyurl.Network.{plain, serving, in_session, ServerEvent, at, server_step}
use shadyurl.Handlers.{
  sent, handle_request, handle_post_outcome, shorten, store_url, finish_post, valid_url,
}
use shadyurl.Handlers.Form.{extract_url}
use shadyurl.Server.{Server, running, io_run}
use shadyurl.Server.Shortened.{io_run-shortened}
use shadyurl.Tests.Setup.{env, state, fresh, put_row}
use shadyurl.Tests.Text.{plain_byte, plain_text}
use shadyurl.Tests.Requests.{submit, follow, the_url, the_token, drawn, valid, inserted}
use shadyurl.Tests.Running.{open_server, after_post}

abbrev form : List (Bytes × Bytes)
form = (codes "url", the_url) ∷ []

-- The form is encoded with digits in both cases.
submit-IsForm : IsForm form submit.body
unfolding hex_digit
submit-IsForm =
    let host =
      as_digits b'/' true true (omega arith)
        (plain_text (codes "a.b/c") (refl, (refl, (refl, (refl, (refl, tt)))))) in
    let colon =
      as_digits b':' true true (omega arith) (as_digits b'/' true false (omega arith) host) in
    let p = plain_byte b'p' refl colon in
    let t = plain_byte b't' refl (plain_byte b't' refl p) in
    (
      codes "url=http%3A%2f%2Fa.b/c" ∷ [],
      encoded_as (plain_text (codes "url") (refl, (refl, (refl, tt)))) (plain_byte b'h' refl t)
          end_of_form,
      refl,
    )

abbrev ready_server : Server env
ready_server = record {
  world = fresh;
  sockets = record {
    accepting = true;
    connections =
        record {
          stage =
              serving plain
                (record { items = []; reading = true; writing = none; log = read ∷ [] });
          buffer = codes "POST";
        }
        ∷ [];
  };
}

abbrev sent_out : List (ServerEvent Request)
sent_out = at 0 (in_session (on_written false)) ∷ []

submitted-run :
    io_run env state (at 0 (in_session (on_request submit)) ∷ sent_out) ready_server
    ≡ running open_server
unfolding io_run handle_request handle_post_outcome shorten store_url finish_post extract_url
    parse_qsl store_all store split_on count bytes_eq lookup insert find generate_random_filename
    parts next_part wants_random last_parts generate_randstr randstr_from bind full_match select
    illegal contains starts_with c_str valid_url put_row server_step step
submitted-run = refl

last : last_value (codes "url") form ≡ some the_url
unfolding bytes_eq
last = refl

io_run-shortened_example :
    handle_request env state follow after_post
    ≡ sent (redirect_permanent (codes "Boost.Beast") follow the_url) after_post
io_run-shortened_example =
    io_run-shortened env state sent_out 0 ready_server open_server submit follow form the_url
      the_token after_post refl refl refl submit-IsForm ((λ e. cc), tt) (omega arith) last valid
      (omega arith) drawn refl inserted submitted-run refl refl refl refl
