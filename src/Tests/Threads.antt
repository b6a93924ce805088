-- ===== src/Tests/Threads.antt =====
-- Two calls that post the same URL at once.
use shadyurl.Common.{
  ℕ, ◌≡◌, refl, some, List, [], ◌∷◌, codes, c_str, lookup, insert, bytes_eq, find, count,
  starts_with, contains, All, true,
}
use shadyurl.Boost.Split.{split_on}
use shadyurl.ParseQs.{parse_qsl, store_all, store}
use shadyurl.Generate.{
  generate_random_filename, parts, next_part, wants_random, last_parts, generate_randstr,
  randstr_from,
}
use shadyurl.Generate.Entropy.{bind}
use shadyurl.Http.{Request, server_error, ok_string, redirect_permanent}
use shadyurl.ServerState.{get_config_db_path}
use shadyurl.Regex.{full_match}
use shadyurl.Routes.{select, illegal}
use shadyurl.Handlers.{valid_url}
use shadyurl.Handlers.Form.{extract_url}
use shadyurl.Store.{view}
use shadyurl.Store.Refined.{view_of}
use shadyurl.Server.Durable.{Reach}
use shadyurl.Concurrent.{
  replied, selecting, done, proceed, Turn, goes_on, locked, interleave, proceed_at,
}
use shadyurl.Concurrent.Grows.{arrived, interleave-redirects}
use shadyurl.Concurrent.Stable.{IsStable}
use shadyurl.Concurrent.Serial.{is_done, one_by_one, endings}
use shadyurl.Concurrent.Ordered.{unlocked, interleave-one_by_one}
use shadyurl.Tests.Setup.{env, state, Rows, put_row, get_row}
use shadyurl.Tests.Requests.{submit, follow, the_url, the_token, row}

abbrev both : List (Request × ℕ)
both = (submit, 0) ∷ (submit, 0) ∷ []

-- Both draw the same token, and one of them is too late.
race : interleave env state (unlocked (0 ∷ 1 ∷ 1 ∷ 0 ∷ [])) (arrived env state both) [] ≡ (
  done (replied (server_error (codes "Boost.Beast") submit (codes "SQL error: error")))
      ∷ done (replied (ok_string (codes "Boost.Beast") submit (codes "done")))
      ∷ [],
  row,
)
unfolding interleave proceed_at extract_url parse_qsl store_all store split_on count bytes_eq lookup
    insert find generate_random_filename parts next_part wants_random last_parts generate_randstr
    randstr_from bind full_match select illegal contains starts_with c_str valid_url put_row
race = refl

known : view_of env state row (c_str the_token) ≡ some the_url
unfolding view get_row lookup bytes_eq c_str
known = refl

-- The first call meets a lock at its INSERT.
abbrev turns : List Turn
turns = goes_on 0 ∷ goes_on 1 ∷ locked 0 (codes "database is locked") ∷ goes_on 1 ∷ []

abbrev after_race : Rows
after_race = (interleave env state turns (arrived env state both) row).1

interleave-redirects_example :
    Reach (view_of env state row) (view_of env state after_race)
    × (proceed env state (selecting follow) after_race
        ≡ (done (replied (redirect_permanent (codes "Boost.Beast") follow the_url)), after_race))
interleave-redirects_example = interleave-redirects env state turns both row the_url follow known

-- The calls on the rows give the same result codes and messages before a step.
rows-IsStable : IsStable env.sqlite (c_str (get_config_db_path state))
rows-IsStable = record {
  opens = λ db db'. refl;
  prepare = λ db db' handle sql. refl;
  bind_text = λ db db' text. refl;
  unprepared = λ db db' handle sql h. refl;
  unbound = λ db db' handle text h. refl;
}

both_done :
    All
      (λ c. is_done c ≡ true)
      (interleave env state (unlocked (0 ∷ 1 ∷ 1 ∷ 0 ∷ [])) (arrived env state both) []).0
both_done = rw race (refl, (refl, tt))

interleave-one_by_one_example :
    interleave env state (unlocked (0 ∷ 1 ∷ 1 ∷ 0 ∷ [])) (arrived env state both) []
    ≡ one_by_one env state
        (endings env state (0 ∷ 1 ∷ 1 ∷ 0 ∷ []) (arrived env state both) [])
        (arrived env state both)
        []
interleave-one_by_one_example =
    interleave-one_by_one env state rows-IsStable (0 ∷ 1 ∷ 1 ∷ 0 ∷ []) both [] both_done
