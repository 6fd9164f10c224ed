-- ===== src/Accounts/Tests.antt =====
-- Accounts with one and with three users.
use Prim.Native.String.{String}
use unopp_server.Accounts.Tables.{User, same_pair}
use unopp_server.Accounts.Users.{
  generate_sessdata, success, sessdata_invalid, log_in, log_out, authorize, new_user, set_user_name,
  get_user_info,
}
use unopp_server.Accounts.Friends.{accept_friend_request, is_row}
use unopp_server.Accounts.Friendship.{
  AreMutual, accept_friend_request-AreMutual, accept_friend_request-friends,
}
use unopp_server.Accounts.Unread.{get_friend_list}
use unopp_server.Accounts.Counters.{
  Store, Event, message, accepted, round, run, count_of, next_count, get_friend_list-run,
}
use unopp_server.Accounts.Sessions.{OnlyHas, log_in-log_out, generate_sessdata_lem}
use unopp_server.Accounts.Names.{HasUniqueNames, set_user_name-HasUniqueNames}
use unopp_server.Accounts.Samples.{
  FriendRows, relations, requests, users, UserRows, find, user_row-some,
}
use unopp_server.Prelude.{
  ◌^◌, ◌<◌, ℕ, ◌≡◌, refl, Bool, not, ◌&&◌, ◌||◌, List, [], ◌∷◌, none, some, if◌then◌else◌, arith,
  get_elem?,
}

abbrev size : String → ℕ
size s = 5

abbrev ann : User
ann = record { id = 0; user_name = "ann"; password = "secret"; sessdata = none; slogan = none }

abbrev one_user : UserRows
one_user = record { next = 1; at = λ x. ann }

one_user-HasUniqueNames : HasUniqueNames users one_user
one_user-HasUniqueNames x y u v at_x at_y same =
    let below = (user_row-some one_user x u at_x).0 in
    let other = (user_row-some one_user y v at_y).0 in omega arith

set_user_name-HasUniqueNames_example :
    HasUniqueNames users (new_user users size "bob" "word" one_user).1
    × HasUniqueNames users (set_user_name users 0 "bob" one_user).1
set_user_name-HasUniqueNames_example =
    set_user_name-HasUniqueNames users size "bob" "word" 0 one_user one_user-HasUniqueNames

abbrev fresh : String → ℕ
fresh name = 77

only_ann : OnlyHas users one_user 77 0
only_ann x w at its = let below = (user_row-some one_user x w at).0 in omega arith

log_in-log_out_example :
    let login = log_in users "ann" "secret" fresh one_user in
    let logout = log_out users 77 login.1 in
    (login.0.result ≡ success)
    × (login.0.sessdata ≡ some 77)
    × (authorize users 77 login.1 ≡ (success, some (0, "ann")))
    × (logout.0 ≡ success)
    × (authorize users 77 logout.1 ≡ (sessdata_invalid, none))
unfolding find
log_in-log_out_example = log_in-log_out users one_user ann "ann" "secret" fresh refl refl only_ann

-- Nobody is a friend yet, and 2 has asked 1.
abbrev strangers : FriendRows
strangers = record { bound = 0; at = λ x y. none }

abbrev asked : ℕ → ℕ → Bool
asked x y = same_pair 2 1 x y

accept_friend_request-friends_example :
    let done = accept_friend_request requests relations 1 2 strangers asked in
    (done.0 ≡ success)
    × ((x y : ℕ)
        → is_row (relations.unread done.1 x y)
          ≡ same_pair 1 2 x y || same_pair 2 1 x y || is_row (relations.unread strangers x y))
    × ((x y : ℕ) → done.2 x y ≡ not (same_pair 1 2 x y || same_pair 2 1 x y) && asked x y)
accept_friend_request-friends_example =
    accept_friend_request-friends relations requests 1 2 strangers asked (λ x y. ground arith)
      (omega arith) refl

accept_friend_request-AreMutual_example :
    AreMutual relations (accept_friend_request requests relations 1 2 strangers asked).1
accept_friend_request-AreMutual_example =
    accept_friend_request-AreMutual relations requests 1 2 strangers asked (λ x y. ground arith)

-- 1 and 2 are friends, and 1 has not read three messages.
abbrev friends : FriendRows
friends = record {
  bound = 3;
  at = λ x y. if same_pair 1 2 x y then some 3 else if same_pair 2 1 x y then some 0 else none;
}

abbrev morning : Store relations requests
morning = record { rows = friends; asked = asked; cache = [] }

abbrev three_users : UserRows
three_users = record { next = 4; at = λ x. ann }

abbrev day : List Event
day = message 1 2 ∷ round ∷ message 1 2 ∷ accepted 1 3 ∷ message 2 1 ∷ []

get_friend_list-run_example :
    let end = run relations requests day morning in
    (i : ℕ) × (get_elem? (get_friend_list relations users 1 three_users end.rows end.cache) i
      ≡ some (get_user_info users 2 three_users, count_of 1 2 day 3))
get_friend_list-run_example =
    get_friend_list-run relations requests users day morning three_users 1 2 3 refl refl

-- Two messages more.
count_of_test : count_of 1 2 day 3 ≡ 5
unfolding count_of next_count
count_of_test = refl

generate_sessdata_lem_example :
    (generate_sessdata 5 7 1000 < 2 ^ 32)
    × (generate_sessdata 5 7 1000 ≡ generate_sessdata 65536 12 1000)
generate_sessdata_lem_example = generate_sessdata_lem 5 7 65536 12 1000 refl
