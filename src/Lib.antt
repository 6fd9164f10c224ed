-- ===== src/Lib.antt =====
-- The board games that this server plays, UNO, Splendor and Gomoku, their rooms, the accounts and the
-- chat.
--
-- The server accepts WebSocket connections (src/WsServer.hpp), keeps rooms (src/RoomManager.hpp,
-- src/Room.hpp and one room class for each game), and hands each message about a game to an object
-- with the rules: Uno (src/Uno.hpp), Splendor (src/Splendor.hpp) or Gomoku (src/Gomoku.hpp). Accounts
-- and chat lie in SQLite (src/Authorizer.hpp, src/ChatHistory.hpp), and src/HttpServer.hpp serves
-- them. This library models the objects with the rules, the rooms, the accounts, the chat and the
-- two servers.
--
-- Prelude: Boolean tests, lists over the native numbers, integers, partial code, shuffles.
--   A function that the C++ leaves undefined somewhere (an empty queue, a remainder by 0, a write past
--   an array) returns an Option, and `none` stands for that. `Ensures P m` says that whatever m
--   returns meets P, and `Defined m` that it returns.
--
-- Uno: the class Uno.
--   Uno/Card.antt: cards, and their coding as integers in src/UnoRoom.hpp (card_2_int, int_2_card).
--   Uno/State.antt: the members, Player, give, next, last_player_idx, check_winner and the getters.
--   Uno/Start.antt: the constructor (new_game) and init.
--   Uno/Rules.antt: play, draw_one, skip_after_drawing_one, say_uno, suspect, dissuspect. Each takes
--   the state and returns the value of the C++ function with the new state.
--   Uno/Turn.antt, Conservation, Moves, Drawing, Laying, TurnOrder, Opening, Following, Suspicion,
--   Seats and Game hold the proofs, and Uno/Tests.antt concrete games.
--
-- Splendor: the class Splendor.
--   Splendor/Defs.antt: Mine, Coupon, Ally, Player and the members. An array indexed by Mine is a
--   function; the unordered_map of players is a list in its iteration order.
--   Splendor/Tables.antt and Setup.antt: the constructor (new_game).
--   Splendor/Moves.antt: take_3_mines, take_2_mines, reserve_coupon, return_mine, fill_coupon.
--   Splendor/Buying.antt: buy_coupon, buy_reserved_coupon, check_affordabillity, check_ally,
--   check_winner.
--   Splendor/Sums.antt, Replies, Supply, Payment, SettingUp, Seating, Game, Turns, TurnMoves, OneTurn,
--   Totals, Limit, TenMoves, TenMines, Covered, Affording, Solvent, CoverMoves and Solvency hold the
--   proofs, and Splendor/Tests.antt concrete games.
--
-- Gomoku: the class Gomoku.
--   Gomoku/Board.antt: the board and the loops over its places. Gomoku/Rules.antt: the members, drop,
--   update, clear, enable_ai. Gomoku/Scores.antt: point_score. Gomoku/Search.antt: situation,
--   is_nearby, search_max and search_min as one function by the levels left, AIDrop.
--   Gomoku/Restoring.antt, Fives, Update and Turns hold the proofs, and Gomoku/Tests.antt concrete
--   games.
--
-- Room: the rooms, classes Room, UnoRoom, SplendorRoom, GomokuRoom and RoomManager.
--   Room/Members.antt: the state of a room, joining, preparing, leaving, and the table user_2_room_id.
--   Room/Messages.antt: process_message and process_close of Room with what they send.
--   Room/UnoRoom.antt, SplendorRoom and GomokuRoom: process_message and on_everyone_prepared of the
--   rooms with games. They hand the moves to the objects with the rules.
--   Room/Manager.antt: RoomManager. It lends the static table user_2_room_id to the room at work.
--   Room/Visits.antt, Seats, UnoTable, UnoCalls, UnoStart, Starts, Creation, Refusals and Sweeps hold
--   the proofs, and Room/Tests.antt, TableTests and RefusalTests concrete rooms.
--
-- Accounts: the class Authorizer.
--   Accounts/Tables.antt: the tables of setup_users.sql as interfaces: an operation for each SQL
--   statement, and its documented effect. Accounts/Users.antt: new_user, log_in, log_out, authorize
--   and the profile. Accounts/Friends.antt: friend requests. Accounts/Unread.antt: the counts of
--   unread messages, their cache, write_cache_to_database and get_friend_list.
--   Accounts/Sessions.antt, Names, Friendship and Counters hold the proofs. Accounts/Samples.antt has
--   tables that meet the laws, and Accounts/Tests.antt runs on them.
--
-- Chat: the class ChatHistory.
--   Chat/Table.antt: the table of setup_chat.sql as an interface. Chat/History.antt: the cache, its
--   index, new_chat_message, write_database, get_chat_message and get_20_chat_messages.
--   Chat/Index.antt, Found, Ids, Shown and Log hold the proofs. Chat/Samples.antt has a table that
--   meets the laws, and Chat/Tests.antt a short chat.
--
-- Http: the class HttpServer, on Accounts and Chat.
--   Http/Cookie.antt: parse_cookie, and the numbers in cookies. Http/Messages.antt: requests and
--   responses. Http/Server.antt: the state, a handler for each route (on_login, ...) and the routes.
--   Http/Origins.antt: the Options handlers and the headers for pages of other origins.
--   Http/Decimal.antt, Sessions, Others and Isolation hold the proofs, and Http/Tests.antt requests of
--   one user.
--
-- Ws: the class WsServer, on Room, Accounts and Chat; its accounts and chat are the state of Http.
--   Ws/Maps.antt: the tables as lists. Ws/Messages.antt: actions, messages, responses and the state.
--   Ws/Process.antt: a round of process_message, by case. Ws/Queues.antt: send_message, and the events
--   that change the server. Ws/Order.antt: the queue of actions with its pushes and pops.
--   Ws/Links.antt, Coming, Going, Counting, Sending and Whispers hold the proofs, and
--   Ws/Tests.antt small runs. Connection ids are 32 bits wide, so a run has fewer than 2 ^ 32 events.
--
-- Fuel: only the loop of Uno::init that looks for a number card runs on fuel, one round more than the
-- deck has cards. That is enough for up to ten players.
--
-- Arguments that stand for the library: what rand() returns, by the loop's index; the iteration order
-- of an unordered_map; what mt() returns, by the number of calls before. An int is a natural number
-- or an integer without overflow.
--
-- Not modelled: the JSON printers of the classes with the rules; the threads and callbacks that the
-- servers set up; the old icons of users (set_icon, get_icon and /icon); the locks of Authorizer and
-- ChatHistory; and the copies of jsoncpp, httplib, sqlite3 and websocketpp. The calls and the rounds of
-- Authorizer and ChatHistory are single steps in the runs of the theorems, also where the code takes two
-- locks one after the other (get_chat_message, clear_unread) or only that of the cache
-- (write_cache_to_database). Deleting a room through its base class is taken to free its members.
--
-- SQLite is an interface with the documented effect of each statement. A statement fails only where
-- a UNIQUE constraint refuses it.
pub mod Prelude
pub mod Uno
pub mod Splendor
pub mod Gomoku
pub mod Room
pub mod Accounts
pub mod Chat
pub mod Http
pub mod Ws
