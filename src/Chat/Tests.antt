-- ===== src/Chat/Tests.antt =====
-- A chat of three messages.
use Prim.Native.String.{String}
use unopp_server.Chat.Table.{ChatMessage, count}
use unopp_server.Chat.History.{
  empty, get_chat_message, new_chat_message, write_database, write_messages,
}
use unopp_server.Chat.Samples.{chats, select}
use unopp_server.Chat.Index.{
  IsIndexed, Event, message, round, step, run, run-IsIndexed, entries, uses,
}
use unopp_server.Chat.Shown.{items_for}
use unopp_server.Chat.Log.{sent, get_chat_message-run}
use unopp_server.Prelude.{ℕ, ◌≡◌, refl, Bool, true, List, [], ◌∷◌, some, arith}

abbrev said : ℕ → ℕ → ℕ → ChatMessage
said a b time = record { sender_id = a; receiver_id = b; message = "{}"; timestamp = time }

abbrev at_end : ℕ → ℕ
at_end n = 100

abbrev talk : List Event
talk =
    message at_end (said 1 2 10)
    ∷ round
    ∷ message at_end (said 2 1 11)
    ∷ message at_end (said 1 3 12)
    ∷ []

abbrev item_of : String → ℕ → ℕ
item_of content time = time

abbrev any : ℕ → Bool
any time = true

run-IsIndexed_example : IsIndexed (run chats talk (empty, [])).0
unfolding IsIndexed entries uses
run-IsIndexed_example = run-IsIndexed chats talk (empty, []) (λ u i. refl)

get_chat_message-run_example :
    let end = run chats talk (empty, []) in
    (items : List (ℕ × ℕ)) × (get_chat_message item_of chats 1 50 end.0 end.1 ≡ some items)
    × (items_for item_of any 2 items ≡ 2)
unfolding run step write_database write_messages new_chat_message select count sent
get_chat_message-run_example =
    get_chat_message-run item_of any chats talk [] 1 2 50 (omega arith) (omega arith)
