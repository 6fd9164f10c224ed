-- ===== src/Ws/Whispers.antt =====
-- Whispers in src/WsServer.hpp after a connection has closed: user_id_2_conn_id is keyed by users, but
-- UNSUBSCRIBE erases by the connection id.
use Prim.Native.String.{String}
use mathlib.Core.List.{append-nil}
use unopp_server.Http.Messages.{Stores}
use unopp_server.Ws.Maps.{lookup, remove, all_of, lookup-remove_other, all_of-remove}
use unopp_server.Ws.Messages.{Connection, whisper, message, Inputs, Server}
use unopp_server.Ws.Process.{
  close_connection, on_unsubscribe, on_whisper, from_user, on_message, process,
}
use unopp_server.Prelude.{ℕ, ◌≡◌, ◌≢◌, refl, ◌∙◌, ap, [], some, ◌>>=◌}

module _ (stores : Stores) where
  -- Without a connection in the table nothing is queued.
  on_whisper-unknown :
      (inputs : Inputs) (hdl : ℕ) (c : Connection) (receiver_id : ℕ) (content : String)
      (s : Server stores)
      → all_of receiver_id s.user_id_2_conn_id ≡ []
      → (on_whisper stores inputs hdl c receiver_id content s).0.responses ≡ s.responses
  unfolding on_whisper
  on_whisper-unknown inputs hdl c receiver_id content s none_there =
      rw none_there (append-nil s.responses)

-- When the connection of hdl closes, with the connection id k, whispers to the user with the id k are
-- queued for nobody: a whisper of any other connection changes no response, and k may have another
-- connection, which stays open.
pub lost_whisper :
    (stores : Stores) (inputs : Inputs) (hdl by to : ℕ) (gone sender receiver : Connection)
    (content : String) (s : Server stores)
    → lookup hdl s.connections ≡ some gone
    → lookup by s.connections ≡ some sender
    → lookup to s.connections ≡ some receiver
    → hdl ≢ by
    → hdl ≢ to
    → receiver.user_id ≡ gone.conn_id
    → let s' = on_unsubscribe stores hdl s in
      (lookup to s'.connections ≡ some receiver)
      × ((x : Server stores) × (process stores inputs
                (message by (whisper receiver.user_id content))
                s'
              >>= (λ r. some r.0)
            ≡ some x)
          × (x.responses ≡ s'.responses))
unfolding on_unsubscribe close_connection process on_message from_user
lost_whisper stores inputs hdl by to gone sender receiver content s own at_by at_to ne_by ne_to
      same =
    let s' = close_connection stores hdl gone s in
    let stays = lookup-remove_other hdl to s.connections ne_to ∙ at_to in
    let talks = lookup-remove_other hdl by s.connections ne_by ∙ at_by in
    let nobody : all_of receiver.user_id s'.user_id_2_conn_id ≡ [] =
      ap (λ k. all_of k (remove gone.conn_id s.user_id_2_conn_id)) same
      ∙ all_of-remove gone.conn_id s.user_id_2_conn_id in
    rw (own, on_unsubscribe)
      (
        stays,
        (
          (on_whisper stores inputs by sender receiver.user_id content s').0,
          rw (talks, on_message) refl,
          on_whisper-unknown stores inputs by sender receiver.user_id content s' nobody,
        ),
      )
