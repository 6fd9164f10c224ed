-- ===== src/Ws/Queues.antt =====
-- The queues of src/WsServer.hpp: send_message, which empties the responses, and the events that change
-- the server.
use unopp_server.Http.Messages.{Stores}
use unopp_server.Http.Server.{Site}
use unopp_server.Ws.Maps.{lookup, assign}
use unopp_server.Ws.Messages.{Action, Payload, Inputs, Server}
use unopp_server.Ws.Process.{process}
use unopp_server.Prelude.{ℕ, List, [], ◌∷◌, Option, none, some, ◌>>=◌}

-- The loop of send_message: operator[] makes a handle for a missing conn_id, and a send to it fails.
unfoldable pub send_all :
    List (ℕ × Payload) → List (ℕ × Option ℕ) → List (ℕ × Option ℕ) × List (ℕ × Payload)
send_all [] hdls = (hdls, [])
send_all ((conn_id, payload) ∷ responses) hdls =
    let missing = send_all responses (assign conn_id none hdls) in
    let (hdls', delivered) = send_all responses hdls in
    elim (lookup conn_id hdls) [
      | none ↦ missing
      | some none ↦ (hdls', delivered)
      | some (some hdl) ↦ (hdls', (hdl, payload) ∷ delivered)
    ]

module _ (stores : Stores) where
  -- A round of send_message, with what arrives at which handle.
  unfoldable pub send_message : Server stores → Server stores × List (ℕ × Payload)
  send_message s =
      let (hdls, delivered) = send_all s.responses s.conn_id_2_hdl in
      (record s { conn_id_2_hdl = hdls; responses = [] }, delivered)

  -- An action is processed, responses are sent, or the HTTP server and the threads that write to the
  -- databases make something else of the accounts and the chat.
  pub data Event : Type 0 where
    act : Inputs → Action → Event
    send : Event
    elsewhere : Site stores → Event

  unfoldable pub step : Event → Server stores → Option (Server stores)
  step (act inputs a) s = process stores inputs a s >>= λ x. some x.0
  step send s = some (send_message s).0
  step (elsewhere site) s = some (record s { site = site })

  unfoldable pub run : List Event → Server stores → Option (Server stores)
  run [] s = some s
  run (e ∷ es) s = step e s >>= λ s'. run es s'
