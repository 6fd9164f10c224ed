-- ===== src/Ws/Order.antt =====
-- The queue of actions of src/WsServer.hpp: on_open, on_message and on_close push, process_message pops.
use unopp_server.Http.Messages.{Stores}
use unopp_server.Ws.Messages.{Action, Message, subscribe, unsubscribe, message, Inputs, Server}
use unopp_server.Ws.Process.{process}
use unopp_server.Prelude.{ℕ, List, [], ◌∷◌, ◌++◌, Option, some, ◌>>=◌}

-- The handlers of websocketpp and the thread of process_message, in the order of their locks. An
-- action comes with what its processing takes from outside.
pub data Tick : Type 0 where
  on_open on_close : ℕ → Inputs → Tick
  on_message : ℕ → Message → Inputs → Tick
  pop : Tick

abbrev pub Queue : Type 0
Queue = List (Inputs × Action)

module _ (stores : Stores) where
  -- process_message waits while the queue is empty.
  unfoldable pub tick : Tick → Queue × Server stores → Option (Queue × Server stores)
  tick (on_open hdl inputs) (q, s) = some (q ++ (inputs, subscribe hdl) ∷ [], s)
  tick (on_close hdl inputs) (q, s) = some (q ++ (inputs, unsubscribe hdl) ∷ [], s)
  tick (on_message hdl m inputs) (q, s) = some (q ++ (inputs, message hdl m) ∷ [], s)
  tick pop ([], s) = some ([], s)
  tick pop ((inputs, a) ∷ q, s) = process stores inputs a s >>= λ x. some (q, x.0)
