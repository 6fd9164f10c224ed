-- ===== src/Ws/Coming.antt =====
-- AUTHORIZE keeps the tables of connections fit.
use Prim.Native.String.{String}
use unopp_server.Accounts.Users.{Result, success, authorize}
use unopp_server.Chat.History.{emplace}
use unopp_server.Http.Messages.{Stores}
use unopp_server.Ws.Maps.{
  lookup, assign, lookup-assign_self, lookup-assign_other, of_lookup-assign, All-mono, All-append,
  All-take, All-drop,
}
use unopp_server.Ws.Messages.{
  Connection, Message, malformed, authorize_by, whisper, read_whispers, for_rooms, Payload,
  of_rooms, whispered, Inputs, Server,
}
use unopp_server.Ws.Process.{admit_user, on_authorize, from_stranger}
use unopp_server.Ws.Links.{Connections, IsOf, IsAddressed, Linked}
use unopp_server.Prelude.{
  ℕ, ◌+◌, ◌<◌, ◌%◌, ◌^◌, ◌≡◌, sym, ◌∙◌, ap, subst, ◌∷◌, take, drop, Option, none, some, arith, inl,
  inr,
}

-- A new connection takes nothing from the others.
IsOf-assign :
    (u k hdl : ℕ) (new : Connection) (connections : Connections) (last : ℕ)
    → new.conn_id ≡ last + 1
    → IsOf u k connections last
    → IsOf u k (assign hdl new connections) new.conn_id
IsOf-assign u k hdl new connections last e h = record {
  given = let given = h.given in omega arith;
  user = λ hdl' c at is. elim (of_lookup-assign hdl hdl' new c connections at) [
    | inl (same, its) ↦
        let given = h.given in
        let id : new.conn_id ≡ k = ap (λ x. x.conn_id) its ∙ is in absurd (omega arith)
    | inr (ne, old) ↦ h.user hdl' c old is
  ];
}

IsAddressed-assign :
    (hdl : ℕ) (new : Connection) (connections : Connections) (last : ℕ) (r : ℕ × Payload)
    → new.conn_id ≡ last + 1
    → IsAddressed connections last r
    → IsAddressed (assign hdl new connections) new.conn_id r
IsAddressed-assign hdl new connections last (k, of_rooms body) e h = tt
IsAddressed-assign hdl new connections last (k, whispered w) e h =
    IsOf-assign w.receiver_id k hdl new connections last e h

abbrev unsome : ℕ → Option ℕ → ℕ
unsome d none = d
unsome d (some x) = x

module _ (stores : Stores) where
  admitted :
      (s : Server stores) (hdl : ℕ) (c : Connection) (place : ℕ)
      → c.conn_id ≡ s.conn_id + 1
      → lookup hdl s.connections ≡ none
      → Linked stores s
      → Linked stores (record s {
        connections = assign hdl c s.connections;
        conn_id_2_hdl = assign c.conn_id (some hdl) s.conn_id_2_hdl;
        user_id_2_conn_id = emplace place (c.user_id, c.conn_id) s.user_id_2_conn_id;
        conn_id = c.conn_id;
      })
  admitted s hdl c place e free h = record {
    below = λ hdl' c' at. elim (of_lookup-assign hdl hdl' c c' s.connections at) [
      | inl (same, its) ↦ let ids = ap (λ x. x.conn_id) its in omega arith
      | inr (ne, old) ↦ let below = h.below hdl' c' old in omega arith
    ];
    there = λ hdl' c' at. elim (of_lookup-assign hdl hdl' c c' s.connections at) [
      | inl (same, its) ↦
          subst
            (λ x. lookup x.conn_id (assign c.conn_id (some hdl) s.conn_id_2_hdl) ≡ some (some hdl'))
            its
            (lookup-assign_self c.conn_id (some hdl) s.conn_id_2_hdl ∙ ap (λ x. some (some x)) same)
      | inr (ne, old) ↦
          let below = h.below hdl' c' old in
          lookup-assign_other c.conn_id c'.conn_id (some hdl) s.conn_id_2_hdl (omega arith)
          ∙ h.there hdl' c' old
    ];
    back = λ k hdl' at.
        elim (of_lookup-assign c.conn_id k (some hdl) (some hdl') s.conn_id_2_hdl at) [
          | inl (same, its) ↦ (
            c,
            subst (λ x. lookup x (assign hdl c s.connections) ≡ some c) (ap (unsome hdl) its)
                (lookup-assign_self hdl c s.connections),
            same,
          )
          | inr (ne, old) ↦
              let (c', at', is) = h.back k hdl' old in
              (
                c',
                lookup-assign_other hdl hdl' c s.connections
                      (λ same. (let gone = rw (sym same, free) at at' in ground arith))
                    ∙ at',
                is,
              )
        ];
    named =
        let P = λ (e : ℕ × ℕ). IsOf e.0 e.1 (assign hdl c s.connections) c.conn_id in
        let kept =
          All-mono (λ e. IsOf e.0 e.1 s.connections s.conn_id) P s.user_id_2_conn_id
            (λ x is. IsOf-assign x.0 x.1 hdl c s.connections s.conn_id e is) h.named in
        All-append P (take place s.user_id_2_conn_id)
          ((c.user_id, c.conn_id) ∷ drop place s.user_id_2_conn_id)
          (All-take P place s.user_id_2_conn_id kept)
          (own, All-drop P place s.user_id_2_conn_id kept);
    addressed =
        All-mono (IsAddressed s.connections s.conn_id)
          (IsAddressed (assign hdl c s.connections) c.conn_id) s.responses
          (λ r is. IsAddressed-assign hdl c s.connections s.conn_id r e is) h.addressed;
  }
    where
      own : IsOf c.user_id c.conn_id (assign hdl c s.connections) c.conn_id
      own = record {
        given = omega arith;
        user = λ hdl' c' at is. elim (of_lookup-assign hdl hdl' c c' s.connections at) [
          | inl (same, its) ↦ ap (λ x. x.user_id) (sym its)
          | inr (ne, old) ↦ let below = h.below hdl' c' old in absurd (omega arith)
        ];
      }

  on_authorize-Linked :
      (inputs : Inputs) (hdl : ℕ) (answer : Result × Option (ℕ × String)) (s : Server stores)
      → s.conn_id + 1 < 2 ^ 32
      → lookup hdl s.connections ≡ none
      → Linked stores s
      → Linked stores (on_authorize stores inputs hdl answer s).0
  unfolding on_authorize admit_user
  on_authorize-Linked inputs hdl (success, some u) s few free h =
      let wrap : (s.conn_id + 1) % 2 ^ 32 ≡ s.conn_id + 1 = omega arith in
      admitted s hdl (record { user_id = u.0; user_name = u.1; conn_id = (s.conn_id + 1) % 2 ^ 32 })
        inputs.conn_place wrap free h
  on_authorize-Linked inputs hdl (success, none) s few free h = h
  on_authorize-Linked inputs hdl (r, o) s few free h = h

  pub from_stranger-Linked :
      (inputs : Inputs) (hdl : ℕ) (m : Message) (s : Server stores)
      → s.conn_id + 1 < 2 ^ 32
      → lookup hdl s.connections ≡ none
      → Linked stores s
      → Linked stores (from_stranger stores inputs hdl m s).0
  unfolding from_stranger
  from_stranger-Linked inputs hdl malformed s few free h = h
  from_stranger-Linked inputs hdl (authorize_by sessdata) s few free h =
      on_authorize-Linked inputs hdl (authorize stores.users sessdata s.site.accounts) s few free h
  from_stranger-Linked inputs hdl (whisper a b) s few free h = h
  from_stranger-Linked inputs hdl (read_whispers a) s few free h = h
  from_stranger-Linked inputs hdl (for_rooms a) s few free h = h
