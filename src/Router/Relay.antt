-- ===== src/Router/Relay.antt =====
-- Sending to one node: `Router::send`, `forward` and `notifyOtherNodes`.
use synergy_hogsback.Prelude.{
  ℕ, Bool, true, false, ◌==◌, if◌then◌else◌, List, [], ◌∷◌, ◌++◌, Option, none, some,
}
use synergy_hogsback.Index.{Index}
use synergy_hogsback.Message.{Message, MessageHeader, header}
use synergy_hogsback.Router.State.{RouteTableEntry, route_less, Router, Event, forwarded}

infixl 5 ◌>>=◌
abbrev ◌>>=◌ : {A B : Type 0} → Option A → (A → Option B) → Option B
none >>= f = none
some a >>= f = f a

-- The row that was found, if any: it is taken when its connection is no null pointer.
unfoldable pub forward_found : MessageHeader → Message → Option RouteTableEntry → Bool × List Event
forward_found h m none = (false, [])
forward_found h m (some row) =
    if row.connection == 0 then (false, []) else (true, forwarded row.connection h m ∷ [])

module _ (table_index : Index route_less) where
  open table_index use {find}

  unfoldable pub forward : Router → MessageHeader → Message → Bool × List Event
  unfolding forward_found
  forward r h m = forward_found h m (find (λ x. x.dest == h.dest) r.route_table)

  -- `none` where making the header throws.
  unfoldable pub send : Router → Message → ℕ → Option (Bool × List Event)
  unfolding forward
  send r m dest = do h ← header m; some (forward r (record h { source = r.id; dest = dest }) m)

  -- The loop of `notifyOtherNodes`, with `lastDestId`.
  unfoldable pub notify_rows : Router → Message → ℕ → List RouteTableEntry → Option (List Event)
  notify_rows r m last_dest [] = some []
  notify_rows r m last_dest (row ∷ rows) =
      let again = notify_rows r m last_dest rows in
      let first = send r m row.dest >>= λ out.
      notify_rows r m row.dest rows >>= λ rest. some (out.1 ++ rest) in
      if last_dest == row.dest then again else first

  unfoldable pub notify_other_nodes : Router → Message → Option (List Event)
  notify_other_nodes r m = notify_rows r m 0xFFFF_FFFF r.route_table
