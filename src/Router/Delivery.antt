-- ===== src/Router/Delivery.antt =====
-- Router.cpp, `Router::forward`: the connection that a message is handed to.
use synergy_hogsback.Prelude.{
  ℕ, ◌≡◌, inl, inr, refl, sym, ◌∙◌, Bool, true, false, ◌&&◌, ◌==◌, List, [], ◌∷◌, arith, All,
  All-map, any, some, Option-cases,
}
use synergy_hogsback.Index.{Index}
use synergy_hogsback.Message.{Message, MessageHeader}
use synergy_hogsback.Router.State.{RouteTableEntry, route_less, Router, Event, forwarded, reaches}
use synergy_hogsback.Router.Relay.{forward}
use synergy_hogsback.Router.Invariant.{is_live, IsSound, RouterInv}

-- Some row leads to the node over this connection.
abbrev pub leads : ℕ → ℕ → List RouteTableEntry → Bool
leads d c = any (λ x. x.dest == d && x.connection == c)

-- The message leaves over a live connection that a row for the destination names.
pub record IsSent (r : Router) (h : MessageHeader) (m : Message) (out : Bool × List Event)
    : Type 0 where
  pub connection : ℕ
  pub is_sent : out ≡ (true, forwarded connection h m ∷ [])
  pub is_lead : leads h.dest connection r.route_table ≡ true
  pub live : is_live connection r.connections ≡ true

leads_refl : (t : List RouteTableEntry) → All (λ x. leads x.dest x.connection t ≡ true) t
leads_refl [] = tt
leads_refl (x ∷ t) = (ground arith, All-map (λ y h. ground arith) t (leads_refl t))

any-reaches : (d : ℕ) (t : List RouteTableEntry) → any (λ x. x.dest == d) t ≡ reaches d t
any-reaches d [] = refl
any-reaches d (x ∷ t) = ground (arith, any-reaches d t)

pub reaches_each : (t : List RouteTableEntry) → All (λ x. reaches x.dest t ≡ true) t
reaches_each [] = tt
reaches_each (x ∷ t) = (ground arith, All-map (λ y h. ground arith) t (reaches_each t))

module _ (table_index : Index route_less) (r : Router) (v : RouterInv r) where
  forward_row_lem :
      (h : MessageHeader) (m : Message) (row : RouteTableEntry)
      → table_index.find (λ x. x.dest == h.dest) r.route_table ≡ some row
      → IsSent r h m (forward table_index r h m)
  unfolding forward
  forward_row_lem h m row e =
      let test = λ (x : RouteTableEntry). x.dest == h.dest in
      let sound =
        table_index.find_in test r.route_table (IsSound r.id r.connections) e v.rows_sound in
      let lead =
        table_index.find_in test r.route_table (λ x. leads x.dest x.connection r.route_table ≡ true)
          e (leads_refl r.route_table) in
      let hit : row.dest ≡ h.dest = ground (arith, table_index.find_some test r.route_table e) in
      let z = sound.connection_ne in
      rw (e, forward)
        (record {
          connection = row.connection;
          is_sent = ground (arith, z);
          is_lead = rw (← hit) lead;
          live = sound.connection_live;
        })

  -- In a router that satisfies the invariant, `forward` fails with nothing sent if the table has no
  -- route to the destination; otherwise it hands
  -- the message unchanged to one connection, one that is live and that a route for that
  -- destination names.
  pub forward_lem :
      (h : MessageHeader) (m : Message)
      → (reaches h.dest r.route_table ≡ false → forward table_index r h m ≡ (false, []))
        × (reaches h.dest r.route_table ≡ true → IsSent r h m (forward table_index r h m))
  unfolding forward
  forward_lem h m = elim (Option-cases (table_index.find (λ x. x.dest == h.dest) r.route_table)) [
    | inl e ↦
        let gone : reaches h.dest r.route_table ≡ false =
          sym (any-reaches h.dest r.route_table)
          ∙ table_index.find_none (λ x. x.dest == h.dest) r.route_table e in
        (λ _. rw (e, forward), λ way. absurd (ground arith))
    | inr (row, e) ↦
        let hit : row.dest ≡ h.dest =
          ground (arith, table_index.find_some (λ x. x.dest == h.dest) r.route_table e) in
        let way : reaches h.dest r.route_table ≡ true = rw (← hit) (
          table_index.find_in (λ x. x.dest == h.dest) r.route_table
            (λ x. reaches x.dest r.route_table ≡ true) e (reaches_each r.route_table)) in
        (λ none_left. absurd (ground arith), λ _. forward_row_lem h m row e)
  ]
