-- ===== src/Router/Notify.antt =====
-- Router.cpp, the loop of `Router::notifyOtherNodes` over the route table.
use synergy_hogsback.Prelude.{
  ℕ, ◌+◌, ◌≤◌, ◌≡◌, ◌≢◌, ◌⊎◌, inl, inr, refl, ap, true, false, ◌&&◌, not, ◌==◌, if◌then◌else◌, List,
  [], ◌∷◌, arith, All, All-map, Bool-cases, some, Option, ◌||◌,
}
use native.Mathlib.Decide.{ℕ_discrete}
use synergy_hogsback.Index.{Index, IsSorted}
use synergy_hogsback.Message.{Message, MessageHeader, header}
use synergy_hogsback.Router.State.{
  RouteTableEntry, route_less, Router, Event, sent, forwarded, stopped, reachable, unreachable,
  received, connecting, reaches,
}
use synergy_hogsback.Router.Relay.{send, notify_rows, notify_other_nodes}
use synergy_hogsback.Router.Invariant.{RouterInv}
use synergy_hogsback.Router.Delivery.{forward_lem, reaches_each}

-- How many messages with destination `d` are handed on.
abbrev pub copies : ℕ → List Event → ℕ
copies d [] = 0
copies d (forwarded c h m ∷ es) = (if h.dest == d then 1 else 0) + copies d es
copies d (sent _ _ ∷ es) = copies d es
copies d (stopped _ ∷ es) = copies d es
copies d (reachable _ ∷ es) = copies d es
copies d (unreachable _ ∷ es) = copies d es
copies d (received _ _ ∷ es) = copies d es
copies d (connecting _ ∷ es) = copies d es

-- The destination last sent to lies below the rows that are left, or is not among them.
abbrev Fits : ℕ → List RouteTableEntry → Type 0
Fits last rows = All (λ x. last ≤ x.dest) rows ⊎ (reaches last rows ≡ false)

dest-le : (a b : RouteTableEntry) → route_less a b ≡ true → a.dest ≤ b.dest
unfolding route_less
dest-le a b h = ground arith

reaches_above :
    (d : ℕ) (a : RouteTableEntry) (rows : List RouteTableEntry)
    → d ≤ a.dest
    → d ≢ a.dest
    → All (λ x. a.dest ≤ x.dest) rows
    → reaches d rows ≡ false
reaches_above d a [] h ne k = refl
reaches_above d a (x ∷ rows) h ne k = ground (arith, reaches_above d a rows h ne k.1)

-- The outcome of a loop over `rows`: one copy to each of their destinations but the last one.
record IsNotified (last : ℕ) (rows : List RouteTableEntry) (out : Option (List Event))
    : Type 0 where
  events : List Event
  done : out ≡ some events
  once : (d : ℕ) → copies d events ≡ (if reaches d rows && not (d == last) then 1 else 0)

module _ (table_index : Index route_less) (r : Router) (v : RouterInv r) (m : Message)
    (h : MessageHeader) (castable : header m ≡ some h) where
  send_once :
      (d : ℕ)
      → reaches d r.route_table ≡ true
      → (c : ℕ) × (send table_index r m d
          ≡ some (true, forwarded c (record h { source = r.id; dest = d }) m ∷ []))
  unfolding send
  send_once d way =
      let h' = record h { source = r.id; dest = d } in
      let out = (forward_lem table_index r v h' m).1 way in
      (out.connection, rw (castable, send) (ap some out.is_sent))

  notify_rows_lem :
      (last : ℕ) (rows : List RouteTableEntry)
      → All (λ x. reaches x.dest r.route_table ≡ true) rows
      → IsSorted route_less rows
      → Fits last rows
      → IsNotified last rows (notify_rows table_index r m last rows)
  unfolding notify_rows
  notify_rows_lem last [] way s f = record { events = []; done = refl; once = λ d. ground arith }
  notify_rows_lem last (x ∷ rows) way s f = elim (Bool-cases (last == x.dest)) [
    | inl again ↦
        let rest =
          notify_rows_lem last rows way.1 s.1
            (inl (All-map (λ y k. ground (arith, dest-le x y k)) rows s.0)) in
        rw (again, notify_rows)
          (record {
            events = rest.events;
            done = rest.done;
            once = λ d. ground (arith, rest.once d);
          })
    | inr first ↦
        let above = All-map (λ y k. dest-le x y k) rows s.0 in
        let rest = notify_rows_lem x.dest rows way.1 s.1 (inl above) in
        let out = send_once x.dest way.0 in
        rw (first, notify_rows)
          (record {
            events = forwarded out.0 (record h { source = r.id; dest = x.dest }) m ∷ rest.events;
            done = rw (out.1, rest.done);
            once = λ d. once_more d rest.events (rest.once d) above (ground arith);
          })
  ]
    where
      gone : All (λ y. x.dest ≤ y.dest) rows → last ≢ x.dest → reaches last rows ≡ false
      gone above ne = ground (arith, reaches_above last x rows)

      once_more :
          (d : ℕ) (events : List Event)
          → copies d events ≡ (if reaches d rows && not (d == x.dest) then 1 else 0)
          → All (λ y. x.dest ≤ y.dest) rows
          → last ≢ x.dest
          → (if x.dest == d then 1 else 0) + copies d events
            ≡ (if (x.dest == d || reaches d rows) && not (d == last) then 1 else 0)
      once_more d events k above ne = elim (ℕ_discrete d last) [
        | yes same ↦ rw same (ground (arith, gone above ne, rw same at k))
        | no other ↦ ground arith
      ]

  -- In a router that satisfies the invariant, and for a message whose header can be made,
  -- `notifyOtherNodes` hands on exactly one copy for each
  -- destination in the table and none for any other, if the broadcast address 0xFFFFFFFF is no
  -- destination in the table.
  pub notify_other_nodes_once :
      reaches 0xFFFF_FFFF r.route_table ≡ false
      → (events : List Event) × (notify_other_nodes table_index r m ≡ some events)
        × ((d : ℕ) → copies d events ≡ (if reaches d r.route_table then 1 else 0))
  unfolding notify_other_nodes
  notify_other_nodes_once free =
      let out =
        notify_rows_lem 0xFFFF_FFFF r.route_table (reaches_each r.route_table) v.valid.sorted
          (inr free) in
      (
        out.events,
        out.done,
        λ d. elim (ℕ_discrete d 0xFFFF_FFFF) [
          | yes same ↦ rw same (ground (arith, free, rw same at (out.once d)))
          | no other ↦ ground (arith, out.once d)
        ],
      )
