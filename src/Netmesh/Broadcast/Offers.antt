-- ===== src/Netmesh/Broadcast/Offers.antt =====
-- What the offer of a frame to one connection does.
use clippy.Base.{ℕ, ◌≡◌, ◌≢◌, refl, Bool, Option, none, some, nat_eq, Option-cases, inl, inr}
use clippy.Base.Bytes.{Bytes, bytes_eq}
use clippy.Base.Map.{lookup, insert, lookup-insert_self, lookup-insert_ne}
use clippy.Netmesh.Types.{ManagedConn}
use clippy.Netmesh.Delivery.{SendError, peer_not_connected, Link, Outgoing, enqueue, send_on}

-- What an offer of a frame does to the queue of a connection.
abbrev pub offered : ℕ → Bool → ℕ → Bytes → Option Link → Option Link × Option SendError
offered size ended choice frame none = (none, some peer_not_connected)
offered size ended choice frame (some l) =
    (some (enqueue size ended choice l frame).0, (enqueue size ended choice l frame).1)

module _ (m : Outgoing) (ended : Bool) (choice : ℕ) (c : ManagedConn) (frame : Bytes) where
  pub send_on_missing :
      lookup c.handle m.links ≡ none → send_on m ended choice c frame ≡ (m, some peer_not_connected)
  unfolding send_on
  send_on_missing h = rw (h, send_on)

  pub send_on_found :
      (l : Link)
      → lookup c.handle m.links ≡ some l
      → send_on m ended choice c frame ≡ (
        record m {
          links = insert c.handle (enqueue m.send_queue_size ended choice l frame).0 m.links;
        },
        (enqueue m.send_queue_size ended choice l frame).1,
      )
  unfolding send_on
  send_on_found l h = rw (h, send_on)

  pub send_on-own :
      (lookup c.handle (send_on m ended choice c frame).0.links
        ≡ (offered m.send_queue_size ended choice frame (lookup c.handle m.links)).0)
      × ((send_on m ended choice c frame).1
          ≡ (offered m.send_queue_size ended choice frame (lookup c.handle m.links)).1)
  send_on-own = elim (Option-cases (lookup c.handle m.links)) [
    | inl missing ↦ rw (send_on_missing missing) (rw missing (refl, refl))
    | inr (l, found) ↦
        rw (send_on_found l found) (rw found (lookup-insert_self c.handle _ m.links, refl))
  ]

  pub send_on-other :
      (h : ℕ) → c.handle ≢ h → lookup h (send_on m ended choice c frame).0.links ≡ lookup h m.links
  send_on-other h ne = elim (Option-cases (lookup c.handle m.links)) [
    | inl missing ↦ rw (send_on_missing missing)
    | inr (l, found) ↦ rw (send_on_found l found) (lookup-insert_ne c.handle h _ m.links ne)
  ]

  pub send_on-size : (send_on m ended choice c frame).0.send_queue_size ≡ m.send_queue_size
  send_on-size = elim (Option-cases (lookup c.handle m.links)) [
    | inl missing ↦ rw (send_on_missing missing)
    | inr (l, found) ↦ rw (send_on_found l found)
  ]
