-- ===== src/Netmesh/Manager/Reports.antt =====
-- What `Broadcast` and `Peers` do in a manager that has gone through any operations.
use clippy.Base.{ℕ, ◌≡◌, Bool, true, some, List, nat_eq}
use clippy.Base.Bytes.{Bytes, bytes_eq}
use clippy.Base.Map.{lookup}
use clippy.Netmesh.Types.{ManagedConn, PeerState}
use clippy.Netmesh.Delivery.{send}
use clippy.Netmesh.Broadcast.{broadcast}
use clippy.Netmesh.Broadcast.Sends.{error_of, broadcast-send}
use clippy.Netmesh.Peers.{peers}
use clippy.Netmesh.Peers.Order.{find_peer, snapshot_of, Ascending, DistinctIds, peers-order}
use clippy.Netmesh.Manager.{Manager, new_manager}
use clippy.Netmesh.Manager.Table.{IsConsistent}
use clippy.Netmesh.Manager.Entries.{Distinct-IsKeyed, Distinct-HasOwnConns}
use clippy.Netmesh.Manager.Runs.{Operation, perform_all, perform_all-IsConsistent}

module _ {E : Type 0} (ip_string : Bytes → Bytes) (ops : List (Operation E))
    (node_id name web_socket_path : Bytes) (stale_after max_frame_bytes send_queue_size : ℕ) where
  -- The manager that the operations leave.
  abbrev pub managed : Manager
  managed =
      perform_all ip_string ops
        (new_manager node_id name web_socket_path stale_after max_frame_bytes send_queue_size)

  managed-IsConsistent : IsConsistent managed
  managed-IsConsistent =
      perform_all-IsConsistent ip_string ops node_id name web_socket_path stale_after
        max_frame_bytes send_queue_size

  -- After any sequence of operations of a manager that is started, for each connected peer:
  -- `Broadcast` leaves its queue as `Send` to that peer alone would leave it, and reports of it the
  -- error that this `Send` would return, in whatever order the peers are served and whatever
  -- becomes of the others. For each peer the caller's context and the `select` are the same in
  -- both.
  pub managed-broadcast :
      (ended : Bytes → Bool) (choice : Bytes → ℕ) (frame id : Bytes) (p : PeerState)
      (c : ManagedConn)
      → managed.out.started ≡ true
      → lookup id managed.out.peers ≡ some p
      → p.conn ≡ some c
      → (lookup c.handle (broadcast managed.out ended choice frame).0.links
          ≡ lookup c.handle (send managed.out (ended id) (choice id) id frame).0.links)
        × (error_of id (broadcast managed.out ended choice frame).1
            ≡ (send managed.out (ended id) (choice id) id frame).1)
  managed-broadcast ended choice frame id p c started found busy =
      let inv = managed-IsConsistent in
      broadcast-send managed.out ended choice frame id p c started inv.distinct
        (Distinct-IsKeyed managed.out.peers inv.distinct inv.keyed)
        (Distinct-HasOwnConns managed.out.peers inv.distinct inv.separate) found busy

  -- After any sequence of operations, `Peers` lists exactly the peers of the table: a look for an
  -- identifier in the list finds nothing if the table has no such peer, and otherwise a peer of
  -- this identifier, with the name, the host, the port, the addresses, the flag `Connected` and the
  -- time that the table has. The identifiers rise, whatever the order of the table, and therefore
  -- differ.
  pub managed-peers :
      (id : Bytes)
      → (find_peer id (peers managed.out.peers) ≡ snapshot_of (lookup id managed.out.peers))
        × Ascending (peers managed.out.peers)
        × DistinctIds (peers managed.out.peers)
  managed-peers id =
      let inv = managed-IsConsistent in
      peers-order managed.out.peers id inv.distinct
        (Distinct-IsKeyed managed.out.peers inv.distinct inv.keyed)
