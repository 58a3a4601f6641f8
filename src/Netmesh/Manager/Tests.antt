-- ===== src/Netmesh/Manager/Tests.antt =====
-- A node connects to another, is sent frames, and goes away.
use clippy.Base.{◌≡◌, refl, Bool, true, false, some, List, [], ◌∷◌, nat_eq, ok, none}
use clippy.Base.Bytes.{Bytes, codes, bytes_beq, bytes_eq}
use clippy.Base.Map.{lookup, insert}
use clippy.Netmesh.Types.{protocol_version, inbound, ManagedConn, PeerState}
use clippy.Netmesh.PeerState.{
  zero_peer, new_peer_state, note_name, name_peer, adopt, attach_connection,
}
use clippy.Netmesh.Delivery.{send}
use clippy.Netmesh.Broadcast.{broadcast}
use clippy.Netmesh.Broadcast.Sends.{error_of}
use clippy.Netmesh.Peers.{peers}
use clippy.Netmesh.Peers.Order.{find_peer, snapshot_of, Ascending, DistinctIds}
use clippy.Netmesh.Manager.{
  new_manager, start_manager, get_or_create_peer, put_peer, new_managed_conn, close_conn, attach,
  check_request, handle_web_socket,
}
use clippy.Netmesh.Manager.Table.{IsConsistent}
use clippy.Netmesh.Manager.Runs.{
  cancel, shut, Operation, start, receive_entry, request, dial, close, prune, send_frame,
  broadcast_frame, perform, perform_all, perform_all-IsConsistent,
}
use clippy.Netmesh.Manager.Reports.{managed, managed-broadcast, managed-peers}

abbrev node_a : Bytes
node_a = 1 ∷ []

abbrev node_b : Bytes
node_b = 2 ∷ []

-- The connection that the request makes.
abbrev conn : ManagedConn
conn = record { handle = 0; direction = inbound; peer_id = node_b; peer_name = codes "desk" }

abbrev connecting : List (Operation Bool)
connecting =
    start true
    ∷ request
        (record {
          path = codes "/ws";
          node_id = node_b;
          node_name = codes "desk";
          proto = protocol_version;
        })
        true
    ∷ []

abbrev operations : List (Operation Bool)
operations =
    start true
    ∷ request
        (record {
          path = codes "/ws";
          node_id = node_b;
          node_name = codes "desk";
          proto = protocol_version;
        })
        true
    ∷ broadcast_frame (λ id. false) (λ id. 0) (8 ∷ [])
    ∷ dial node_b (λ ip. ok (record { node_id = node_b; node_name = []; proto = protocol_version }))
    ∷ send_frame false 0 node_b (9 ∷ [])
    ∷ receive_entry 60 none
    ∷ prune 70
    ∷ close conn
    ∷ cancel
    ∷ shut
    ∷ dial node_b (λ ip. ok (record { node_id = node_b; node_name = []; proto = protocol_version }))
    ∷ []

operations-IsConsistent_example :
    IsConsistent
      (perform_all (λ ip. ip) operations (new_manager node_a (codes "a") (codes "/ws") 100 10 2))
operations-IsConsistent_example =
    perform_all-IsConsistent (λ ip. ip) operations node_a (codes "a") (codes "/ws") 100 10 2

abbrev desk : PeerState
unfolding new_peer_state
desk = record (new_peer_state node_b) {
  peer = record zero_peer { id = node_b; name = codes "desk"; connected = true };
  conn = some conn;
}

broadcast_example :
    let m = managed (λ ip. ip) connecting node_a (codes "a") (codes "/ws") 100 10 2 in
    (lookup 0 (broadcast m.out (λ id. false) (λ id. 0) (8 ∷ [])).0.links
      ≡ lookup 0 (send m.out false 0 node_b (8 ∷ [])).0.links)
    × (error_of node_b (broadcast m.out (λ id. false) (λ id. 0) (8 ∷ [])).1
        ≡ (send m.out false 0 node_b (8 ∷ [])).1)
unfolding desk perform_all perform start_manager handle_web_socket check_request get_or_create_peer
    attach new_managed_conn put_peer close_conn attach_connection name_peer adopt note_name
    new_peer_state lookup insert bytes_beq new_manager
broadcast_example =
    managed-broadcast (λ ip. ip) connecting node_a (codes "a") (codes "/ws") 100 10 2 (λ id. false)
      (λ id. 0) (8 ∷ []) node_b desk conn refl refl refl

peers_example :
    let m = managed (λ ip. ip) connecting node_a (codes "a") (codes "/ws") 100 10 2 in
    (find_peer node_b (peers m.out.peers) ≡ snapshot_of (lookup node_b m.out.peers))
    × Ascending (peers m.out.peers)
    × DistinctIds (peers m.out.peers)
peers_example = managed-peers (λ ip. ip) connecting node_a (codes "a") (codes "/ws") 100 10 2 node_b
