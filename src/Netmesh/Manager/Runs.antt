-- ===== src/Netmesh/Manager/Runs.antt =====
-- A manager that has gone through any operations is well-formed.
use clippy.Base.{
  ℕ, ◌≡◌, ◌≢◌, refl, sym, ap, ◌∙◌, Bool, true, false, Option, none, some, List, [], ◌∷◌,
  if◌then◌else◌, nat_eq, arith, Option-cases, Bool-cases, inl, inr, Result,
}
use clippy.Base.Bytes.{Bytes, bytes_beq, bytes_eq}
use clippy.Base.Map.{lookup, Distinct}
use clippy.Netmesh.Types.{ManagedConn, PeerState}
use clippy.Netmesh.PeerState.{peer_copy_locked, prune_stale}
use clippy.Netmesh.Delivery.{send}
use clippy.Netmesh.Broadcast.{broadcast}
use clippy.Netmesh.Discovery.{ServiceEntry}
use clippy.Netmesh.Manager.{
  Manager, new_manager, StartError, start_manager, manager_started, listen_failed, Request,
  Response, handle_web_socket, dial_peer, connection_closed, prune_each, prune_stale_peers,
  handle_service_entry,
}
use clippy.Netmesh.Manager.Table.{IsConsistent}
use clippy.Netmesh.Manager.Operations.{
  handle_web_socket-IsConsistent, dial_peer-IsConsistent, connection_closed-IsConsistent,
  handle_service_entry-IsConsistent, prune_stale-frame,
}
use clippy.Netmesh.Manager.Shutdown.{
  end_context, shutdown, end_context-IsConsistent, shutdown-IsConsistent,
}
use clippy.Netmesh.Manager.Sending.{KeepsTable-IsConsistent, send-KeepsTable, broadcast-KeepsTable}

abbrev pruned : ℕ → ℕ → Option PeerState → Option PeerState
pruned stale_after now none = none
pruned stale_after now (some ps) = some (prune_stale stale_after now ps)

lookup-prune_each :
    (stale_after now : ℕ) (peers : List (Bytes × PeerState)) (id : Bytes)
    → lookup id (prune_each stale_after now peers) ≡ pruned stale_after now (lookup id peers)
unfolding lookup prune_each
lookup-prune_each stale_after now [] id = refl
lookup-prune_each stale_after now ((j, ps) ∷ peers) id = elim (Bool-cases (bytes_beq j id)) [
  | inl same ↦ rw same
  | inr other ↦ rw other (lookup-prune_each stale_after now peers id)
]

prune_each-Distinct :
    (stale_after now : ℕ) (peers : List (Bytes × PeerState))
    → Distinct peers
    → Distinct (prune_each stale_after now peers)
unfolding prune_each
prune_each-Distinct stale_after now [] d = d
prune_each-Distinct stale_after now ((j, ps) ∷ peers) d = (
  lookup-prune_each stale_after now peers j ∙ ap (pruned stale_after now) d.0,
  prune_each-Distinct stale_after now peers d.1,
)

-- A peer behind a round of pruning, as it was before.
pruned_from :
    (stale_after now : ℕ) (o : Option PeerState) (q : PeerState)
    → pruned stale_after now o ≡ some q
    → (p : PeerState) × (o ≡ some p) × (q.conn ≡ p.conn) × (q.id ≡ p.id)
pruned_from stale_after now none q h = absurd (none_some q h)
  where
    none_some : (q : PeerState) → none ≢ some q
    none_some q e = cc
pruned_from stale_after now (some p) q h =
    let e : prune_stale stale_after now p ≡ q = cc in
    let frame = prune_stale-frame stale_after now p in
    (
      p,
      refl,
      ap (λ (x : PeerState). x.conn) (sym e) ∙ frame.0,
      ap (λ (x : PeerState). x.id) (sym e) ∙ frame.1,
    )

prune_stale_peers-IsConsistent :
    (m : Manager) (now : ℕ) → IsConsistent m → IsConsistent (prune_stale_peers m now)
unfolding prune_stale_peers
prune_stale_peers-IsConsistent m now inv =
    let was : (id : Bytes) (q : PeerState)
        → lookup id (prune_each m.peer_stale_after now m.out.peers) ≡ some q
        → (p : PeerState) × (lookup id m.out.peers ≡ some p) × (q.conn ≡ p.conn) × (q.id ≡ p.id) =
      λ id q found.
        pruned_from m.peer_stale_after now (lookup id m.out.peers) q
          (sym (lookup-prune_each m.peer_stale_after now m.out.peers id) ∙ found) in
    record {
      distinct = prune_each-Distinct m.peer_stale_after now m.out.peers inv.distinct;
      keyed =
          λ id q found. let (p, there, conn, same) = was id q found in same ∙ inv.keyed id p there;
      not_self =
          lookup-prune_each m.peer_stale_after now m.out.peers m.node_id
          ∙ ap (pruned m.peer_stale_after now) inv.not_self;
      owned = λ id q c found busy.
          let (p, there, conn, same) = was id q found in inv.owned id p c there (sym conn ∙ busy);
      separate = λ i j p q c d pi qj pc qd.
          let (p', pi', pconn, psame) = was i p pi in
          let (q', qj', qconn, qsame) = was j q qj in
          inv.separate i j p' q' c d pi' qj' (sym pconn ∙ pc) (sym qconn ∙ qd);
      linked = inv.linked;
      down = inv.down;
    }

-- Whether it was started before, and whether it listens.
start_manager_cases :
    (m : Manager) (already listens : Bool)
    → IsConsistent m
    → let outcome : Manager × Option StartError =
        if already
        then (m, some manager_started)
        else if listens
        then (record m { out = record m.out { started = true } }, none)
        else (m, some listen_failed) in
      IsConsistent outcome.0
start_manager_cases m true listens inv = inv
start_manager_cases m false false inv = inv
start_manager_cases m false true inv = record {
  distinct = inv.distinct;
  keyed = inv.keyed;
  not_self = inv.not_self;
  owned = inv.owned;
  separate = inv.separate;
  linked = inv.linked;
  down = inv.down;
}

start_manager-IsConsistent :
    (m : Manager) (listens : Bool) → IsConsistent m → IsConsistent (start_manager m listens).0
unfolding start_manager
start_manager-IsConsistent m listens inv = start_manager_cases m m.out.started listens inv

-- What happens to a manager, with what the network and the clock bring: `dial` is a dial of the
-- loop of a peer, `close` the end of a pump of a connection, `cancel` the end of the context, as
-- at an error of `serveHTTP`, and `shut` the call of `shutdown` that follows.
pub data Operation (E : Type 0) : Type 0 where
  start : Bool → Operation E
  receive_entry : ℕ → Option ServiceEntry → Operation E
  request : Request → Bool → Operation E
  dial : Bytes → (Bytes → Result E Response) → Operation E
  close : ManagedConn → Operation E
  prune : ℕ → Operation E
  send_frame : Bool → ℕ → Bytes → Bytes → Operation E
  broadcast_frame : (Bytes → Bool) → (Bytes → ℕ) → Bytes → Operation E
  cancel shut : Operation E

module _ {E : Type 0} (ip_string : Bytes → Bytes) where
  unfoldable pub perform : Operation E → Manager → Manager
  perform (start listens) m = (start_manager m listens).0
  perform (receive_entry now e) m = handle_service_entry ip_string m now e
  perform (request r upgraded) m = (handle_web_socket m r upgraded).0
  perform (dial id dialer) m = elim (lookup id m.out.peers) [
    | none ↦ m
    | some ps ↦ (dial_peer m (peer_copy_locked ps) dialer).0
  ]
  perform (close c) m = connection_closed m c
  perform (prune now) m = prune_stale_peers m now
  perform (send_frame ended choice id frame) m = record m {
    out = (send m.out ended choice id frame).0;
  }
  perform (broadcast_frame ended choice frame) m = record m {
    out = (broadcast m.out ended choice frame).0;
  }
  perform cancel m = end_context m
  perform shut m = shutdown m

  unfoldable pub perform_all : List (Operation E) → Manager → Manager
  perform_all [] m = m
  perform_all (op ∷ ops) m = perform_all ops (perform op m)

  perform-IsConsistent :
      (op : Operation E) (m : Manager) → IsConsistent m → IsConsistent (perform op m)
  unfolding perform peer_copy_locked
  perform-IsConsistent (start listens) m inv = start_manager-IsConsistent m listens inv
  perform-IsConsistent (receive_entry now e) m inv =
      handle_service_entry-IsConsistent ip_string m now e inv
  perform-IsConsistent (request r upgraded) m inv = handle_web_socket-IsConsistent m r upgraded inv
  perform-IsConsistent (dial id dialer) m inv = elim (Option-cases (lookup id m.out.peers)) [
    | inl missing ↦ rw (missing, perform) inv
    | inr (ps, found) ↦
        rw (found, perform)
          (dial_peer-IsConsistent m (peer_copy_locked ps) dialer
            (λ e. some_none ps (sym found ∙ (rw (sym (inv.keyed id ps found) ∙ e) inv.not_self)))
            inv)
  ]
    where
      some_none : (q : PeerState) → some q ≢ none
      some_none q e = cc
  perform-IsConsistent (close c) m inv = connection_closed-IsConsistent m c inv
  perform-IsConsistent (prune now) m inv = prune_stale_peers-IsConsistent m now inv
  perform-IsConsistent (send_frame ended choice id frame) m inv =
      KeepsTable-IsConsistent m _ (send-KeepsTable m.out ended choice id frame) inv
  perform-IsConsistent (broadcast_frame ended choice frame) m inv =
      KeepsTable-IsConsistent m _ (broadcast-KeepsTable m.out ended choice frame) inv
  perform-IsConsistent cancel m inv = end_context-IsConsistent m inv
  perform-IsConsistent shut m inv = shutdown-IsConsistent m inv

  perform_all-IsConsistent_from :
      (ops : List (Operation E)) (m : Manager) → IsConsistent m → IsConsistent (perform_all ops m)
  unfolding perform_all
  perform_all-IsConsistent_from [] m inv = inv
  perform_all-IsConsistent_from (op ∷ ops) m inv =
      perform_all-IsConsistent_from ops (perform op m) (perform-IsConsistent op m inv)

new_manager-IsConsistent :
    (node_id name web_socket_path : Bytes) (stale_after max_frame_bytes send_queue_size : ℕ)
    → IsConsistent
        (new_manager node_id name web_socket_path stale_after max_frame_bytes send_queue_size)
unfolding new_manager lookup
new_manager-IsConsistent node_id name web_socket_path stale_after max_frame_bytes send_queue_size =
    record {
      distinct = tt;
      keyed = λ id ps h. cc;
      not_self = refl;
      owned = λ id ps c h. cc;
      separate = λ i j p q c d h. cc;
      linked = λ h made. absurd (omega arith);
      down = λ e. cc;
    }

-- After any sequence of operations from `NewManager` on: there is one peer for each identifier, the
-- node itself is not among them, a peer's connection was made for that peer, no two peers share
-- a connection, every connection has its queue, and once the manager's context has ended, so has
-- that of every connection, whenever it was made.
pub perform_all-IsConsistent :
    {E : Type 0} (ip_string : Bytes → Bytes) (ops : List (Operation E))
    (node_id name web_socket_path : Bytes) (stale_after max_frame_bytes send_queue_size : ℕ)
    → IsConsistent (
        perform_all ip_string ops
          (new_manager node_id name web_socket_path stale_after max_frame_bytes send_queue_size))
perform_all-IsConsistent ip_string ops node_id name web_socket_path stale_after max_frame_bytes
      send_queue_size =
    perform_all-IsConsistent_from ip_string ops _ (
      new_manager-IsConsistent node_id name web_socket_path stale_after max_frame_bytes
        send_queue_size)
