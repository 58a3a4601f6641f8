-- ===== src/Netmesh/Manager/Operations.antt =====
-- Every operation of the manager keeps its table well-formed.
use clippy.Base.{
  ℕ, ◌≡◌, ◌≢◌, ◌⊎◌, inl, inr, refl, sym, ap, subst, ◌∙◌, Bool, true, false, Option, none, some,
  List, [], ◌∷◌, if◌then◌else◌, nat_eq, arith, Option-cases, Bool-cases, Result, Result-split,
}
use clippy.Base.Bytes.{Bytes, bytes_beq, bytes_beq_iff, bytes_eq}
use clippy.Base.Map.{lookup}
use clippy.Netmesh.Types.{ConnectionDirection, inbound, outbound, Peer, ManagedConn, PeerState}
use clippy.Netmesh.PeerState.{
  should_dial, note_name, attach_connection, handle_connection_closed, discover, name_peer, adopt,
  ensure_dial_loop, trigger_reconnect, prune_stale,
}
use clippy.Netmesh.Discovery.{ServiceEntry, peer_from_entry}
use clippy.Netmesh.Manager.{
  Manager, get_or_create_peer, put_peer, new_managed_conn, attach, dial_if, reconnect_if, Request,
  Response, DialError, check_response, check_request, upgrade_failed, handle_web_socket, reply_of,
  dial_each, dial_peer, connection_closed, handle_service_entry, close_old, close_unless,
}
use clippy.Netmesh.Manager.Table.{
  IsConsistent, insert_made, insert_ended, get_or_create_peer-id, get_or_create_peer_found, IsFresh,
  put_peer-IsConsistent, close_conn-IsConsistent,
}

module _ (m : Manager) (direction : ConnectionDirection) (id peer_name : Bytes)
    (inv : IsConsistent m) where
  new_managed_conn-IsConsistent : IsConsistent (new_managed_conn m direction id peer_name).0
  unfolding new_managed_conn
  new_managed_conn-IsConsistent = record {
    distinct = inv.distinct;
    keyed = inv.keyed;
    not_self = inv.not_self;
    owned =
        λ j q c found busy. let (same, made) = inv.owned j q c found busy in (same, omega arith);
    separate = inv.separate;
    linked = λ h made. insert_made m.next_handle h _ m.out.links made (inv.linked h);
    down = λ e. insert_ended m.next_handle _ m.out.links e (inv.down e);
  }

  new_managed_conn-IsFresh :
      IsFresh
        (new_managed_conn m direction id peer_name).0
        id
        (new_managed_conn m direction id peer_name).1
  unfolding new_managed_conn
  new_managed_conn-IsFresh = record {
    for_peer = refl;
    made = omega arith;
    unused = λ j q d found busy e. let made = (inv.owned j q d found busy).1 in omega arith;
  }

-- What attaching a connection does to the connection of a peer.
attach_connection-conn :
    (self_id : Bytes) (ps : PeerState) (c d : ManagedConn)
    → (attach_connection self_id ps c).state.conn ≡ some d
    → (ps.conn ≡ some d) ⊎ (c ≡ d)
unfolding attach_connection adopt name_peer
attach_connection-conn self_id ps c d h = ground arith

attach_connection-id :
    (self_id : Bytes) (ps : PeerState) (c : ManagedConn)
    → (attach_connection self_id ps c).state.id ≡ ps.id
unfolding attach_connection adopt name_peer
attach_connection-id self_id ps c = ground arith

handle_connection_closed-conn :
    (self_id : Bytes) (ps : PeerState) (c d : ManagedConn)
    → (reconnect_if (handle_connection_closed self_id ps c)).conn ≡ some d
    → ps.conn ≡ some d
unfolding handle_connection_closed trigger_reconnect
handle_connection_closed-conn self_id ps c d h = ground arith

handle_connection_closed-id :
    (self_id : Bytes) (ps : PeerState) (c : ManagedConn)
    → (reconnect_if (handle_connection_closed self_id ps c)).id ≡ ps.id
unfolding handle_connection_closed trigger_reconnect
handle_connection_closed-id self_id ps c = ground arith

pub prune_stale-frame :
    (stale_after now : ℕ) (ps : PeerState)
    → ((prune_stale stale_after now ps).conn ≡ ps.conn)
      × ((prune_stale stale_after now ps).id ≡ ps.id)
unfolding prune_stale
prune_stale-frame stale_after now ps = ground arith

-- The node keeps its identifier.
pub close_old-IsConsistent :
    (m : Manager) (old : Option ManagedConn) → IsConsistent m → IsConsistent (close_old m old)
close_old-IsConsistent m none inv = inv
close_old-IsConsistent m (some c) inv = close_conn-IsConsistent m c inv

close_unless-IsConsistent :
    (accepted : Bool) (m : Manager) (c : ManagedConn)
    → IsConsistent m
    → IsConsistent (close_unless accepted m c)
close_unless-IsConsistent true m c inv = inv
close_unless-IsConsistent false m c inv = close_conn-IsConsistent m c inv

module _ (m : Manager) (id : Bytes) (inv : IsConsistent m) (other : id ≢ m.node_id) where
  -- A peer whose connection is that of the table, or none.
  abbrev KeepsOld : PeerState → Type 0
  KeepsOld ps = (c : ManagedConn) → ps.conn ≡ some c → (get_or_create_peer m id).conn ≡ some c

  put_peer_old : (ps : PeerState) → ps.id ≡ id → KeepsOld ps → IsConsistent (put_peer m id ps)
  put_peer_old ps same keeps = put_peer-IsConsistent m id ps inv other same (λ c h. inl (keeps c h))

  attach-IsConsistent :
      (ps : PeerState) (direction : ConnectionDirection) (peer_name : Bytes)
      → ps.id ≡ id
      → KeepsOld ps
      → IsConsistent (attach m id ps direction peer_name).0
  unfolding attach new_managed_conn get_or_create_peer
  attach-IsConsistent ps direction peer_name same keeps =
      let made = new_managed_conn m direction id peer_name in
      let a = attach_connection m.node_id ps made.1 in
      let put : IsConsistent (put_peer made.0 id a.state) =
        put_peer-IsConsistent made.0 id a.state
          (new_managed_conn-IsConsistent m direction id peer_name inv) other
          (attach_connection-id m.node_id ps made.1 ∙ same)
          (λ c h. elim (attach_connection-conn m.node_id ps made.1 c h) [
            | inl old ↦ inl (keeps c old)
            | inr e ↦ inr (
                subst (IsFresh made.0 id) e (new_managed_conn-IsFresh m direction id peer_name inv))
          ]) in
      close_unless-IsConsistent a.accepted _ made.1 (close_old-IsConsistent _ a.old put)

note_name-frame :
    (ps : PeerState) (remote_name : Bytes)
    → ((note_name ps remote_name).conn ≡ ps.conn) × ((note_name ps remote_name).id ≡ ps.id)
unfolding note_name
note_name-frame ps remote_name = ground arith

reply_of-IsConsistent : (r : Manager × Bool) → IsConsistent r.0 → IsConsistent (reply_of r).0
reply_of-IsConsistent (m, true) inv = inv
reply_of-IsConsistent (m, false) inv = inv

check_request-node_id :
    (m : Manager) (r : Request) → check_request m r ≡ none → r.node_id ≢ m.node_id
unfolding check_request
check_request-node_id m r h e = let t = (bytes_beq_iff r.node_id m.node_id).1 e in ground arith

pub handle_web_socket-IsConsistent :
    (m : Manager) (r : Request) (upgraded : Bool)
    → IsConsistent m
    → IsConsistent (handle_web_socket m r upgraded).0
unfolding handle_web_socket
handle_web_socket-IsConsistent m r upgraded inv = elim (Option-cases (check_request m r)) [
  | inr (reply, refused) ↦ rw (refused, handle_web_socket) inv
  | inl accepted ↦ rw (accepted, handle_web_socket) (go accepted upgraded)
]
  where
    go :
        check_request m r ≡ none
        → (b : Bool)
        → IsConsistent
            (if b
              then reply_of (
                  attach m r.node_id
                    (note_name (get_or_create_peer m r.node_id) r.node_name)
                    inbound
                    r.node_name)
              else (m, upgrade_failed)).0
    go accepted false = inv
    go accepted true =
        let named = note_name-frame (get_or_create_peer m r.node_id) r.node_name in
        reply_of-IsConsistent _ (
          attach-IsConsistent m r.node_id inv (check_request-node_id m r accepted) _ inbound
            r.node_name (named.1 ∙ get_or_create_peer-id m r.node_id inv) (λ c h. sym named.0 ∙ h))

dial_each-IsConsistent :
    {E : Type 0} (m : Manager) (peer : Peer) (dial : Bytes → Result E Response)
    (last : Option (DialError E)) (addrs : List Bytes)
    → peer.id ≢ m.node_id
    → IsConsistent m
    → IsConsistent (dial_each m peer dial last addrs).0
unfolding dial_each
dial_each-IsConsistent m peer dial none [] other inv = inv
dial_each-IsConsistent m peer dial (some e) [] other inv = inv
dial_each-IsConsistent m peer dial last (addr ∷ addrs) other inv =
    elim (Result-split (check_response peer.id (dial addr))) [
      | inr (e, failed) ↦
          rw (failed, dial_each) (dial_each-IsConsistent m peer dial (some e) addrs other inv)
      | inl (r, answered) ↦
          rw (answered, dial_each)
            (attach-IsConsistent m peer.id inv other _ outbound _
              (get_or_create_peer-id m peer.id inv) (λ c h. h))
    ]

pub dial_peer-IsConsistent :
    {E : Type 0} (m : Manager) (peer : Peer) (dial : Bytes → Result E Response)
    → peer.id ≢ m.node_id
    → IsConsistent m
    → IsConsistent (dial_peer m peer dial).0
unfolding dial_peer
dial_peer-IsConsistent m peer dial other inv =
    dial_each-IsConsistent m peer dial none peer.addresses other inv

pub connection_closed-IsConsistent :
    (m : Manager) (c : ManagedConn) → IsConsistent m → IsConsistent (connection_closed m c)
unfolding connection_closed
connection_closed-IsConsistent m c inv = elim (Option-cases (lookup c.peer_id m.out.peers)) [
  | inl missing ↦ rw (missing, connection_closed) (close_conn-IsConsistent m c inv)
  | inr (ps, found) ↦
      let other : c.peer_id ≢ m.node_id = λ e. present ps (sym found ∙ rw e inv.not_self) in
      rw (found, connection_closed)
        (close_conn-IsConsistent _ c (
          put_peer_old m c.peer_id inv other
            (reconnect_if (handle_connection_closed m.node_id ps c))
            (handle_connection_closed-id m.node_id ps c ∙ inv.keyed c.peer_id ps found)
            (λ d h.
              ap (λ (x : PeerState). x.conn) (get_or_create_peer_found m c.peer_id ps found)
              ∙ handle_connection_closed-conn m.node_id ps c d h)))
]
  where
    present : (ps : PeerState) → some ps ≢ none
    present ps e = cc

dial_if-frame :
    (b : Bool) (ps : PeerState) → ((dial_if b ps).conn ≡ ps.conn) × ((dial_if b ps).id ≡ ps.id)
unfolding trigger_reconnect ensure_dial_loop
dial_if-frame true ps = ground arith
dial_if-frame false ps = (refl, refl)

pub handle_service_entry-IsConsistent :
    (ip_string : Bytes → Bytes) (m : Manager) (now : ℕ) (entry : Option ServiceEntry)
    → IsConsistent m
    → IsConsistent (handle_service_entry ip_string m now entry)
unfolding handle_service_entry discover
handle_service_entry-IsConsistent ip_string m now entry inv =
    elim (Result-split (peer_from_entry ip_string now entry)) [
      | inr (e, failed) ↦ rw (failed, handle_service_entry) inv
      | inl ((peer, meta), read) ↦ elim (Bool-cases (bytes_beq peer.id m.node_id)) [
        | inl self ↦ rw (read, handle_service_entry) (rw self inv)
        | inr differs ↦
            let other : peer.id ≢ m.node_id =
              λ e. let t = (bytes_beq_iff peer.id m.node_id).1 e in ground arith in
            let kept =
              dial_if-frame (should_dial m.node_id peer.id)
                (discover (get_or_create_peer m peer.id) peer meta.ws_path meta.proto) in
            rw (read, handle_service_entry)
              (rw differs (
                put_peer_old m peer.id inv other _ (kept.1 ∙ get_or_create_peer-id m peer.id inv)
                  (λ c h. sym kept.0 ∙ h)))
      ]
    ]
