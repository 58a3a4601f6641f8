-- ===== src/Netmesh/PeerState/TieBreak.antt =====
-- When both ends dial at once there are two connections between them, one dialed by each. The
-- two ends must keep the same one.
use clippy.Base.{◌≡◌, ◌≢◌, Bool, true, false, none, some, arith, if◌then◌else◌}
use clippy.Base.Bytes.{Bytes}
use clippy.Netmesh.Types.{inbound, outbound, ManagedConn, PeerState}
use clippy.Netmesh.PeerState.{
  should_dial, preferred_direction, direction_beq, name_peer, adopt, attach_connection,
}

-- The connections of one end: a state, and the attachment of two connections in turn.
attach_two : Bytes → PeerState → ManagedConn → ManagedConn → PeerState
attach_two self_id ps c d =
    (attach_connection self_id (attach_connection self_id ps c).state d).state

attach_two-conn :
    (self_id : Bytes) (ps : PeerState) (c d : ManagedConn)
    → ps.conn ≡ none
    → c.direction ≢ d.direction
    → (attach_two self_id ps c d).conn
      ≡ some (if direction_beq d.direction (preferred_direction self_id ps.id) then d else c)
unfolding attach_two attach_connection adopt name_peer
attach_two-conn self_id ps c d free ne = ground arith

-- Two connections in one of their two orders.
pub attach_both : Bool → Bytes → PeerState → ManagedConn → ManagedConn → PeerState
unfolding attach_two
attach_both true self_id ps c d = attach_two self_id ps c d
attach_both false self_id ps c d = attach_two self_id ps d c

pub attach_both-conn :
    (order : Bool) (self_id : Bytes) (ps : PeerState) (c d : ManagedConn)
    → ps.conn ≡ none
    → c.direction ≡ outbound
    → d.direction ≡ inbound
    → (attach_both order self_id ps c d).conn ≡ some (if should_dial self_id ps.id then c else d)
unfolding attach_both preferred_direction
attach_both-conn true self_id ps c d free out inn =
    ground (arith, attach_two-conn self_id ps c d free (λ e. cc))
attach_both-conn false self_id ps c d free out inn =
    ground (arith, attach_two-conn self_id ps d c free (λ e. cc))
