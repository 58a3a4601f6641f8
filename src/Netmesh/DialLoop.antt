-- ===== src/Netmesh/DialLoop.antt =====
-- `dialLoop` of internal/netmesh/discovery.go beside everything else that touches the peer. A step
-- is one critical section, or one operation on the channel of reconnect signals. The loop's exit
-- at shutdown is left out: after it nothing is dialed any more.
pub mod Reconnect
use clippy.Base.{ℕ, ◌+◌, ◌-◌, ◌<◌, ◌≡◌, ◌≢◌, Bool, true, false, Option, none, some, List, []}
use clippy.Base.Bytes.{Bytes}
use clippy.Base.Int.{ℤ, pos}
use clippy.Netmesh.Types.{
  protocol_version, ConnectionDirection, outbound, Peer, ManagedConn, PeerState,
}
use clippy.Netmesh.PeerState.{
  DialPlan, new_peer_state, note_name, reset_backoff, attach_connection, handle_connection_closed,
  should_dial, trigger_reconnect, ensure_dial_loop, discover, prune_stale, prepare_dial, is_zero,
}

-- Where the loop stands: before `<-ps.reconnectCh`, before `prepareDial`, in `dialPeer`, after a
-- dial without error, or in the `select` with the timer.
pub data Phase : Type 0 where
  waiting preparing : Phase
  dialing : DialPlan → Phase
  finished backing_off : Phase

pub record Loop : Type 0 where
  pub ps : PeerState
  pub phase : Phase
  -- Calls of `handleServiceEntry` that are about to call `ensureDialLoop`.
  pub starting : ℕ
  -- Calls that are about to call `triggerReconnect`.
  pub signalling : ℕ

abbrev pub one_if : Bool → ℕ
one_if true = 1
one_if false = 0

-- What `peerFromEntry` has checked of an entry when `handleServiceEntry` uses it.
pub record IsEntry (ps : PeerState) (peer : Peer) (ws_path proto : Bytes) : Type 0 where
  pub same_id : peer.id ≡ ps.id
  pub has_port : is_zero peer.port ≡ false
  pub has_addresses : peer.addresses ≢ []
  pub has_path : ws_path ≢ []
  pub has_proto : proto ≡ protocol_version

-- `self_id` is the node's identifier, `low` and `high` the bounds of the backoff, and
-- `stale_after` the age at which a peer is forgotten.
pub data Step (self_id : Bytes) (low high : ℤ) (stale_after : ℕ) : Loop → Loop → Type 0 where
  discovers :
      (l : Loop) (peer : Peer) (ws_path proto : Bytes)
      → IsEntry l.ps peer ws_path proto
      → Step self_id low high stale_after l (record l {
        ps = discover l.ps peer ws_path proto;
        starting = l.starting + one_if (should_dial self_id peer.id);
      })
  starts :
      (l : Loop)
      → 0 < l.starting
      → Step self_id low high stale_after l (record l {
        ps = ensure_dial_loop l.ps;
        starting = l.starting - 1;
        signalling = l.signalling + 1;
      })
  signals :
      (l : Loop)
      → 0 < l.signalling
      → Step self_id low high stale_after l
          (record l { ps = trigger_reconnect l.ps; signalling = l.signalling - 1 })
  prunes :
      (l : Loop) (now : ℕ)
      → Step self_id low high stale_after l (record l { ps = prune_stale stale_after now l.ps })
  names :
      (l : Loop) (remote_name : Bytes)
      → Step self_id low high stale_after l (record l { ps = note_name l.ps remote_name })
  accepts :
      (l : Loop) (conn : ManagedConn)
      → Step self_id low high stale_after l
          (record l { ps = (attach_connection self_id l.ps conn).state })
  closes :
      (l : Loop) (conn : ManagedConn)
      → Step self_id low high stale_after l (record l {
        ps = (handle_connection_closed self_id l.ps conn).0;
        signalling = l.signalling + one_if (handle_connection_closed self_id l.ps conn).1;
      })
  wakes :
      (l : Loop)
      → l.phase ≡ waiting
      → l.ps.dial_loop_started ≡ true
      → l.ps.reconnect_pending ≡ true
      → Step self_id low high stale_after l
          (record l { ps = record l.ps { reconnect_pending = false }; phase = preparing })
  declines :
      (l : Loop)
      → l.phase ≡ preparing
      → (prepare_dial self_id low high l.ps).1 ≡ none
      → Step self_id low high stale_after l
          (record l { ps = (prepare_dial self_id low high l.ps).0; phase = waiting })
  dials :
      (l : Loop) (plan : DialPlan)
      → l.phase ≡ preparing
      → (prepare_dial self_id low high l.ps).1 ≡ some plan
      → Step self_id low high stale_after l
          (record l { ps = (prepare_dial self_id low high l.ps).0; phase = dialing plan })
  connects :
      (l : Loop) (plan : DialPlan) (conn : ManagedConn)
      → l.phase ≡ dialing plan
      → conn.direction ≡ outbound
      → Step self_id low high stale_after l
          (record l { ps = (attach_connection self_id l.ps conn).state; phase = finished })
  fails :
      (l : Loop) (plan : DialPlan)
      → l.phase ≡ dialing plan
      → Step self_id low high stale_after l (record l { phase = backing_off })
  finishes :
      (l : Loop)
      → l.phase ≡ finished
      → Step self_id low high stale_after l (record l { ps = reset_backoff l.ps; phase = waiting })
  times_out :
      (l : Loop)
      → l.phase ≡ backing_off
      → Step self_id low high stale_after l (record l { phase = preparing })
  hurries :
      (l : Loop)
      → l.phase ≡ backing_off
      → l.ps.reconnect_pending ≡ true
      → Step self_id low high stale_after l
          (record l { ps = record l.ps { reconnect_pending = false }; phase = preparing })

-- The loop of a peer that was just created.
unfoldable pub initial : Bytes → Loop
initial peer_id = record {
  ps = new_peer_state peer_id;
  phase = waiting;
  starting = 0;
  signalling = 0;
}

pub data Reach (self_id : Bytes) (low high : ℤ) (stale_after : ℕ) (peer_id : Bytes)
    : Loop → Type 0 where
  here : Reach self_id low high stale_after peer_id (initial peer_id)
  next :
      {l m : Loop}
      → Reach self_id low high stale_after peer_id l
      → Step self_id low high stale_after l m
      → Reach self_id low high stale_after peer_id m
