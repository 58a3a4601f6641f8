-- ===== src/Netmesh/DialLoop/Reconnect.antt =====
-- No reconnect is lost, and the peer's snapshot tells the truth about its connection.
use clippy.Base.{
  ℕ, ◌+◌, ◌<◌, ◌≡◌, ◌≢◌, refl, ap, sym, subst, ◌⊎◌, inl, inr, true, false, none, List, [], ◌∷◌,
  arith, ◌==◌, length,
}
use clippy.Base.Bytes.{Bytes, bytes_beq, bytes_beq_iff}
use clippy.Base.Int.{ℤ}
use clippy.Netmesh.Types.{protocol_version, ManagedConn, PeerState}
use clippy.Netmesh.PeerState.{
  should_dial, new_peer_state, note_name, reset_backoff, trigger_reconnect, copy_ips, name_peer,
  adopt, attach_connection, handle_connection_closed, discover, ensure_dial_loop, prune_stale,
  dialable, prepare_dial, is_zero, is_some,
}
use clippy.Netmesh.DialLoop.{
  Phase, waiting, preparing, dialing, finished, backing_off, Loop, Step, discovers, starts, signals,
  prunes, names, accepts, closes, wakes, declines, dials, connects, fails, finishes, times_out,
  hurries, initial, Reach, here, next,
}

-- The loop is on its way to a dial.
abbrev pub IsActive : Phase → Type 0
IsActive waiting = ⊥
IsActive preparing = Unit {0}
IsActive (dialing plan) = Unit {0}
IsActive finished = ⊥
IsActive backing_off = Unit {0}

pub record IsGood (self_id : Bytes) (l : Loop) : Type 0 where
  -- The flag in the snapshot is the presence of a connection.
  pub truthful : l.ps.peer.connected ≡ is_some l.ps.conn
  -- A discovered peer can be dialed.
  pub addressed :
      l.ps.discovered ≡ true
      → (is_zero l.ps.peer.port ≡ false)
        × (l.ps.peer.addresses ≢ [])
        × (l.ps.ws_path ≢ [])
        × (l.ps.proto ≡ protocol_version)
  -- The loop of a peer that should be dialed runs, or will.
  pub looping :
      l.ps.discovered ≡ true
      → should_dial self_id l.ps.id ≡ true
      → (l.ps.dial_loop_started ≡ true) ⊎ (0 < l.starting)
  -- A peer that should be dialed is being dialed, or the loop has a signal to do so, or will.
  pub pursued :
      l.ps.discovered ≡ true
      → should_dial self_id l.ps.id ≡ true
      → l.ps.conn ≡ none
      → ((l.ps.reconnect_pending ≡ true) ⊎ (0 < l.starting + l.signalling)) ⊎ IsActive l.phase

attach-conn :
    (self_id : Bytes) (ps : PeerState) (c : ManagedConn)
    → (attach_connection self_id ps c).state.conn ≢ none
unfolding attach_connection adopt name_peer
attach-conn self_id ps c h = ground arith

attach-frame :
    (self_id : Bytes) (ps : PeerState) (c : ManagedConn)
    → let q = (attach_connection self_id ps c).state in
      (q.id ≡ ps.id)
      × (q.discovered ≡ ps.discovered)
      × (q.peer.port ≡ ps.peer.port)
      × (q.peer.addresses ≡ ps.peer.addresses)
      × (q.ws_path ≡ ps.ws_path)
      × (q.proto ≡ ps.proto)
      × (q.dial_loop_started ≡ ps.dial_loop_started)
unfolding attach_connection adopt name_peer
attach-frame self_id ps c = ground arith

attach-connected :
    (self_id : Bytes) (ps : PeerState) (c : ManagedConn)
    → ps.peer.connected ≡ is_some ps.conn
    → let q = (attach_connection self_id ps c).state in q.peer.connected ≡ is_some q.conn
unfolding attach_connection adopt name_peer
attach-connected self_id ps c h = ground arith

copy_ips-ne-nil : (ips : List Bytes) → ips ≢ [] → copy_ips ips ≢ []
unfolding copy_ips
copy_ips-ne-nil [] ne = ne
copy_ips-ne-nil (ip ∷ ips) ne = λ h. cc

length-ne-zero : (ips : List Bytes) → ips ≢ [] → length ips == 0 ≡ false
length-ne-zero [] ne = absurd (ne refl)
length-ne-zero (ip ∷ ips) ne = ground arith

bytes-ne-nil : (b : Bytes) → b ≢ [] → bytes_beq b [] ≡ false
unfolding bytes_beq
bytes-ne-nil [] ne = absurd (ne refl)
bytes-ne-nil (x ∷ xs) ne = refl

-- With an address, a path and the protocol, nothing but a connection keeps `prepareDial` back.
dialable_good :
    (self_id : Bytes) (l : Loop)
    → IsGood self_id l
    → l.ps.discovered ≡ true
    → should_dial self_id l.ps.id ≡ true
    → l.ps.conn ≡ none
    → dialable self_id l.ps ≡ true
unfolding dialable
dialable_good self_id l g d s n =
    let (port, addresses, path, proto) = g.addressed d in
    ground (
      arith,
      port,
      length-ne-zero l.ps.peer.addresses addresses,
      bytes-ne-nil l.ps.ws_path path,
      (bytes_beq_iff l.ps.proto protocol_version).1 proto,
    )

module _ (self_id : Bytes) (low high : ℤ) where
  prepare_declined :
      (ps : PeerState)
      → (prepare_dial self_id low high ps).1 ≡ none
      → (dialable self_id ps ≡ false) × ((prepare_dial self_id low high ps).0 ≡ ps)
  unfolding prepare_dial
  prepare_declined ps h = ground arith

  prepare-frame :
      (ps : PeerState)
      → let q = (prepare_dial self_id low high ps).0 in q ≡ record ps { backoff = q.backoff }
  unfolding prepare_dial
  prepare-frame ps = ground arith

-- Only the backoff differs: the invariant does not read it.
backoff-IsGood :
    (self_id : Bytes) (l : Loop) (q : PeerState) (phase : Phase)
    → q ≡ record l.ps { backoff = q.backoff }
    → (IsActive l.phase → IsActive phase)
    → IsGood self_id l
    → IsGood self_id (record l { ps = q; phase = phase })
backoff-IsGood self_id l q phase e keeps g =
    subst (λ x. IsGood self_id (record l { ps = x; phase = phase })) (sym e)
      (record {
        truthful = g.truthful;
        addressed = g.addressed;
        looping = g.looping;
        pursued = λ d s n. elim (g.pursued d s n) [ inl p ↦ inl p | inr a ↦ inr (keeps a) ];
      })

module _ (self_id : Bytes) (low high : ℤ) (stale_after : ℕ) where
  accepts-IsGood :
      (l : Loop) (c : ManagedConn) (phase : Phase)
      → IsGood self_id l
      → IsGood self_id (record l { ps = (attach_connection self_id l.ps c).state; phase = phase })
  accepts-IsGood l c phase g =
      let frame = attach-frame self_id l.ps c in
      record {
        truthful = attach-connected self_id l.ps c g.truthful;
        addressed = λ d. ground (arith, g.addressed (ground arith));
        looping = λ d s. ground (arith, g.looping (ground arith) (ground arith));
        pursued = λ d s gone. absurd (attach-conn self_id l.ps c gone);
      }

  Step-IsGood :
      {l m : Loop} → Step self_id low high stale_after l m → IsGood self_id l → IsGood self_id m
  unfolding note_name discover ensure_dial_loop trigger_reconnect prune_stale
      handle_connection_closed reset_backoff
  Step-IsGood (discovers l peer ws_path proto e) g = record {
    truthful = ground (arith, g.truthful);
    addressed = λ d. ground (
      arith,
      e.has_port,
      e.has_path,
      e.has_proto,
      copy_ips-ne-nil peer.addresses e.has_addresses,
    );
    looping = λ d s. inr (ground (arith, ap (should_dial self_id) e.same_id));
    pursued = λ d s n. inl (inr (ground (arith, ap (should_dial self_id) e.same_id)));
  }
  Step-IsGood (starts l p) g = record {
    truthful = ground (arith, g.truthful);
    addressed = λ d. ground (arith, g.addressed);
    looping = λ d s. inl (ground arith);
    pursued = λ d s n. inl (inr (omega arith));
  }
  Step-IsGood (signals l p) g = record {
    truthful = g.truthful;
    addressed = g.addressed;
    looping = g.looping;
    pursued = λ d s n. inl (inl refl);
  }
  Step-IsGood (prunes l now) g = record {
    truthful = ground (arith, g.truthful);
    addressed = λ d. ground (arith, g.addressed);
    looping = λ d s. ground (arith, g.looping);
    pursued = λ d s n. ground (arith, g.pursued);
  }
  Step-IsGood (names l remote_name) g = record {
    truthful = ground (arith, g.truthful);
    addressed = λ d. ground (arith, g.addressed);
    looping = λ d s. ground (arith, g.looping);
    pursued = λ d s n. ground (arith, g.pursued);
  }
  Step-IsGood (accepts l c) g = accepts-IsGood l c l.phase g
  Step-IsGood (closes l c) g = record {
    truthful = ground (arith, g.truthful);
    addressed = λ d. ground (arith, g.addressed);
    looping = λ d s. ground (arith, g.looping);
    pursued = λ d s n. ground (arith, g.pursued);
  }
  Step-IsGood (wakes l w s p) g = record {
    truthful = g.truthful;
    addressed = g.addressed;
    looping = g.looping;
    pursued = λ d s n. inr tt;
  }
  Step-IsGood (declines l w n) g =
      let (refused, same) = prepare_declined self_id low high l.ps n in
      subst (λ x. IsGood self_id (record l { ps = x; phase = waiting })) (sym same)
        (record {
          truthful = g.truthful;
          addressed = g.addressed;
          looping = g.looping;
          pursued = λ d s free. let ready = dialable_good self_id l g d s free in cc;
        })
  Step-IsGood (dials l plan w n) g =
      backoff-IsGood self_id l _ (dialing plan) (prepare-frame self_id low high l.ps) (λ _. tt) g
  Step-IsGood (connects l plan c w o) g = accepts-IsGood l c finished g
  Step-IsGood (fails l plan w) g = record {
    truthful = g.truthful;
    addressed = g.addressed;
    looping = g.looping;
    pursued = λ d s n. inr tt;
  }
  Step-IsGood (finishes l w) g = backoff-IsGood self_id l _ waiting refl (λ a. subst IsActive w a) g
  Step-IsGood (times_out l w) g = record {
    truthful = g.truthful;
    addressed = g.addressed;
    looping = g.looping;
    pursued = λ d s n. inr tt;
  }
  Step-IsGood (hurries l w p) g = record {
    truthful = g.truthful;
    addressed = g.addressed;
    looping = g.looping;
    pursued = λ d s n. inr tt;
  }

initial-IsGood : (self_id peer_id : Bytes) → IsGood self_id (initial peer_id)
unfolding initial new_peer_state
initial-IsGood self_id peer_id = record {
  truthful = refl;
  addressed = λ d. cc;
  looping = λ d s. cc;
  pursued = λ d s n. cc;
}

-- In every state that a peer can reach, by any interleaving of discovery, pruning, inbound
-- connections, closing connections and the dial loop: the snapshot says connected exactly when
-- there is a connection; a discovered peer has a port, an address, a path and the protocol
-- version; and if this node is the one to dial a discovered peer, its dial loop runs or is about
-- to be started, and while there is no connection the loop is on its way to a dial, holds a
-- signal to start one, or is about to get one.
pub reach-IsGood :
    (self_id : Bytes) (low high : ℤ) (stale_after : ℕ) (peer_id : Bytes) {l : Loop}
    → Reach self_id low high stale_after peer_id l
    → IsGood self_id l
reach-IsGood self_id low high stale_after peer_id here = initial-IsGood self_id peer_id
reach-IsGood self_id low high stale_after peer_id (next r s) =
    Step-IsGood self_id low high stale_after s (reach-IsGood self_id low high stale_after peer_id r)
