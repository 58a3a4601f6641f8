-- ===== src/Netmesh/Peers/Order.antt =====
-- The list of peers says the same as the table, in the order of the identifiers.
use clippy.Base.{
  ◌≡◌, ◌≢◌, inl, inr, refl, sym, ap, ◌∙◌, subst, true, Option, none, some, List, [], ◌∷◌,
  if◌then◌else◌, All, All-map, arith, Bool-cases,
}
use clippy.Base.Bytes.{
  Bytes, bytes_beq, bytes_beq_iff, bytes_eq, bytes_ltb, bytes_ltb_irrefl, bytes_ltb_total,
  bytes_ltb_trans,
}
use clippy.Base.Map.{lookup, Distinct}
use clippy.Netmesh.Types.{Peer, PeerState}
use clippy.Netmesh.PeerState.{copy_ips, peer_copy_locked}
use clippy.Netmesh.Broadcast.Each.{IsKeyed}
use clippy.Netmesh.Peers.{snapshots, insert_peer, sort_peers, peers}

-- No two peers have the same identifier.
abbrev pub DistinctIds : List Peer → Type 0
DistinctIds [] = Unit
DistinctIds (p ∷ ps) = All (λ (q : Peer). q.id ≢ p.id) ps × DistinctIds ps

-- The peer of an identifier.
abbrev pub find_peer : Bytes → List Peer → Option Peer
find_peer id [] = none
find_peer id (p ∷ ps) = if bytes_beq p.id id then some p else find_peer id ps

-- The identifiers rise.
abbrev pub Ascending : List Peer → Type 0
Ascending [] = Unit
Ascending (p ∷ ps) = All (λ (q : Peer). bytes_ltb p.id q.id ≡ true) ps × Ascending ps

-- What a table has of a peer: the identifier of its entry, and the name, the host, the port, the
-- addresses, the flag and the time that it keeps.
abbrev pub snapshot_of : Option PeerState → Option Peer
snapshot_of none = none
snapshot_of (some ps) = some (record {
  id = ps.id;
  name = ps.peer.name;
  host = ps.peer.host;
  port = ps.peer.port;
  addresses = ps.peer.addresses;
  connected = ps.peer.connected;
  last_seen = ps.peer.last_seen;
})

copy_ips_lem : (ips : List Bytes) → copy_ips ips ≡ ips
unfolding copy_ips
copy_ips_lem [] = refl
copy_ips_lem (ip ∷ ips) = ap (λ x. ip ∷ x) (copy_ips_lem ips)

peer_copy_locked-snapshot_of : (ps : PeerState) → some (peer_copy_locked ps) ≡ snapshot_of (some ps)
unfolding peer_copy_locked
peer_copy_locked-snapshot_of ps = rw (copy_ips_lem ps.peer.addresses) refl

find_peer-insert_peer :
    (id : Bytes) (p : Peer) (ps : List Peer)
    → find_peer p.id ps ≡ none
    → find_peer id (insert_peer p ps) ≡ (if bytes_beq p.id id then some p else find_peer id ps)
unfolding insert_peer
find_peer-insert_peer id p [] h = refl
find_peer-insert_peer id p (q ∷ qs) h = ground (
  arith,
  bytes_beq_iff p.id id,
  bytes_beq_iff q.id id,
  bytes_beq_iff q.id p.id,
  find_peer-insert_peer id p qs,
)

-- A bound of the list and of the peer is one of both together.
All-insert_peer :
    (P : Peer → Type 0) (p : Peer) (ps : List Peer) → P p → All P ps → All P (insert_peer p ps)
unfolding insert_peer
All-insert_peer P p [] h hs = (h, tt)
All-insert_peer P p (q ∷ qs) h hs = elim (Bool-cases (bytes_ltb q.id p.id)) [
  | inl below ↦ rw below (hs.0, All-insert_peer P p qs h hs.1)
  | inr above ↦ rw above (h, hs)
]

find_peer-cons_none :
    (id : Bytes) (q : Peer) (qs : List Peer)
    → find_peer id (q ∷ qs) ≡ none
    → (q.id ≢ id) × (find_peer id qs ≡ none)
find_peer-cons_none id q qs h = elim (Bool-cases (bytes_beq q.id id)) [
  | inl same ↦ absurd (ground arith)
  | inr differs ↦ ((λ e. let same = (bytes_beq_iff q.id id).1 e in ground arith), ground arith)
]

insert_peer-Ascending :
    (p : Peer) (ps : List Peer)
    → find_peer p.id ps ≡ none
    → Ascending ps
    → Ascending (insert_peer p ps)
unfolding insert_peer
insert_peer-Ascending p [] h a = (tt, tt)
insert_peer-Ascending p (q ∷ qs) h a = elim (Bool-cases (bytes_ltb q.id p.id)) [
  | inl below ↦ rw below (
    All-insert_peer (λ (r : Peer). bytes_ltb q.id r.id ≡ true) p qs below a.0,
    insert_peer-Ascending p qs (find_peer-cons_none p.id q qs h).1 a.1,
  )
  | inr above ↦
      let before : bytes_ltb p.id q.id ≡ true =
        elim (bytes_ltb_total p.id q.id (λ e. (find_peer-cons_none p.id q qs h).0 (sym e))) [
          | inl less ↦ less
          | inr more ↦ ground arith
        ] in
      rw above
        ((before, All-map _ _ (λ r beyond. bytes_ltb_trans p.id q.id r.id before beyond) qs a.0), a)
]

peers-cons :
    (id : Bytes) (ps : PeerState) (table : List (Bytes × PeerState))
    → peers ((id, ps) ∷ table) ≡ insert_peer (peer_copy_locked ps) (peers table)
unfolding peers snapshots sort_peers
peers-cons id ps table = refl

peer_copy_locked-id : (ps : PeerState) → (peer_copy_locked ps).id ≡ ps.id
unfolding peer_copy_locked
peer_copy_locked-id ps = refl

find_peer-peers :
    (table : List (Bytes × PeerState)) (id : Bytes)
    → Distinct table
    → IsKeyed table
    → find_peer id (peers table) ≡ snapshot_of (lookup id table)
unfolding lookup
find_peer-peers [] id d keyed = unfold peers snapshots sort_peers in refl
find_peer-peers ((j, ps) ∷ table) id d keyed =
    let copied = peer_copy_locked-id ps ∙ keyed.0 in
    let unknown : find_peer (peer_copy_locked ps).id (peers table) ≡ none =
      subst (λ k. find_peer k (peers table) ≡ none) (sym copied)
        (find_peer-peers table j d.1 keyed.1 ∙ ap snapshot_of d.0) in
    rw (peers-cons j ps table) (
      find_peer-insert_peer id (peer_copy_locked ps) (peers table) unknown
      ∙ ap (λ k. if bytes_beq k id then some (peer_copy_locked ps) else find_peer id (peers table))
          copied
      ∙ elim (Bool-cases (bytes_beq j id)) [
        | inl same ↦ rw same (peer_copy_locked-snapshot_of ps)
        | inr other ↦ rw other (find_peer-peers table id d.1 keyed.1)
      ])

peers-Ascending :
    (table : List (Bytes × PeerState)) → Distinct table → IsKeyed table → Ascending (peers table)
peers-Ascending [] d keyed = unfold peers snapshots sort_peers in tt
peers-Ascending ((j, ps) ∷ table) d keyed =
    let copied = peer_copy_locked-id ps ∙ keyed.0 in
    rw (peers-cons j ps table) (
      insert_peer-Ascending (peer_copy_locked ps) (peers table)
        (subst (λ k. find_peer k (peers table) ≡ none) (sym copied)
          (find_peer-peers table j d.1 keyed.1 ∙ ap snapshot_of d.0))
        (peers-Ascending table d.1 keyed.1))

Ascending-DistinctIds : (ps : List Peer) → Ascending ps → DistinctIds ps
Ascending-DistinctIds [] a = tt
Ascending-DistinctIds (p ∷ ps) a = (
  All-map _ _
      (λ q below same.
        let b = subst (λ k. bytes_ltb p.id k ≡ true) same below in
        let never = bytes_ltb_irrefl p.id in ground arith)
      ps a.0,
  Ascending-DistinctIds ps a.1,
)

-- Of a table with one peer for each identifier, under that identifier: `Peers` lists exactly the
-- peers of the table, each with all the fields that the table has, so that a look for an identifier
-- in the list finds what the table has; the identifiers rise, whatever the order of the table, and
-- therefore differ.
pub peers-order :
    (table : List (Bytes × PeerState)) (id : Bytes)
    → Distinct table
    → IsKeyed table
    → (find_peer id (peers table) ≡ snapshot_of (lookup id table))
      × Ascending (peers table)
      × DistinctIds (peers table)
peers-order table id d keyed =
    let rising = peers-Ascending table d keyed in
    (find_peer-peers table id d keyed, rising, Ascending-DistinctIds (peers table) rising)
