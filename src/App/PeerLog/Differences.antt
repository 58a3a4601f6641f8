-- ===== src/App/PeerLog/Differences.antt =====
-- The log tells the difference between two lists of peers, and nothing else.
use clippy.Base.{
  ◌≡◌, ◌≢◌, inl, inr, refl, sym, ◌∙◌, Bool, Option, none, some, List, [], ◌∷◌, ◌++◌, All, arith,
  if◌then◌else◌, Bool-cases, append-nil, beq_ne,
}
use clippy.Base.Bytes.{Bytes, bytes_eq, bytes_beq, bytes_beq_iff}
use clippy.Base.Map.{lookup, insert, lookup-insert, Distinct, insert-Distinct}
use clippy.Netmesh.Types.{Peer}
use clippy.Netmesh.Peers.Order.{DistinctIds, find_peer}
use clippy.App.PeerLog.{
  PeerSeen, LogLine, discovered, state_changed, expired, bool_beq, lines_of, scan_peers, scan_seen,
  log_peer_changes,
}

abbrev pub connected_of : Option Peer → Option Bool
connected_of none = none
connected_of (some p) = some p.connected

abbrev pub line_id : LogLine → Bytes
line_id (discovered p) = p.id
line_id (state_changed id c) = id
line_id (expired id) = id

-- The lines about one peer.
pub about : Bytes → List LogLine → List LogLine
about id [] = []
about id (l ∷ ls) = if bytes_beq (line_id l) id then l ∷ about id ls else about id ls

-- What there is to say about a peer that was seen as `prev` before, and is `now` there.
pub difference : Bytes → Option Bool → Option Peer → List LogLine
difference id none none = []
difference id none (some p) = discovered p ∷ []
difference id (some prev) none = expired id ∷ []
difference id (some prev) (some p) =
    if bool_beq prev p.connected then [] else state_changed id p.connected ∷ []

abbrev or_else : Option Bool → Option Bool → Option Bool
or_else none y = y
or_else (some x) y = some x

or_else-none : (o : Option Bool) → or_else o none ≡ o
or_else-none none = refl
or_else-none (some b) = refl

find_peer-absent :
    (i j : Bytes) (ps : List Peer) → i ≡ j → All (λ (q : Peer). q.id ≢ i) ps → find_peer j ps ≡ none
find_peer-absent i j [] e h = refl
find_peer-absent i j (p ∷ ps) e h =
    rw (beq_ne p.id j (λ same. h.0 (same ∙ sym e))) (find_peer-absent i j ps e h.1)

lookup-scan_peers :
    (seen current : PeerSeen) (ps : List Peer) (id : Bytes)
    → DistinctIds ps
    → lookup id (scan_peers seen current ps).1
      ≡ or_else (connected_of (find_peer id ps)) (lookup id current)
unfolding scan_peers
lookup-scan_peers seen current [] id d = refl
lookup-scan_peers seen current (p ∷ ps) id d =
    lookup-scan_peers seen (insert p.id p.connected current) ps id d.1
    ∙ elim (Bool-cases (bytes_beq p.id id)) [
      | inl same ↦ rw (
        find_peer-absent p.id id ps ((bytes_beq_iff p.id id).0 same) d.0,
        lookup-insert p.id id p.connected current,
        same,
      )
      | inr other ↦ rw (lookup-insert p.id id p.connected current, other)
    ]

about-append :
    (id : Bytes) (xs ys : List LogLine) → about id (xs ++ ys) ≡ about id xs ++ about id ys
unfolding about
about-append id [] ys = refl
about-append id (x ∷ xs) ys = elim (Bool-cases (bytes_beq (line_id x) id)) [
  | inl same ↦ rw (same, about-append id xs ys)
  | inr other ↦ rw (other, about-append id xs ys)
]

about-lines_of :
    (id : Bytes) (seen : PeerSeen) (p : Peer)
    → about id (lines_of seen p) ≡ (if bytes_beq p.id id then lines_of seen p else [])
unfolding about lines_of
about-lines_of id seen p = ground arith

abbrev lines_of_found : PeerSeen → Option Peer → List LogLine
lines_of_found seen none = []
lines_of_found seen (some p) = lines_of seen p

about-scan_peers :
    (id : Bytes) (seen current : PeerSeen) (ps : List Peer)
    → DistinctIds ps
    → about id (scan_peers seen current ps).0 ≡ lines_of_found seen (find_peer id ps)
unfolding about scan_peers
about-scan_peers id seen current [] d = refl
about-scan_peers id seen current (p ∷ ps) d =
    about-append id (lines_of seen p) _
    ∙ rw
        (
          about-lines_of id seen p,
          about-scan_peers id seen (insert p.id p.connected current) ps d.1,
        )
        (elim (Bool-cases (bytes_beq p.id id)) [
          | inl same ↦
              rw (same, find_peer-absent p.id id ps ((bytes_beq_iff p.id id).0 same) d.0)
                (append-nil (lines_of seen p))
          | inr other ↦ rw other
        ])

abbrev expired_if : Bytes → Option Bool → Option Bool → List LogLine
expired_if id (some prev) none = expired id ∷ []
expired_if id _ _ = []

about-scan_seen :
    (id : Bytes) (current seen : PeerSeen)
    → Distinct seen
    → about id (scan_seen current seen) ≡ expired_if id (lookup id seen) (lookup id current)
unfolding about scan_seen lookup
about-scan_seen id current [] d = refl
about-scan_seen id current ((j, c) ∷ seen) d =
    ground (arith, bytes_beq_iff j id, about-scan_seen id current seen d.1, d.0)

scan_peers-Distinct :
    (seen current : PeerSeen) (ps : List Peer)
    → Distinct current
    → Distinct (scan_peers seen current ps).1
unfolding scan_peers
scan_peers-Distinct seen current [] d = d
scan_peers-Distinct seen current (p ∷ ps) d =
    scan_peers-Distinct seen (insert p.id p.connected current) ps
      (insert-Distinct p.id p.connected current d)

-- The two loops together say the difference.
joined :
    (id : Bytes) (seen : PeerSeen) (now : Option Peer)
    → ((p : Peer) → now ≡ some p → p.id ≡ id)
    → lines_of_found seen now ++ expired_if id (lookup id seen) (connected_of now)
      ≡ difference id (lookup id seen) now
unfolding difference lines_of
joined id seen none h = ground arith
joined id seen (some p) h = let same = h p refl in ground arith

find_peer-id : (id : Bytes) (ps : List Peer) (p : Peer) → find_peer id ps ≡ some p → p.id ≡ id
find_peer-id id [] p h = cc
find_peer-id id (q ∷ ps) p h = ground (arith, bytes_beq_iff q.id id, find_peer-id id ps p)

-- Of peers with distinct identifiers, and with one entry for each identifier in what was seen
-- before: what `logPeerChanges` logs about an identifier is the difference between what was seen
-- of it and what it is now, which is one line or none (a new peer, a changed connection, or a
-- peer that is gone); and what is seen next are the peers as they are now, again with one entry
-- for each identifier.
pub log_peer_changes-difference :
    (seen : PeerSeen) (peers : List Peer) (id : Bytes)
    → Distinct seen
    → DistinctIds peers
    → (about id (log_peer_changes seen peers).0
        ≡ difference id (lookup id seen) (find_peer id peers))
      × (lookup id (log_peer_changes seen peers).1 ≡ connected_of (find_peer id peers))
      × Distinct (log_peer_changes seen peers).1
unfolding log_peer_changes lookup
log_peer_changes-difference seen peers id ds dp =
    let after : lookup id (scan_peers seen [] peers).1 ≡ connected_of (find_peer id peers) =
      lookup-scan_peers seen [] peers id dp ∙ or_else-none (connected_of (find_peer id peers)) in
    (
      about-append id (scan_peers seen [] peers).0 _
          ∙ rw
              (
                about-scan_peers id seen [] peers dp,
                about-scan_seen id (scan_peers seen [] peers).1 seen ds,
                after,
              )
              (joined id seen (find_peer id peers) (find_peer-id id peers)),
      after,
      scan_peers-Distinct seen [] peers tt,
    )

silent : (ls : List LogLine) → ((id : Bytes) → about id ls ≡ []) → ls ≡ []
unfolding about
silent [] h = refl
silent (l ∷ ls) h =
    let q = h (line_id l) in
    absurd (let self = (bytes_beq_iff (line_id l) (line_id l)).1 refl in ground arith)

no_difference : (id : Bytes) (now : Option Peer) → difference id (connected_of now) now ≡ []
unfolding difference
no_difference id none = refl
no_difference id (some p) = ground arith

-- `logPeerChanges` that runs again with the same peers logs nothing, if the peers have distinct
-- identifiers and what was seen at first has one entry for each identifier.
pub log_peer_changes_again :
    (seen : PeerSeen) (peers : List Peer)
    → Distinct seen
    → DistinctIds peers
    → (log_peer_changes (log_peer_changes seen peers).1 peers).0 ≡ []
log_peer_changes_again seen peers ds dp = silent _ (λ id.
    let (_, seen_now, distinct) = log_peer_changes-difference seen peers id ds dp in
    (log_peer_changes-difference (log_peer_changes seen peers).1 peers id distinct dp).0
    ∙ rw seen_now (no_difference id (find_peer id peers)))
