-- ===== src/Netmesh/Manager/Sending.antt =====
-- Sending changes no peer and removes no queue.
use clippy.Base.{
  ℕ, ◌≡◌, ◌≢◌, refl, sym, ap, subst, ◌∙◌, Bool, none, List, [], ◌∷◌, nat_eq, Option-cases,
  Bool-cases, Result-split, inl, inr, ltb, length,
}
use clippy.Base.Bytes.{Bytes, bytes_eq}
use clippy.Base.Map.{lookup, Distinct}
use clippy.Netmesh.Types.{ManagedConn, PeerState}
use clippy.Netmesh.Delivery.{Link, Outgoing, peer_state, enqueue, send_on, send}
use clippy.Netmesh.Delivery.Queues.{taken, dropped, enqueue-Queued}
use clippy.Netmesh.Broadcast.{broadcast_each, broadcast}
use clippy.Netmesh.Broadcast.Offers.{send_on_missing, send_on_found}
use clippy.Netmesh.Broadcast.Each.{each_none, each_some}
use clippy.Netmesh.Manager.{Manager}
use clippy.Netmesh.Manager.Table.{AllEnded, IsConsistent, insert_present, insert_ended}

-- The same peers, and every queue that was there.
pub record KeepsTable (o o' : Outgoing) : Type 0 where
  pub peers : o'.peers ≡ o.peers
  pub links : (h : ℕ) → lookup h o.links ≢ none → lookup h o'.links ≢ none
  pub down : AllEnded o.links → AllEnded o'.links

same_KeepsTable : (o : Outgoing) → KeepsTable o o
same_KeepsTable o = record { peers = refl; links = λ h p. p; down = λ a. a }

KeepsTable-trans : (a b c : Outgoing) → KeepsTable a b → KeepsTable b c → KeepsTable a c
KeepsTable-trans a b c p q = record {
  peers = q.peers ∙ p.peers;
  links = λ h present. q.links h (p.links h present);
  down = λ a. q.down (p.down a);
}

-- A queue that takes a frame does not come back to life.
enqueue-cancelled :
    (size : ℕ) (ended : Bool) (choice : ℕ) (l : Link) (frame : Bytes)
    → (enqueue size ended choice l frame).0.cancelled ≡ l.cancelled
enqueue-cancelled size ended choice l frame = elim (enqueue-Queued size ended choice l frame) [
  | taken room e ↦ ap (λ x. x.0.cancelled) e
  | dropped x e ↦ ap (λ x. x.0.cancelled) e
]

send_on-KeepsTable :
    (o : Outgoing) (ended : Bool) (choice : ℕ) (c : ManagedConn) (frame : Bytes)
    → KeepsTable o (send_on o ended choice c frame).0
send_on-KeepsTable o ended choice c frame = elim (Option-cases (lookup c.handle o.links)) [
  | inl missing ↦ rw (send_on_missing o ended choice c frame missing) (same_KeepsTable o)
  | inr (l, found) ↦ rw (send_on_found o ended choice c frame l found) (record {
    peers = refl;
    links = λ h present. insert_present h c.handle _ o.links present;
    down = λ a.
        insert_ended c.handle _ o.links
          (enqueue-cancelled o.send_queue_size ended choice l frame ∙ a c.handle l found) a;
  })
]

pub send-KeepsTable :
    (o : Outgoing) (ended : Bool) (choice : ℕ) (id frame : Bytes)
    → KeepsTable o (send o ended choice id frame).0
unfolding send
send-KeepsTable o ended choice id frame = elim (Bool-cases (ltb o.max_frame_bytes (length frame))) [
  | inl large ↦ rw (large, send) (same_KeepsTable o)
  | inr fits ↦ elim (Result-split (peer_state o id)) [
    | inr (e, failed) ↦ rw (fits, send) (rw (failed, send) (same_KeepsTable o))
    | inl (ps, found) ↦ elim (Option-cases ps.conn) [
      | inl idle ↦ rw (fits, send) (rw (found, send) (rw (idle, send) (same_KeepsTable o)))
      | inr (c, busy) ↦
          rw (fits, send)
            (rw (found, send) (rw (busy, send) (send_on-KeepsTable o ended choice c frame)))
    ]
  ]
]

broadcast_each-KeepsTable :
    (o : Outgoing) (ended : Bytes → Bool) (choice : Bytes → ℕ) (frame : Bytes)
    (peers : List (Bytes × PeerState))
    → KeepsTable o (broadcast_each o ended choice frame peers).0
broadcast_each-KeepsTable o ended choice frame [] = unfold broadcast_each in same_KeepsTable o
broadcast_each-KeepsTable o ended choice frame ((id, ps) ∷ peers) = elim (Option-cases ps.conn) [
  | inl idle ↦
      rw (each_none ended choice frame o id ps peers idle)
        (broadcast_each-KeepsTable o ended choice frame peers)
  | inr (c, busy) ↦
      let o' = (send_on o (ended ps.id) (choice ps.id) c frame).0 in
      rw (each_some ended choice frame o id ps peers c busy) (
        KeepsTable-trans o o' (broadcast_each o' ended choice frame peers).0
          (send_on-KeepsTable o (ended ps.id) (choice ps.id) c frame)
          (broadcast_each-KeepsTable o' ended choice frame peers))
]

pub broadcast-KeepsTable :
    (o : Outgoing) (ended : Bytes → Bool) (choice : Bytes → ℕ) (frame : Bytes)
    → KeepsTable o (broadcast o ended choice frame).0
unfolding broadcast
broadcast-KeepsTable o ended choice frame =
    elim (Bool-cases (ltb o.max_frame_bytes (length frame))) [
      | inl large ↦ rw large (same_KeepsTable o)
      | inr fits ↦ rw fits (broadcast_each-KeepsTable o ended choice frame o.peers)
    ]

pub KeepsTable-IsConsistent :
    (m : Manager) (o : Outgoing)
    → KeepsTable m.out o
    → IsConsistent m
    → IsConsistent (record m { out = o })
KeepsTable-IsConsistent m o kept inv =
    let back : (id : Bytes) → lookup id m.out.peers ≡ lookup id o.peers =
      λ id. ap (lookup id) (sym kept.peers) in
    record {
      distinct = subst Distinct (sym kept.peers) inv.distinct;
      keyed = λ id ps found. inv.keyed id ps (back id ∙ found);
      not_self = sym (back m.node_id) ∙ inv.not_self;
      owned = λ id ps c found. inv.owned id ps c (back id ∙ found);
      separate = λ i j p q c d pi qj. inv.separate i j p q c d (back i ∙ pi) (back j ∙ qj);
      linked = λ h made. kept.links h (inv.linked h made);
      down = λ e. kept.down (inv.down e);
    }
