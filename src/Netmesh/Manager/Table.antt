-- ===== src/Netmesh/Manager/Table.antt =====
-- The table of peers stays well-formed: the invariant, and how a change of one peer keeps it.
use clippy.Base.{
  ℕ, suc, ◌<◌, ◌≡◌, ◌≢◌, ◌⊎◌, inl, inr, refl, true, sym, ap, subst, ◌∙◌, none, some, List, nat_eq,
  arith, Option-cases, Bool-cases, ◌==◌,
}
use clippy.Base.Bytes.{Bytes, bytes_beq, bytes_beq_iff, bytes_eq}
use clippy.Base.Map.{lookup, insert, lookup-insert, lookup-insert_ne, Distinct, insert-Distinct}
use clippy.Netmesh.Types.{ManagedConn, PeerState}
use clippy.Netmesh.PeerState.{new_peer_state}
use clippy.Netmesh.Delivery.{Link}
use clippy.Netmesh.Manager.{Manager, get_or_create_peer, put_peer, close_conn}

-- The context of every connection has ended.
abbrev pub AllEnded : List (ℕ × Link) → Type 0
AllEnded links = (h : ℕ) (l : Link) → lookup h links ≡ some l → l.cancelled ≡ true

pub record IsConsistent (m : Manager) : Type 0 where
  -- There is one peer for each identifier, under that identifier, and the node is none of them.
  pub distinct : Distinct m.out.peers
  pub keyed : (id : Bytes) (ps : PeerState) → lookup id m.out.peers ≡ some ps → ps.id ≡ id
  pub not_self : lookup m.node_id m.out.peers ≡ none
  -- The connection of a peer is one that was made for it, and no other peer has it.
  pub owned :
      (id : Bytes) (ps : PeerState) (c : ManagedConn)
      → lookup id m.out.peers ≡ some ps
      → ps.conn ≡ some c
      → (c.peer_id ≡ id) × (c.handle < m.next_handle)
  pub separate :
      (id j : Bytes) (p q : PeerState) (c d : ManagedConn)
      → lookup id m.out.peers ≡ some p
      → lookup j m.out.peers ≡ some q
      → p.conn ≡ some c
      → q.conn ≡ some d
      → c.handle ≡ d.handle
      → id ≡ j
  -- Every connection that was made has its queue.
  pub linked : (h : ℕ) → h < m.next_handle → lookup h m.out.links ≢ none
  pub down : m.ended ≡ true → AllEnded m.out.links

new_peer_state-conn : (id : Bytes) (c : ManagedConn) → (new_peer_state id).conn ≢ some c
unfolding new_peer_state
new_peer_state-conn id c e = cc

some_inj : (p q : PeerState) → some p ≡ some q → p ≡ q
some_inj p q h = cc

some_link : (l : Link) → some l ≢ none
some_link l e = cc

pub insert_present :
    (h k : ℕ) (l : Link) (links : List (ℕ × Link))
    → lookup h links ≢ none
    → lookup h (insert k l links) ≢ none
insert_present h k l links present = elim (Bool-cases (k == h)) [
  | inl same ↦ λ e. some_link l (sym (lookup-insert k h l links ∙ rw same) ∙ e)
  | inr other ↦ λ e. present (sym (lookup-insert k h l links ∙ rw other) ∙ e)
]

pub insert_ended :
    (k : ℕ) (l : Link) (links : List (ℕ × Link))
    → l.cancelled ≡ true
    → AllEnded links
    → AllEnded (insert k l links)
insert_ended k l links over all h x found = elim (Bool-cases (k == h)) [
  | inl same ↦
      let e : some l ≡ some x = sym (lookup-insert k h l links ∙ rw same) ∙ found in
      ground (arith, e, over)
  | inr other ↦ all h x (sym (lookup-insert k h l links ∙ rw other) ∙ found)
]

pub insert_made :
    (n h : ℕ) (l : Link) (links : List (ℕ × Link))
    → h < suc n
    → (h < n → lookup h links ≢ none)
    → lookup h (insert n l links) ≢ none
insert_made n h l links made old = elim (Bool-cases (n == h)) [
  | inl same ↦ λ e. some_link l (sym (lookup-insert n h l links ∙ rw same) ∙ e)
  | inr other ↦
      let below : h < n = ground arith in
      λ e. old below (sym (lookup-insert n h l links ∙ rw other) ∙ e)
]

module _ (m : Manager) (id : Bytes) where
  get_or_create_peer_missing :
      lookup id m.out.peers ≡ none → get_or_create_peer m id ≡ new_peer_state id
  unfolding get_or_create_peer
  get_or_create_peer_missing missing = rw (missing, get_or_create_peer)

  pub get_or_create_peer_found :
      (q : PeerState) → lookup id m.out.peers ≡ some q → get_or_create_peer m id ≡ q
  unfolding get_or_create_peer
  get_or_create_peer_found q found = rw (found, get_or_create_peer)

  -- A peer with a connection was in the table.
  get_or_create_peer-conn :
      (c : ManagedConn)
      → (get_or_create_peer m id).conn ≡ some c
      → (q : PeerState) × (lookup id m.out.peers ≡ some q) × (q.conn ≡ some c)
  unfolding get_or_create_peer new_peer_state
  get_or_create_peer-conn c h = elim (Option-cases (lookup id m.out.peers)) [
    | inl missing ↦
        absurd (
          new_peer_state-conn id c
            (sym (ap (λ x. x.conn) (get_or_create_peer_missing missing)) ∙ h))
    | inr (q, found) ↦
        (q, found, ap (λ (x : PeerState). x.conn) (sym (get_or_create_peer_found q found)) ∙ h)
  ]

  pub get_or_create_peer-id : IsConsistent m → (get_or_create_peer m id).id ≡ id
  unfolding get_or_create_peer new_peer_state
  get_or_create_peer-id inv = elim (Option-cases (lookup id m.out.peers)) [
    | inl missing ↦ rw (missing, get_or_create_peer)
    | inr (ps, found) ↦ rw (found, get_or_create_peer) (inv.keyed id ps found)
  ]

  -- A connection that no peer in the table has.
  pub record IsFresh (c : ManagedConn) : Type 0 where
    pub for_peer : c.peer_id ≡ id
    pub made : c.handle < m.next_handle
    pub unused :
        (j : Bytes) (q : PeerState) (d : ManagedConn)
        → lookup j m.out.peers ≡ some q
        → q.conn ≡ some d
        → d.handle ≢ c.handle

  -- A peer that is put into the table keeps its connection, or has a fresh one, or none.
  abbrev pub KeepsConn : PeerState → Type 0
  KeepsConn ps =
      (c : ManagedConn) → ps.conn ≡ some c → ((get_or_create_peer m id).conn ≡ some c) ⊎ IsFresh c

  -- The connection of a peer is that of a peer that was there under this identifier.
  WasThere : Bytes → ManagedConn → Type 0
  WasThere j c = (q : PeerState) × (lookup j m.out.peers ≡ some q) × (q.conn ≡ some c)

  put_peer-conn :
      (ps : PeerState) (j : Bytes) (q : PeerState) (c : ManagedConn)
      → KeepsConn ps
      → lookup j (insert id ps m.out.peers) ≡ some q
      → q.conn ≡ some c
      → WasThere j c ⊎ ((id ≡ j) × IsFresh c)
  unfolding WasThere
  put_peer-conn ps j q c keeps found busy = elim (Bool-cases (bytes_beq id j)) [
    | inl same ↦
        let e = (bytes_beq_iff id j).0 same in
        let p : some ps ≡ some q = sym (lookup-insert id j ps m.out.peers ∙ rw same) ∙ found in
        elim (keeps c (ap (λ x. x.conn) (some_inj ps q p) ∙ busy)) [
          | inl old ↦ inl (subst (λ k. WasThere k c) e (get_or_create_peer-conn c old))
          | inr fresh ↦ inr (e, fresh)
        ]
    | inr differs ↦ inl (q, sym (lookup-insert id j ps m.out.peers ∙ rw differs) ∙ found, busy)
  ]

  put_peer-keyed :
      (ps : PeerState) (j : Bytes) (q : PeerState)
      → IsConsistent m
      → ps.id ≡ id
      → lookup j (insert id ps m.out.peers) ≡ some q
      → q.id ≡ j
  put_peer-keyed ps j q inv same found = elim (Bool-cases (bytes_beq id j)) [
    | inl e ↦
        let p : some ps ≡ some q = sym (lookup-insert id j ps m.out.peers ∙ rw e) ∙ found in
        sym (ap (λ x. x.id) (some_inj ps q p)) ∙ same ∙ (bytes_beq_iff id j).0 e
    | inr differs ↦ inv.keyed j q (sym (lookup-insert id j ps m.out.peers ∙ rw differs) ∙ found)
  ]

  pub put_peer-IsConsistent :
      (ps : PeerState)
      → IsConsistent m
      → id ≢ m.node_id
      → ps.id ≡ id
      → KeepsConn ps
      → IsConsistent (put_peer m id ps)
  unfolding put_peer WasThere
  put_peer-IsConsistent ps inv other same keeps = record {
    distinct = insert-Distinct id ps m.out.peers inv.distinct;
    keyed = λ j q found. put_peer-keyed ps j q inv same found;
    not_self = lookup-insert_ne id m.node_id ps m.out.peers other ∙ inv.not_self;
    owned = λ j q c found busy. elim (put_peer-conn ps j q c keeps found busy) [
      | inl (q', found', busy') ↦ inv.owned j q' c found' busy'
      | inr (e, fresh) ↦ (fresh.for_peer ∙ e, fresh.made)
    ];
    separate = λ i j p q c d at_i at_j has_c has_d e.
        elim (put_peer-conn ps i p c keeps at_i has_c) [
          | inl (p', pi, pc) ↦ elim (put_peer-conn ps j q d keeps at_j has_d) [
            | inl (q', qj, qd) ↦ inv.separate i j p' q' c d pi qj pc qd e
            | inr (ej, fresh) ↦ absurd (fresh.unused i p' c pi pc e)
          ]
          | inr (ei, fresh) ↦ elim (put_peer-conn ps j q d keeps at_j has_d) [
            | inl (q', qj, qd) ↦ absurd (fresh.unused j q' d qj qd (sym e))
            | inr (ej, fresh') ↦ sym ei ∙ ej
          ]
        ];
    linked = inv.linked;
    down = inv.down;
  }

module _ (m : Manager) where
  pub close_conn-IsConsistent : (c : ManagedConn) → IsConsistent m → IsConsistent (close_conn m c)
  unfolding close_conn
  close_conn-IsConsistent c inv = elim (Option-cases (lookup c.handle m.out.links)) [
    | inl missing ↦ rw (missing, close_conn) inv
    | inr (l, found) ↦
        rw (found, close_conn)
          (record {
            distinct = inv.distinct;
            keyed = inv.keyed;
            not_self = inv.not_self;
            owned = inv.owned;
            separate = inv.separate;
            linked = λ h made. insert_present h c.handle _ m.out.links (inv.linked h made);
            down = λ e. insert_ended c.handle _ m.out.links refl (inv.down e);
          })
  ]
