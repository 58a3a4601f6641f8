-- ===== src/Netmesh/Broadcast/Each.antt =====
-- What the loop of `Broadcast` does to one peer.
use clippy.Base.{
  ℕ, ◌≡◌, ◌≢◌, refl, sym, ap, subst, ◌∙◌, Bool, true, false, Option, none, some, List, [], ◌∷◌,
  ◌==◌, arith, nat_eq, Option-cases, Bool-cases, inl, inr, All,
}
use clippy.Base.Bytes.{Bytes, bytes_eq, bytes_beq, bytes_beq_iff}
use clippy.Base.Map.{lookup, Distinct}
use clippy.Netmesh.Types.{ManagedConn, PeerState}
use clippy.Netmesh.Delivery.{SendError, Outgoing, send_on}
use clippy.Netmesh.Broadcast.{note_error, broadcast_each}
use clippy.Netmesh.Broadcast.Offers.{offered, send_on-own, send_on-other, send_on-size}

-- Whether a peer is connected by the connection of this handle.
abbrev pub uses : ℕ → Bytes × PeerState → Bool
uses h (id, ps) = elim ps.conn [ none ↦ false | some c ↦ c.handle == h ]

-- No two peers share a connection.
abbrev pub HasOwnConns : List (Bytes × PeerState) → Type 0
HasOwnConns [] = Unit
HasOwnConns ((id, ps) ∷ peers) =
    ((c : ManagedConn) → ps.conn ≡ some c → All (λ e. uses c.handle e ≡ false) peers)
    × HasOwnConns peers

-- The peers stand under their identifiers.
abbrev pub IsKeyed : List (Bytes × PeerState) → Type 0
IsKeyed = All (λ e. e.1.id ≡ e.0)

uses_ne :
    (h : ℕ) (id : Bytes) (ps : PeerState) (c : ManagedConn)
    → ps.conn ≡ some c
    → uses h (id, ps) ≡ false
    → c.handle ≢ h
uses_ne h id ps c busy u e = ground arith

lookup-cons_none :
    (id j : Bytes) (ps : PeerState) (peers : List (Bytes × PeerState))
    → lookup id ((j, ps) ∷ peers) ≡ none
    → (bytes_beq j id ≡ false) × (lookup id peers ≡ none)
unfolding lookup
lookup-cons_none id j ps peers h = ground arith

lookup-cons_self :
    (id j : Bytes) (ps p : PeerState) (peers : List (Bytes × PeerState))
    → bytes_beq j id ≡ true
    → lookup id ((j, ps) ∷ peers) ≡ some p
    → ps ≡ p
unfolding lookup
lookup-cons_self id j ps p peers same h = ground arith

lookup-cons_ne :
    (id j : Bytes) (ps : PeerState) (peers : List (Bytes × PeerState))
    → bytes_beq j id ≡ false
    → lookup id ((j, ps) ∷ peers) ≡ lookup id peers
unfolding lookup
lookup-cons_ne id j ps peers h = rw h

uses-member :
    (h : ℕ) (id : Bytes) (p : PeerState) (peers : List (Bytes × PeerState))
    → lookup id peers ≡ some p
    → All (λ e. uses h e ≡ false) peers
    → uses h (id, p) ≡ false
uses-member h id p [] found none_uses = absurd (unfold lookup in cc)
uses-member h id p ((j, ps) ∷ peers) found none_uses = elim (Bool-cases (bytes_beq j id)) [
  | inl same ↦
      subst (λ q. uses h (id, q) ≡ false) (lookup-cons_self id j ps p peers same found) none_uses.0
  | inr other ↦
      uses-member h id p peers (sym (lookup-cons_ne id j ps peers other) ∙ found) none_uses.1
]

lookup-note_error_other :
    (id j : Bytes) (o : Option SendError) (errs : List (Bytes × SendError))
    → bytes_beq j id ≡ false
    → lookup id (note_error j o errs) ≡ lookup id errs
unfolding lookup
lookup-note_error_other id j none errs h = refl
lookup-note_error_other id j (some e) errs h = rw h

lookup-note_error_self :
    (id j : Bytes) (o : Option SendError) (errs : List (Bytes × SendError))
    → bytes_beq j id ≡ true
    → lookup id errs ≡ none
    → lookup id (note_error j o errs) ≡ o
unfolding lookup
lookup-note_error_self id j none errs same h = h
lookup-note_error_self id j (some e) errs same h = rw same

module _ (ended : Bytes → Bool) (choice : Bytes → ℕ) (frame : Bytes) where
  pub each_none :
      (m : Outgoing) (id : Bytes) (ps : PeerState) (peers : List (Bytes × PeerState))
      → ps.conn ≡ none
      → broadcast_each m ended choice frame ((id, ps) ∷ peers)
        ≡ broadcast_each m ended choice frame peers
  unfolding broadcast_each
  each_none m id ps peers h = rw (h, broadcast_each)

  pub each_some :
      (m : Outgoing) (id : Bytes) (ps : PeerState) (peers : List (Bytes × PeerState))
      (c : ManagedConn)
      → ps.conn ≡ some c
      → let first = send_on m (ended ps.id) (choice ps.id) c frame in
        broadcast_each m ended choice frame ((id, ps) ∷ peers) ≡ (
          (broadcast_each first.0 ended choice frame peers).0,
          note_error ps.id first.1 (broadcast_each first.0 ended choice frame peers).1,
        )
  unfolding broadcast_each
  each_some m id ps peers c h = rw (h, broadcast_each)

  each-other :
      (h : ℕ) (m : Outgoing) (peers : List (Bytes × PeerState))
      → All (λ e. uses h e ≡ false) peers
      → lookup h (broadcast_each m ended choice frame peers).0.links ≡ lookup h m.links
  each-other h m [] none_uses = unfold broadcast_each in refl
  each-other h m ((id, ps) ∷ peers) none_uses = elim (Option-cases ps.conn) [
    | inl idle ↦ rw (each_none m id ps peers idle) (each-other h m peers none_uses.1)
    | inr (c, busy) ↦ rw (each_some m id ps peers c busy) (
        each-other h (send_on m (ended ps.id) (choice ps.id) c frame).0 peers none_uses.1
        ∙ send_on-other m (ended ps.id) (choice ps.id) c frame h
            (uses_ne h id ps c busy none_uses.0))
  ]

  -- No error of a peer that is not there.
  each-absent :
      (id : Bytes) (m : Outgoing) (peers : List (Bytes × PeerState))
      → IsKeyed peers
      → lookup id peers ≡ none
      → lookup id (broadcast_each m ended choice frame peers).1 ≡ none
  each-absent id m [] keyed h = unfold broadcast_each lookup in refl
  each-absent id m ((j, ps) ∷ peers) keyed h =
      let (differs, rest) = lookup-cons_none id j ps peers h in
      elim (Option-cases ps.conn) [
        | inl idle ↦ rw (each_none m j ps peers idle) (each-absent id m peers keyed.1 rest)
        | inr (c, busy) ↦ rw (each_some m j ps peers c busy) (
            lookup-note_error_other id ps.id _ _
              (subst (λ k. bytes_beq k id ≡ false) (sym keyed.0) differs)
            ∙ each-absent id (send_on m (ended ps.id) (choice ps.id) c frame).0 peers keyed.1 rest)
      ]

  unfoldable pub Served : Bytes → ManagedConn → Outgoing → List (Bytes × PeerState) → Type 0
  Served id c m peers =
      let own = offered m.send_queue_size (ended id) (choice id) frame (lookup c.handle m.links) in
      (lookup c.handle (broadcast_each m ended choice frame peers).0.links ≡ own.0)
      × (lookup id (broadcast_each m ended choice frame peers).1 ≡ own.1)

  each-first :
      (id j : Bytes) (ps : PeerState) (c : ManagedConn) (m : Outgoing)
      (peers : List (Bytes × PeerState))
      → ps.id ≡ id
      → ps.conn ≡ some c
      → All (λ e. uses c.handle e ≡ false) peers
      → IsKeyed peers
      → lookup id peers ≡ none
      → Served id c m ((j, ps) ∷ peers)
  unfolding Served
  each-first id j ps c m peers same busy none_uses keyed gone =
      let sent = send_on-own m (ended ps.id) (choice ps.id) c frame in
      let m' = (send_on m (ended ps.id) (choice ps.id) c frame).0 in
      rw (each_some m j ps peers c busy) (
        each-other c.handle m' peers none_uses ∙ sent.0 ∙ (rw same),
        lookup-note_error_self id ps.id _ _ ((bytes_beq_iff ps.id id).1 same)
              (each-absent id m' peers keyed gone)
            ∙ sent.1
            ∙ (rw same),
      )

  -- What the loop does to the peer of an identifier.
  pub each-own :
      (id : Bytes) (p : PeerState) (c : ManagedConn) (m : Outgoing)
      (peers : List (Bytes × PeerState))
      → Distinct peers
      → IsKeyed peers
      → HasOwnConns peers
      → lookup id peers ≡ some p
      → p.conn ≡ some c
      → Served id c m peers
  unfolding Served
  each-own id p c m [] d keyed own found busy = absurd (unfold lookup in cc)
  each-own id p c m ((j, ps) ∷ peers) d keyed own found busy = elim (Bool-cases (bytes_beq j id)) [
    | inl same ↦
        let e = (bytes_beq_iff j id).0 same in
        let q = lookup-cons_self id j ps p peers same found in
        let connected = ap (λ x. x.conn) q ∙ busy in
        each-first id j ps c m peers (keyed.0 ∙ e) connected (own.0 c connected) keyed.1
          (subst (λ k. lookup k peers ≡ none) e d.0)
    | inr other ↦
        let found' = sym (lookup-cons_ne id j ps peers other) ∙ found in
        elim (Option-cases ps.conn) [
          | inl idle ↦
              rw (each_none m j ps peers idle)
                (each-own id p c m peers d.1 keyed.1 own.1 found' busy)
          | inr (c', busy') ↦
              let m' = (send_on m (ended ps.id) (choice ps.id) c' frame).0 in
              let ne =
                uses_ne c'.handle id p c busy
                  (uses-member c'.handle id p peers found' (own.0 c' busy')) in
              let rest = each-own id p c m' peers d.1 keyed.1 own.1 found' busy in
              let kept =
                send_on-other m (ended ps.id) (choice ps.id) c' frame c.handle (λ e. ne (sym e)) in
              let size = send_on-size m (ended ps.id) (choice ps.id) c' frame in
              rw (each_some m j ps peers c' busy') (
                rest.0 ∙ rw (kept, size),
                lookup-note_error_other id ps.id _ _
                      (subst (λ k. bytes_beq k id ≡ false) (sym keyed.0) other)
                    ∙ rest.1
                    ∙ rw (kept, size),
              )
        ]
  ]
