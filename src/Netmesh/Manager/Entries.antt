-- ===== src/Netmesh/Manager/Entries.antt =====
-- From what holds of each entry that is found in a table to what holds along the table.
use clippy.Base.{
  ℕ, ◌≡◌, ◌≢◌, refl, sym, ap, ◌∙◌, false, none, some, List, [], ◌∷◌, nat_eq, All, Bool-cases,
  beq_ne, inl, inr, Option-cases,
}
use clippy.Base.Bytes.{Bytes, bytes_beq, bytes_beq_iff, bytes_eq}
use clippy.Base.Map.{lookup, Distinct}
use clippy.Netmesh.Broadcast.Each.{uses, HasOwnConns, IsKeyed}
use clippy.Netmesh.Types.{ManagedConn, PeerState}

abbrev Table : Type 0
Table = List (Bytes × PeerState)

none-ne-some : (q : PeerState) → none ≢ some q
none-ne-some q e = cc

lookup-cons_self :
    (id : Bytes) (ps : PeerState) (table : Table) → lookup id ((id, ps) ∷ table) ≡ some ps
unfolding lookup
lookup-cons_self id ps table = let same = (bytes_beq_iff id id).1 refl in rw same

-- What the rest of a table has, the table has.
lookup-rest :
    (j id : Bytes) (ps q : PeerState) (table : Table)
    → lookup j table ≡ none
    → lookup id table ≡ some q
    → lookup id ((j, ps) ∷ table) ≡ some q
unfolding lookup
lookup-rest j id ps q table new found = elim (Bool-cases (bytes_beq j id)) [
  | inl same ↦
      let e = (bytes_beq_iff j id).0 same in
      absurd (none-ne-some q (sym new ∙ ap (λ k. lookup k table) e ∙ found))
  | inr other ↦ rw other found
]

pub Distinct-IsKeyed :
    (table : Table)
    → Distinct table
    → ((id : Bytes) (ps : PeerState) → lookup id table ≡ some ps → ps.id ≡ id)
    → IsKeyed table
Distinct-IsKeyed [] d keyed = tt
Distinct-IsKeyed ((j, ps) ∷ table) d keyed = (
  keyed j ps (lookup-cons_self j ps table),
  Distinct-IsKeyed table d.1 (λ id q found. keyed id q (lookup-rest j id ps q table d.0 found)),
)

-- A connection that the table has nowhere is used nowhere.
unused_list :
    (h : ℕ) (table : Table)
    → Distinct table
    → ((id : Bytes) (q : PeerState) (d : ManagedConn)
        → lookup id table ≡ some q
        → q.conn ≡ some d
        → d.handle ≢ h)
    → All (λ e. uses h e ≡ false) table
unused_list h [] d unused = tt
unused_list h ((j, ps) ∷ table) d unused = (
  elim (Option-cases ps.conn) [
    | inl idle ↦ rw idle
    | inr (c, busy) ↦
        let ne = unused j ps c (lookup-cons_self j ps table) busy in rw busy (beq_ne c.handle h ne)
  ],
  unused_list h table d.1
      (λ id q c found busy. unused id q c (lookup-rest j id ps q table d.0 found) busy),
)

pub Distinct-HasOwnConns :
    (table : Table)
    → Distinct table
    → ((i j : Bytes) (p q : PeerState) (c d : ManagedConn)
        → lookup i table ≡ some p
        → lookup j table ≡ some q
        → p.conn ≡ some c
        → q.conn ≡ some d
        → c.handle ≡ d.handle
        → i ≡ j)
    → HasOwnConns table
Distinct-HasOwnConns [] d separate = tt
Distinct-HasOwnConns ((j, ps) ∷ table) d separate = (
  λ c busy. unused_list c.handle table d.1 (λ id q c' found busy' e.
      let same =
        separate j id ps q c c' (lookup-cons_self j ps table)
          (lookup-rest j id ps q table d.0 found) busy busy' (sym e) in
      none-ne-some q (sym d.0 ∙ ap (λ k. lookup k table) same ∙ found)),
  Distinct-HasOwnConns table d.1 (λ i k p q c c' pi qk.
      separate i k p q c c' (lookup-rest j i ps p table d.0 pi)
        (lookup-rest j k ps q table d.0 qk)),
)
