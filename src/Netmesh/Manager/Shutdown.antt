-- ===== src/Netmesh/Manager/Shutdown.antt =====
-- The end of a manager's context, and `shutdown` of internal/netmesh/manager.go.
use clippy.Base.{
  ℕ, ◌≡◌, refl, sym, ◌∙◌, true, Option, none, some, List, [], ◌∷◌, nat_eq, ◌==◌, Bool-cases, inl,
  inr, arith,
}
use clippy.Base.Bytes.{Bytes}
use clippy.Base.Map.{lookup}
use clippy.Netmesh.Types.{PeerState}
use clippy.Netmesh.Delivery.{Link}
use clippy.Netmesh.Manager.{Manager, close_old}
use clippy.Netmesh.Manager.Table.{IsConsistent}
use clippy.Netmesh.Manager.Operations.{close_old-IsConsistent}

-- The context of every connection ends with that of the manager.
unfoldable pub cancel_links : List (ℕ × Link) → List (ℕ × Link)
cancel_links [] = []
cancel_links ((h, l) ∷ links) = (h, record l { cancelled = true }) ∷ cancel_links links

unfoldable pub end_context : Manager → Manager
end_context m = record m { ended = true; out = record m.out { links = cancel_links m.out.links } }

-- The loop of `shutdown` over the peers.
unfoldable pub close_each : Manager → List (Bytes × PeerState) → Manager
close_each m [] = m
close_each m ((id, ps) ∷ peers) = close_each (close_old m ps.conn) peers

-- `shutdown`, as far as the table and the queues see it; the advertiser, the HTTP server and the
-- listener are closed in between.
unfoldable pub shutdown : Manager → Manager
shutdown m = close_each (end_context m) m.out.peers

abbrev ended_link : Option Link → Option Link
ended_link none = none
ended_link (some l) = some (record l { cancelled = true })

lookup-cancel_links :
    (links : List (ℕ × Link)) (h : ℕ) → lookup h (cancel_links links) ≡ ended_link (lookup h links)
unfolding lookup cancel_links
lookup-cancel_links [] h = refl
lookup-cancel_links ((k, l) ∷ links) h = elim (Bool-cases (k == h)) [
  | inl same ↦ rw same
  | inr other ↦ rw other (lookup-cancel_links links h)
]

ended_link-none : (o : Option Link) → ended_link o ≡ none → o ≡ none
ended_link-none none e = refl
ended_link-none (some l) e = cc

ended_link-some : (o : Option Link) (l : Link) → ended_link o ≡ some l → l.cancelled ≡ true
ended_link-some none l e = cc
ended_link-some (some k) l e = ground (arith, e)

pub end_context-IsConsistent : (m : Manager) → IsConsistent m → IsConsistent (end_context m)
unfolding end_context
end_context-IsConsistent m inv = record {
  distinct = inv.distinct;
  keyed = inv.keyed;
  not_self = inv.not_self;
  owned = inv.owned;
  separate = inv.separate;
  linked = λ h made e.
      inv.linked h made
        (ended_link-none (lookup h m.out.links) (sym (lookup-cancel_links m.out.links h) ∙ e));
  down = λ _ h l found.
      ended_link-some (lookup h m.out.links) l (sym (lookup-cancel_links m.out.links h) ∙ found);
}

close_each-IsConsistent :
    (m : Manager) (peers : List (Bytes × PeerState))
    → IsConsistent m
    → IsConsistent (close_each m peers)
unfolding close_each
close_each-IsConsistent m [] inv = inv
close_each-IsConsistent m ((id, ps) ∷ peers) inv =
    close_each-IsConsistent (close_old m ps.conn) peers (close_old-IsConsistent m ps.conn inv)

pub shutdown-IsConsistent : (m : Manager) → IsConsistent m → IsConsistent (shutdown m)
unfolding shutdown
shutdown-IsConsistent m inv =
    close_each-IsConsistent (end_context m) m.out.peers (end_context-IsConsistent m inv)
