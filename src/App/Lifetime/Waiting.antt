-- ===== src/App/Lifetime/Waiting.antt =====
-- What `Wait` returns, and when.
use clippy.Base.{
  ℕ, ◌+◌, ◌≤◌, ◌≡◌, ◌≢◌, refl, ◌∙◌, Bool, true, false, none, some, List, [], ◌∷◌, ◌++◌, arith, All,
  All-map, All-append,
}
use clippy.App.Lifetime.{
  absent, awaiting_end, awaiting_mesh, stopped, Starter, unstarted, starting, over, aborting,
  returning, Life, Label, silent, closes, start_returns, wait_returns, Step, begins, mesh_fails,
  aborts, mesh_starts, returns_first, returns_beside, returns_later, context_ends, mesh_ends,
  notices, stops, returns_wait, Run, fresh, next,
}

abbrev one_if : Bool → ℕ
one_if true = 1
one_if false = 0

one_if-le : (b : Bool) → one_if b ≤ 1
one_if-le true = omega arith
one_if-le false = omega arith

module _ {E : Type 0} where
  abbrev count_closes : Label E → ℕ
  count_closes closes = 1
  count_closes _ = 0

  unfoldable pub closings : List (Label E) → ℕ
  closings [] = 0
  closings (l ∷ ls) = count_closes l + closings ls

  closings-snoc :
      (ls : List (Label E)) (l : Label E) → closings (ls ++ l ∷ []) ≡ closings ls + count_closes l
  unfolding closings
  closings-snoc [] l = omega arith
  closings-snoc (x ∷ ls) l = omega (arith, closings-snoc ls l)

  -- What has been returned is in line with what is kept.
  abbrev pub Agrees : Life E → Label E → Type 0
  Agrees s silent = Unit
  Agrees s closes = Unit
  Agrees s (start_returns none) = Unit
  Agrees s (start_returns (some e)) = (s.wait_err ≡ some e) × (s.wait_closed ≡ true)
  Agrees s (wait_returns r) = (s.wait_err ≡ r) × (s.wait_closed ≡ true)

  abbrev is_early : Starter E → Bool
  is_early unstarted = true
  is_early starting = true
  is_early _ = false

  pub record IsConsistent (s : Life E) : Type 0 where
    pub early :
        is_early s.starter ≡ true
        → (s.stopper ≡ absent) × (s.wait_err ≡ none) × (s.wait_closed ≡ false)
    pub failing :
        (e : E)
        → s.starter ≡ aborting e
        → (s.stopper ≡ absent) × (s.wait_err ≡ some e) × (s.wait_closed ≡ false)
    pub failed :
        (e : E) → s.starter ≡ returning (some e) → (s.wait_err ≡ some e) × (s.wait_closed ≡ true)
    pub launched : s.starter ≡ returning none → s.stopper ≢ absent
    pub over_failed : s.starter ≡ over → s.stopper ≡ absent → s.wait_closed ≡ true
    pub clean : s.stopper ≢ absent → s.wait_err ≡ none
    pub awaited_end : s.stopper ≡ awaiting_end → s.wait_closed ≡ false
    pub awaited_mesh : s.stopper ≡ awaiting_mesh → (s.wait_closed ≡ false) × (s.done ≡ true)
    pub ended : s.stopper ≡ stopped → (s.done ≡ true) × (s.mesh_done ≡ true)
    pub failed_before : s.stopper ≡ absent → s.wait_closed ≡ true → s.wait_err ≢ none

  Step-IsConsistent :
      {s s' : Life E} {l : Label E} → Step E s l s' → IsConsistent s → IsConsistent s'
  Step-IsConsistent (begins p) c = ground (arith)
  Step-IsConsistent (mesh_fails e p) c = ground (arith)
  Step-IsConsistent (aborts e p) c = ground (arith, c.failing e)
  Step-IsConsistent (mesh_starts p) c = ground arith
  Step-IsConsistent (returns_first none p) c = ground arith
  Step-IsConsistent (returns_first (some e) p) c = ground (arith, c.failed e)
  Step-IsConsistent (returns_beside r p) c = c
  Step-IsConsistent (returns_later p) c = c
  Step-IsConsistent context_ends c = ground arith
  Step-IsConsistent mesh_ends c = ground arith
  Step-IsConsistent (notices p q) c = ground arith
  Step-IsConsistent (stops p q) c = ground arith
  Step-IsConsistent (returns_wait p) c = c

  -- Once the channel is closed, nothing changes for `Wait`.
  Step-keeps :
      {s s' : Life E} {l : Label E}
      → Step E s l s'
      → IsConsistent s
      → s.wait_closed ≡ true
      → (s'.wait_err ≡ s.wait_err) × (s'.wait_closed ≡ true)
  Step-keeps (begins p) c h = ground arith
  Step-keeps (mesh_fails e p) c h = ground arith
  Step-keeps (aborts e p) c h = ground arith
  Step-keeps (mesh_starts p) c h = ground arith
  Step-keeps (returns_first r p) c h = ground arith
  Step-keeps (returns_beside r p) c h = ground arith
  Step-keeps (returns_later p) c h = ground arith
  Step-keeps context_ends c h = ground arith
  Step-keeps mesh_ends c h = ground arith
  Step-keeps (notices p q) c h = ground arith
  Step-keeps (stops p q) c h = ground arith
  Step-keeps (returns_wait p) c h = ground arith

  Agrees-kept :
      (s s' : Life E)
      → (s.wait_closed ≡ true → (s'.wait_err ≡ s.wait_err) × (s'.wait_closed ≡ true))
      → (l : Label E) → Agrees s l
      → Agrees s' l
  Agrees-kept s s' k silent h = tt
  Agrees-kept s s' k closes h = tt
  Agrees-kept s s' k (start_returns none) h = tt
  Agrees-kept s s' k (start_returns (some e)) h = let (same, shut) = k h.1 in (same ∙ h.0, shut)
  Agrees-kept s s' k (wait_returns r) h = let (same, shut) = k h.1 in (same ∙ h.0, shut)

  Step-Agrees : {s s' : Life E} {l : Label E} → Step E s l s' → IsConsistent s → Agrees s' l
  Step-Agrees (begins p) c = tt
  Step-Agrees (mesh_fails e p) c = tt
  Step-Agrees (aborts e p) c = tt
  Step-Agrees (mesh_starts p) c = tt
  Step-Agrees (returns_first none p) c = tt
  Step-Agrees (returns_first (some e) p) c = c.failed e p
  Step-Agrees (returns_beside r p) c = tt
  Step-Agrees (returns_later p) c = tt
  Step-Agrees context_ends c = tt
  Step-Agrees mesh_ends c = tt
  Step-Agrees (notices p q) c = tt
  Step-Agrees (stops p q) c = tt
  Step-Agrees (returns_wait p) c = (refl, p)

  Step-closes :
      {s s' : Life E} {l : Label E}
      → Step E s l s'
      → IsConsistent s
      → one_if s'.wait_closed ≡ one_if s.wait_closed + count_closes l
  Step-closes (begins p) c = ground arith
  Step-closes (mesh_fails e p) c = ground arith
  Step-closes (aborts e p) c = ground (arith, c.failing e)
  Step-closes (mesh_starts p) c = ground arith
  Step-closes (returns_first r p) c = ground arith
  Step-closes (returns_beside r p) c = ground arith
  Step-closes (returns_later p) c = ground arith
  Step-closes context_ends c = ground arith
  Step-closes mesh_ends c = ground arith
  Step-closes (notices p q) c = ground arith
  Step-closes (stops p q) c = ground arith
  Step-closes (returns_wait p) c = ground arith

  record Kept (shown : List (Label E)) (s : Life E) : Type 0 where
    consistent : IsConsistent s
    agree : All (Agrees s) shown
    counted : closings shown ≡ one_if s.wait_closed

  all-Kept : {shown : List (Label E)} {s : Life E} → Run E shown s → Kept shown s
  all-Kept fresh = record {
    consistent = ground arith;
    agree = tt;
    counted = unfold closings in refl;
  }
  all-Kept (next {shown} {s} {s'} {l} run step) =
      let k = all-Kept run in
      record {
        consistent = Step-IsConsistent step k.consistent;
        agree =
            All-append (Agrees s') shown (l ∷ [])
              (All-map (Agrees s) (Agrees s') (Agrees-kept s s' (Step-keeps step k.consistent))
                shown k.agree)
              (Step-Agrees step k.consistent, tt);
        counted = omega (arith, closings-snoc shown l, k.counted, Step-closes step k.consistent);
      }

  -- However the callers of `Start` and `Wait`, the goroutines and the mesh take turns: the channel
  -- `waitCh` is closed at most once, as Go demands. An error that `Start` has returned is kept for
  -- `Wait`, and whatever `Wait` has returned is what is kept. Once the channel is closed and no
  -- error is kept, the context has ended and the mesh has stopped.
  pub wait-Agrees :
      (shown : List (Label E)) (s : Life E)
      → Run E shown s
      → All (Agrees s) shown
        × (closings shown ≤ 1)
        × (s.wait_closed ≡ true → s.wait_err ≡ none → (s.done ≡ true) × (s.mesh_done ≡ true))
  wait-Agrees shown s run =
      let k = all-Kept run in
      let c = k.consistent in
      (
        k.agree,
        omega (arith, k.counted, one_if-le s.wait_closed),
        λ shut clean. over_cleanly s c shut clean,
      )
    where
      over_cleanly :
          (s : Life E)
          → IsConsistent s
          → s.wait_closed ≡ true
          → s.wait_err ≡ none
          → (s.done ≡ true) × (s.mesh_done ≡ true)
      over_cleanly s c shut clean =
          ground (arith, c.ended, c.failed_before, c.awaited_end, c.awaited_mesh)
