-- ===== src/Cmd/Serve/Consistent.antt =====
-- What is in the channel of the server's result, at each place of `serveDaemon`.
use clippy.Base.{◌||◌, ◌≡◌, ◌⊎◌, inl, inr, refl, Bool, true, false, Option, none, some, arith}
use clippy.Netmesh.PeerState.{is_some}
use clippy.Cmd.Serve.{
  Main, creating, starting, listening, aborting, selecting, waiting, receiving, returned, Server,
  idle, serving, ended, Daemon, at, Step, new_fails, new_succeeds, start_fails, start_succeeds,
  listen_fails, listen_succeeds, aborts, cancels, accept_fails, closes, runtime_stops,
  selects_result, selects_done, wait_with_error, wait_without, receives, has_context, is_started,
  initial_daemon, Steps, here, next,
}

module _ {E : Type 0} where
  -- The result of `Serve` is in the channel, or it is not there yet.
  abbrev pub Unread : Server E → Option (Option E) → Type 0
  Unread idle ch = ⊥
  Unread serving ch = ch ≡ none
  Unread (ended r) ch = ch ≡ some r

  -- `Serve` has ended without error, and its result is read.
  abbrev pub ReadNone : Server E → Option (Option E) → Type 0
  ReadNone sv ch = (sv ≡ ended none) × (ch ≡ none)

  -- What holds of the other four where `serveDaemon` stands.
  abbrev pub Fits : Main E → Server E → Option (Option E) → Bool → Bool → Type 0
  Fits creating sv ch c t = (sv ≡ idle) × (ch ≡ none) × (c ≡ false) × (t ≡ false)
  Fits starting sv ch c t = (sv ≡ idle) × (ch ≡ none) × (t ≡ false)
  Fits listening sv ch c t = (sv ≡ idle) × (ch ≡ none)
  Fits (aborting e) sv ch c t = (sv ≡ idle) × (ch ≡ none) × (c ≡ true)
  Fits selecting sv ch c t = Unread sv ch
  Fits (waiting (some e)) sv ch c t = (sv ≡ ended (some e)) × (c ≡ true)
  Fits (waiting none) sv ch c t = (Unread sv ch ⊎ ReadNone sv ch) × (c ≡ true)
  Fits receiving sv ch c t = (Unread sv ch ⊎ ReadNone sv ch) × (c ≡ true) × (t ≡ true)
  Fits (returned (some e)) sv ch c t = (sv ≡ idle) ⊎ (sv ≡ ended (some e))
  Fits (returned none) sv ch c t = (sv ≡ ended none) × (c ≡ true) × (t ≡ true)

  -- A server that ends without error has seen the context cancelled, and so does the runtime.
  abbrev pub Closed : Server E → Bool → Bool → Type 0
  Closed sv c t = (sv ≡ ended none → c ≡ true) × (t ≡ true → c ≡ true)

  unfoldable pub IsConsistent : Daemon E → Type 0
  IsConsistent (at main sv ch c t) = Fits main sv ch c t × Closed sv c t

  cancels-Fits :
      (sv : Server E) (ch : Option (Option E)) (c t : Bool) (main : Main E)
      → has_context main ≡ true
      → Fits main sv ch c t
      → Fits main sv ch true t
  cancels-Fits sv ch c t creating h f = cc
  cancels-Fits sv ch c t starting h f = f
  cancels-Fits sv ch c t listening h f = f
  cancels-Fits sv ch c t (aborting e) h (f, k, q) = (f, k, refl)
  cancels-Fits sv ch c t selecting h f = f
  cancels-Fits sv ch c t (waiting (some e)) h (f, q) = (f, refl)
  cancels-Fits sv ch c t (waiting none) h (f, q) = (f, refl)
  cancels-Fits sv ch c t receiving h (f, q, p) = (f, refl, p)
  cancels-Fits sv ch c t (returned r) h f = cc

  closes-Fits :
      (c t : Bool) (main : Main E) (r : Option E)
      → Fits main serving none c t
      → Fits main (ended r) (some r) c t
  closes-Fits c t creating r f = cc
  closes-Fits c t starting r f = cc
  closes-Fits c t listening r f = cc
  closes-Fits c t (aborting e) r f = cc
  closes-Fits c t selecting r f = refl
  closes-Fits c t (waiting (some e)) r f = cc
  closes-Fits c t (waiting none) r (f, q) = (inl refl, q)
  closes-Fits c t receiving r (f, q, p) = (inl refl, q, p)
  closes-Fits c t (returned (some e)) r f = absurd (elim f [ inl p ↦ cc | inr p ↦ cc ])
  closes-Fits c t (returned none) r f = cc

  runtime_stops-Fits :
      (sv : Server E) (ch : Option (Option E)) (t : Bool) (main : Main E)
      → is_started main ≡ true
      → Fits main sv ch true t
      → Fits main sv ch true true
  runtime_stops-Fits sv ch t creating h f = cc
  runtime_stops-Fits sv ch t starting h f = cc
  runtime_stops-Fits sv ch t listening h f = f
  runtime_stops-Fits sv ch t (aborting e) h f = f
  runtime_stops-Fits sv ch t selecting h f = f
  runtime_stops-Fits sv ch t (waiting (some e)) h f = f
  runtime_stops-Fits sv ch t (waiting none) h f = f
  runtime_stops-Fits sv ch t receiving h (f, q, p) = (f, q, refl)
  runtime_stops-Fits sv ch t (returned (some e)) h f = f
  runtime_stops-Fits sv ch t (returned none) h (f, q, p) = (f, q, refl)

  selects_result-Fits :
      (c t : Bool) (sv : Server E) (r : Option E)
      → Unread sv (some r)
      → (sv ≡ ended none → c ≡ true)
      → Fits (waiting r) sv none (c || is_some r) t
  selects_result-Fits c t idle r f k = absurd f
  selects_result-Fits c t serving r f k = cc
  selects_result-Fits c t (ended none) (some e) f k = cc
  selects_result-Fits c t (ended none) none f k = let q = k refl in (inr (refl, refl), ground arith)
  selects_result-Fits c t (ended (some e)) none f k = cc
  selects_result-Fits c t (ended (some e)) (some e') f k = (cc, ground arith)

  receives-Fits :
      (sv : Server E) {c t : Bool} (r : Option E)
      → Unread sv (some r) ⊎ ReadNone sv (some r)
      → c ≡ true
      → t ≡ true
      → Fits (returned r) sv none c t
  receives-Fits sv r (inr p) c t = cc
  receives-Fits idle r (inl p) c t = absurd p
  receives-Fits serving r (inl p) c t = cc
  receives-Fits (ended none) none (inl p) c t = (refl, c, t)
  receives-Fits (ended none) (some e) (inl p) c t = cc
  receives-Fits (ended (some e)) none (inl p) c t = cc
  receives-Fits (ended (some e)) (some e') (inl p) c t = inr cc

  Step-IsConsistent : {d d' : Daemon E} → Step d d' → IsConsistent d → IsConsistent d'
  unfolding IsConsistent
  Step-IsConsistent (new_fails e) (f, k) = (inl f.0, k)
  Step-IsConsistent new_succeeds ((sv, ch, c, t), k) = ((sv, ch, t), k)
  Step-IsConsistent (start_fails e) (f, k) = (inl f.0, k)
  Step-IsConsistent start_succeeds ((sv, ch, t), k) = ((sv, ch), k)
  Step-IsConsistent (listen_fails e) ((sv, ch), k) = ((sv, ch, refl), (λ q. refl, λ q. refl))
  Step-IsConsistent listen_succeeds ((sv, ch), k) = (ch, (λ q. cc, k.1))
  Step-IsConsistent (aborts e) (f, k) = (inl f.0, k)
  Step-IsConsistent (cancels {main} h) (f, k) =
      (cancels-Fits _ _ _ _ main h f, (λ q. refl, λ q. refl))
  Step-IsConsistent (accept_fails {main} e) (f, k) =
      (closes-Fits _ _ main (some e) f, (λ q. cc, k.1))
  Step-IsConsistent (closes {main}) (f, k) = (closes-Fits _ _ main none f, (λ q. refl, λ q. refl))
  Step-IsConsistent (runtime_stops {main} h) (f, k) =
      (runtime_stops-Fits _ _ _ main h f, (λ q. refl, λ q. refl))
  Step-IsConsistent (selects_result {sv} r) (f, k) = (
    selects_result-Fits _ _ sv r f k.0,
    (λ q. let c = k.0 q in ground arith, λ q. let c = k.1 q in ground arith),
  )
  Step-IsConsistent selects_done (f, k) = ((inl f, refl), k)
  Step-IsConsistent (wait_with_error e) (f, k) = (inr f.0, k)
  Step-IsConsistent wait_without ((f, c), k) = ((f, c, refl), k)
  Step-IsConsistent (receives {sv} r) ((f, c, t), k) = (receives-Fits sv r f c t, k)

  -- In each reachable state of `serveDaemon`: the result of `Serve` is in the channel from its end
  -- until it is received; no error of a `Serve` is lost, and the error that is returned is that of
  -- `Serve`, or of a step before it; the return without error comes behind the end of `Serve`, a
  -- cancelled context and the stop of the runtime; and neither `Serve` ends without error nor the
  -- runtime stops before the context is cancelled.
  pub Steps-IsConsistent : {d : Daemon E} → Steps initial_daemon d → IsConsistent d
  unfolding initial_daemon IsConsistent
  Steps-IsConsistent here = ((refl, refl, refl, refl), (λ q. cc, λ q. cc))
  Steps-IsConsistent (next steps step) = Step-IsConsistent step (Steps-IsConsistent steps)
