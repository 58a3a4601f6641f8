-- ===== src/App/Runtime/Session/Lasts.antt =====
-- A list of chunks in order, taken apart at its last one.
use clippy.Base.{
  ℕ, zero, suc, ◌+◌, ◌≤◌, ◌≡◌, ◌≢◌, ◌⊎◌, inl, inr, refl, ap, List, [], ◌∷◌, ◌++◌, map, arith, All,
  All-map, some,
}
use clippy.Base.Bytes.{Bytes}
use clippy.Clipwire.Types.{PayloadChunk}
use clippy.Clipwire.Chunking.Split.{count_from}
use clippy.Clipwire.Chunking.Delivery.{In}
use clippy.App.Runtime.{ChunkCodec}
use clippy.App.Runtime.Delivery.{Carries}

-- A list that is not empty has a last member.
pub record Snoc (cs : List PayloadChunk) : Type 0 where
  pub early : List PayloadChunk
  pub last : PayloadChunk
  pub same : cs ≡ early ++ last ∷ []

pub snoc : (c : PayloadChunk) (cs : List PayloadChunk) → Snoc (c ∷ cs)
snoc c [] = record { early = []; last = c; same = refl }
snoc c (d ∷ cs) =
    let r = snoc d cs in
    record { early = c ∷ r.early; last = r.last; same = ap (λ l. c ∷ l) r.same }

abbrev sequences : List PayloadChunk → List ℕ
sequences cs = map (λ (c : PayloadChunk). c.sequence) cs

last_above :
    (n k : ℕ) (early : List PayloadChunk) (last : PayloadChunk)
    → sequences (early ++ last ∷ []) ≡ count_from n k
    → k ≤ last.sequence
last_above zero k [] last h = cc
last_above zero k (c ∷ early) last h = cc
last_above (suc n) k [] last h = ground (arith, h)
last_above (suc n) k (c ∷ early) last h =
    omega (arith, last_above n (k + 1) early last (ground (arith, h)))

-- Sequence numbers that count up tell the last one apart.
pub last_differs :
    (n k : ℕ) (early : List PayloadChunk) (last : PayloadChunk)
    → sequences (early ++ last ∷ []) ≡ count_from n k
    → All (λ c. c.sequence ≢ last.sequence) early
last_differs n k [] last h = tt
last_differs zero k (c ∷ early) last h = cc
last_differs (suc n) k (c ∷ early) last h =
    let rest : sequences (early ++ last ∷ []) ≡ count_from n (k + 1) = ground (arith, h) in
    let above = last_above n (k + 1) early last rest in
    (λ e. ground (arith, h, above, e), last_differs n (k + 1) early last rest)

In-append : (c : PayloadChunk) (cs ds : List PayloadChunk) → In c cs → In c (cs ++ ds)
In-append c [] ds h = absurd h
In-append c (x ∷ cs) ds (inl e) = inl e
In-append c (x ∷ cs) ds (inr m) = inr (In-append c cs ds m)

pub In-last : (cs : List PayloadChunk) (last : PayloadChunk) → In last (cs ++ last ∷ [])
In-last [] last = inl refl
In-last (c ∷ cs) last = inr (In-last cs last)

All-In : (cs : List PayloadChunk) → All (λ c. In c cs) cs
All-In [] = tt
All-In (c ∷ cs) = (inl refl, All-map _ _ (λ d m. inr m) cs (All-In cs))

pub early-In : (cs ds : List PayloadChunk) → All (λ c. In c (cs ++ ds)) cs
early-In cs ds = All-map _ _ (λ c m. In-append c cs ds m) cs (All-In cs)

pub last-or-early :
    (cs : List PayloadChunk) (last : PayloadChunk)
    → All (λ c. (c ≡ last) ⊎ In c cs) (cs ++ last ∷ [])
last-or-early [] last = (inl refl, tt)
last-or-early (c ∷ cs) last = (
  inr (inl refl),
  All-map _ _ (λ d. elim [ inl e ↦ inl e | inr m ↦ inr (inr m) ]) (cs ++ last ∷ [])
      (last-or-early cs last),
)

module _ (codec : ChunkCodec) where
  -- The frames of the last chunk and of those before it.
  pub record Arrivals (arrivals : List (ℕ × Bytes)) (early : List PayloadChunk)
      (last : PayloadChunk) : Type 0 where
    pub first : List (ℕ × Bytes)
    pub now : ℕ
    pub frame : Bytes
    pub same : arrivals ≡ first ++ (now, frame) ∷ []
    pub carried : Carries codec first early
    pub carried_last : codec.unmarshal_chunk frame ≡ some last

  pub last_arrival :
      (arrivals : List (ℕ × Bytes)) (early : List PayloadChunk) (last : PayloadChunk)
      → Carries codec arrivals (early ++ last ∷ [])
      → Arrivals arrivals early last
  last_arrival [] [] last h = absurd h
  last_arrival [] (c ∷ early) last h = absurd h
  last_arrival ((now, frame) ∷ []) [] last h = record {
    first = [];
    now = now;
    frame = frame;
    same = refl;
    carried = tt;
    carried_last = h.0;
  }
  last_arrival (a ∷ b ∷ rest) [] last h = absurd h.1
  last_arrival (a ∷ rest) (c ∷ early) last h =
      let r = last_arrival rest early last h.1 in
      record {
        first = a ∷ r.first;
        now = r.now;
        frame = r.frame;
        same = ap (λ l. a ∷ l) r.same;
        carried = (h.0, r.carried);
        carried_last = r.carried_last;
      }
