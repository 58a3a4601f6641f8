-- ===== src/Osclip/Watching/Kept.antt =====
-- No local change is lost between a watcher and the channel `observed`.
use clippy.Base.{
  ◌≡◌, refl, sym, subst, ◌∙◌, ap, Bool, true, false, List, [], ◌∷◌, ◌++◌, append-nil, Bool-cases,
  inl, inr, if◌then◌else◌, arith, length, ◌≤◌,
}
use clippy.Base.Int.{ℤ}
use clippy.Clipwire.Types.{Wire}
use clippy.Osclip.Pending.{FormatBucket, bucket_beq, bucket_beq_iff}
use clippy.Osclip.Manager.{Media, ObservedEvent}
use clippy.Osclip.Watching.{
  Watcher, unstarted, listening, holding, stopped, Clipboard, new_manager_with_backend, set, start,
  is_watching, Label, silent, sees, passes, delivers, Step, starts, cancels, remembers, forgets,
  receives, watcher_skips, watcher_sees, watcher_passes, watcher_stops, source_ends, opens,
  collects, timer_fires, text_skipped, text_built, text_sent, image_skipped, image_built,
  image_sent, gives_up, Run, fresh, next,
}
use clippy.Osclip.Watching.Own.{IsOwn, watch_value-bucket, all-IsOwn}
use clippy.Osclip.Watching.Channels.{IsConsistent, all-IsConsistent}
use clippy.Osclip.Watching.Windows.{passed, passed-append}

-- The local changes that the watchers saw, in their order.
unfoldable pub seen : List Label → List ObservedEvent
seen [] = []
seen (sees e ∷ ls) = e ∷ seen ls
seen (silent ∷ ls) = seen ls
seen (passes e ∷ ls) = seen ls
seen (delivers p ∷ ls) = seen ls

-- The events of one watcher.
unfoldable pub of_bucket : FormatBucket → List ObservedEvent → List ObservedEvent
of_bucket b [] = []
of_bucket b (e ∷ es) = if bucket_beq e.bucket b then e ∷ of_bucket b es else of_bucket b es

-- What a watcher has in its hands.
abbrev pub in_hand : Watcher → List ObservedEvent
in_hand (holding e) = e ∷ []
in_hand _ = []

seen-append : (ls ms : List Label) → seen (ls ++ ms) ≡ seen ls ++ seen ms
unfolding seen
seen-append [] ms = refl
seen-append (sees e ∷ ls) ms = ap (λ es. e ∷ es) (seen-append ls ms)
seen-append (silent ∷ ls) ms = seen-append ls ms
seen-append (passes e ∷ ls) ms = seen-append ls ms
seen-append (delivers p ∷ ls) ms = seen-append ls ms

of_bucket-append :
    (b : FormatBucket) (es fs : List ObservedEvent)
    → of_bucket b (es ++ fs) ≡ of_bucket b es ++ of_bucket b fs
unfolding of_bucket
of_bucket-append b [] fs = refl
of_bucket-append b (e ∷ es) fs = ground (arith, of_bucket-append b es fs)

abbrev pub is_stopped : Watcher → Bool
is_stopped stopped = true
is_stopped _ = false

-- Of what a watcher saw, `sn`, it has passed on `ps`, and holds the rest, but for what it gave up.
pub record Held (sn ps : List ObservedEvent) (x : Watcher) (done : Bool) : Type 0 where
  pub lost : List ObservedEvent
  pub whole : sn ≡ ps ++ (in_hand x ++ lost)
  pub at_most_one : length lost ≤ 1
  pub nothing_lost : done ≡ false → lost ≡ []
  pub not_lost : is_stopped x ≡ false → lost ≡ []

calm :
    {sn ps : List ObservedEvent} {x : Watcher} {done : Bool}
    → Held sn ps x done
    → Held (sn ++ []) (ps ++ []) x done
calm {sn} {ps} h = rw (append-nil sn, append-nil ps) h

module _ {sn ps : List ObservedEvent} {done : Bool} where
  ended : {x : Watcher} → Held sn ps x done → Held (sn ++ []) (ps ++ []) x true
  ended h = calm {done = true} (record {
    lost = h.lost;
    whole = h.whole;
    at_most_one = h.at_most_one;
    nothing_lost = λ e. cc;
    not_lost = h.not_lost;
  })

  begun : Held sn ps unstarted done → Held (sn ++ []) (ps ++ []) listening done
  begun h = calm (record {
    lost = h.lost;
    whole = h.whole;
    at_most_one = h.at_most_one;
    nothing_lost = h.nothing_lost;
    not_lost = λ _. h.not_lost refl;
  })

  saw :
      (e : ObservedEvent)
      → Held sn ps listening done
      → Held (sn ++ e ∷ []) (ps ++ []) (holding e) done
  saw e h = record {
    lost = [];
    whole = ap (λ x. x ++ e ∷ []) (h.whole ∙ ap (λ x. ps ++ x) (h.not_lost refl));
    at_most_one = omega arith;
    nothing_lost = λ _. refl;
    not_lost = λ _. refl;
  }

  passed_on :
      (e : ObservedEvent)
      → Held sn ps (holding e) done
      → Held (sn ++ []) (ps ++ e ∷ []) listening done
  passed_on e h = record {
    lost = [];
    whole =
        append-nil sn
        ∙ (h.whole ∙ (ap (λ x. ps ++ (e ∷ x)) (h.not_lost refl) ∙ sym (append-nil (ps ++ e ∷ []))));
    at_most_one = omega arith;
    nothing_lost = λ _. refl;
    not_lost = λ _. refl;
  }

  quit_idle : Held sn ps listening done → Held (sn ++ []) (ps ++ []) stopped done
  quit_idle h = calm (record {
    lost = h.lost;
    whole = h.whole;
    at_most_one = h.at_most_one;
    nothing_lost = h.nothing_lost;
    not_lost = λ _. h.not_lost refl;
  })

  quit :
      (x : Watcher)
      → is_watching x ≡ true
      → done ≡ true
      → Held sn ps x done
      → Held (sn ++ []) (ps ++ []) stopped done
  quit listening live e h = quit_idle h
  quit (holding a) live e h = calm (record {
    lost = a ∷ [];
    whole = h.whole ∙ ap (λ x. ps ++ (a ∷ x)) (h.not_lost refl);
    at_most_one = omega arith;
    nothing_lost = λ q. cc;
    not_lost = λ g. cc;
  })
  quit unstarted live e h = cc
  quit stopped live e h = cc

module _ (media : Media) (w : Wire) (b : FormatBucket) where
  abbrev After : List ObservedEvent → List ObservedEvent → Label → Clipboard → Type 0
  After sn ps l s' =
      Held (sn ++ of_bucket b (seen (l ∷ []))) (ps ++ of_bucket b (passed (l ∷ []))) (s'.watchers b)
        s'.done

  started_Held :
      (sn ps : List ObservedEvent) (s : Clipboard)
      → IsConsistent s
      → Held sn ps (s.watchers b) s.done
      → After sn ps silent (start s)
  unfolding start seen passed of_bucket
  started_Held sn ps s c h = elim (Bool-cases s.started) [
    | inl before ↦ simp before (calm h)
    | inr first ↦ simp first (begun (subst (λ x. Held sn ps x s.done) (c.unwatched b first) h))
  ]

  Step-Held :
      {s s' : Clipboard} {l : Label} (sn ps : List ObservedEvent)
      → IsConsistent s
      → IsOwn media w s
      → Step media w s l s'
      → Held sn ps (s.watchers b) s.done
      → After sn ps l s'
  unfolding seen passed of_bucket set
  Step-Held {s} sn ps c own starts h = started_Held sn ps s c h
  Step-Held {s} sn ps c own cancels h = ended h
  Step-Held {s} sn ps c own (watcher_sees b' now content e listens sees_it) h =
      simp (watch_value-bucket media w b' now s.pending content e sees_it)
        (elim (Bool-cases (bucket_beq b' b)) [
          | inl same ↦ rw same (
              saw e (
                subst (λ x. Held sn ps x s.done)
                  (ap s.watchers (sym ((bucket_beq_iff b' b).0 same)) ∙ listens) h))
          | inr differs ↦ rw differs (calm h)
        ])
  Step-Held {s} sn ps c own (watcher_passes b' e holds room) h =
      simp (own b' e holds) (elim (Bool-cases (bucket_beq b' b)) [
        | inl same ↦ rw same (
            passed_on e (
              subst (λ x. Held sn ps x s.done)
                (ap s.watchers (sym ((bucket_beq_iff b' b).0 same)) ∙ holds) h))
        | inr differs ↦ rw differs (calm h)
      ])
  Step-Held {s} sn ps c own (watcher_stops b' done live) h = (elim (Bool-cases (bucket_beq b' b)) [
    | inl same ↦ rw same (
        quit (s.watchers b)
          (subst (λ x. is_watching (s.watchers x) ≡ true) ((bucket_beq_iff b' b).0 same) live) done
          h)
    | inr differs ↦ rw differs (calm h)
  ])
  Step-Held {s} sn ps c own (source_ends b' listens) h = (elim (Bool-cases (bucket_beq b' b)) [
    | inl same ↦ rw same (
        quit_idle (
          subst (λ x. Held sn ps x s.done)
            (ap s.watchers (sym ((bucket_beq_iff b' b).0 same)) ∙ listens) h))
    | inr differs ↦ rw differs (calm h)
  ])
  Step-Held sn ps c own (remembers b' hash now) h = calm h
  Step-Held sn ps c own (forgets b' hash) h = calm h
  Step-Held sn ps c own (receives p rest q) h = calm h
  Step-Held sn ps c own (watcher_skips b' now content listens mine) h = calm h
  Step-Held sn ps c own (opens e rest p q) h = calm h
  Step-Held sn ps c own (collects batch e rest p q) h = calm h
  Step-Held sn ps c own (timer_fires batch p) h = calm h
  Step-Held sn ps c own (text_skipped batch now p nothing) h = calm h
  Step-Held sn ps c own (text_built batch now payload p built) h = calm h
  Step-Held sn ps c own (text_sent batch payload p room) h = calm h
  Step-Held sn ps c own (image_skipped batch now p nothing) h = calm h
  Step-Held sn ps c own (image_built batch now payload p built) h = calm h
  Step-Held sn ps c own (image_sent payload p room) h = calm h
  Step-Held sn ps c own (gives_up done waits) h = calm h

  all-Held :
      {event_buffer : ℤ} {shown : List Label} {s : Clipboard}
      → Run media w event_buffer shown s
      → Held (of_bucket b (seen shown)) (of_bucket b (passed shown)) (s.watchers b) s.done
  all-Held fresh =
      unfold new_manager_with_backend seen passed of_bucket in
      record {
        lost = [];
        whole = refl;
        at_most_one = omega arith;
        nothing_lost = λ _. refl;
        not_lost = λ _. refl;
      }
  all-Held (next {shown} {s} {s'} {l} run step) =
      rw
        (
          seen-append shown (l ∷ []),
          passed-append shown (l ∷ []),
          of_bucket-append b (seen shown) (seen (l ∷ [])),
          of_bucket-append b (passed shown) (passed (l ∷ [])),
        )
        (Step-Held (of_bucket b (seen shown)) (of_bucket b (passed shown))
          (all-IsConsistent media w run) (all-IsOwn media w run) step (all-Held run))

  -- However the goroutines, the timer, the native clipboard and the callers take turns: of the local
  -- changes that the watcher of a format saw, it has passed on to `observed` the first ones, in
  -- their order and each once, and it lacks the one that it holds and at most one that it gave up.
  -- It gave up none as long as the context has not ended or the watcher has not returned.
  pub Run-Held :
      (event_buffer : ℤ) (shown : List Label) (s : Clipboard)
      → Run media w event_buffer shown s
      → Held (of_bucket b (seen shown)) (of_bucket b (passed shown)) (s.watchers b) s.done
  Run-Held event_buffer shown s run = all-Held run
