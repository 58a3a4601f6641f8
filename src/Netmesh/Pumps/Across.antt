-- ===== src/Netmesh/Pumps/Across.antt =====
-- A connection with its two ends: what one end takes, the other end hands to its handler.
use clippy.Base.{
  ℕ, ◌≤◌, ◌≡◌, refl, sym, ◌∙◌, ap, List, [], ◌∷◌, ◌++◌, length, append-nil, append_assoc, All,
  All-append,
}
use clippy.Base.Bytes.{Bytes}
use clippy.Netmesh.Pumps.{
  binary, text_message, ping, goodbye, detaching, closing, gone, Reader, reading, in_handler,
  reader_leaves, waiting, Pumps, start_pumps, Label, Step, takes, refuses, context_ends, pops,
  ticks, writes_message, write_fails, writer_stops, hears_frame, hears_other, read_fails,
  calls_handler, handler_returns, handler_fails, reader_detaches, writer_detaches, reader_closes,
  writer_closes, other_closes, parts, parting_fails, hangs_up, reader_ends, writer_ends, Run, fresh,
  next,
}
use clippy.Netmesh.Pumps.Order.{
  accepted, written, heard, handled, frames, frames-snoc, in_copy, at_writer, settled, all-InOrder,
}

-- Of the frames that were read, the handler was called with all but the one that is copied.
record Handed (hd hn : List Bytes) (max_frame_bytes : ℕ) (reader : Reader) : Type 0 where
  all_handed : hd ≡ hn ++ in_copy reader
  fit : All (λ f. length f ≤ max_frame_bytes) hd

module _ {hd hn : List Bytes} {max_frame_bytes : ℕ} where
  calm :
      {reader : Reader}
      → Handed hd hn max_frame_bytes reader
      → Handed (hd ++ []) (hn ++ []) max_frame_bytes reader
  calm h = rw (append-nil hd, append-nil hn) h

  -- The reader comes from where it has no copy, and goes to where it has none.
  calm_at :
      {x : Reader} (from to : Reader)
      → x ≡ from
      → in_copy from ≡ []
      → in_copy to ≡ []
      → Handed hd hn max_frame_bytes x
      → Handed (hd ++ []) (hn ++ []) max_frame_bytes to
  calm_at from to e p q h = calm (record {
    all_handed = h.all_handed ∙ ap (λ x. hn ++ x) (ap in_copy e ∙ (p ∙ sym q));
    fit = h.fit;
  })

Step-Handed :
    {s s' : Pumps} {l : Label} (hd hn : List Bytes)
    → Step s l s'
    → Handed hd hn s.max_frame_bytes s.reader
    → Handed (hd ++ heard l) (hn ++ handled l) s'.max_frame_bytes s'.reader
Step-Handed hd hn (takes ended choice frame q) h = calm h
Step-Handed hd hn (refuses ended choice frame e q) h = calm h
Step-Handed hd hn context_ends h = calm h
Step-Handed hd hn (pops frame rest p q) h = calm h
Step-Handed hd hn (ticks p) h = calm h
Step-Handed hd hn (writes_message m p live) h = calm h
Step-Handed hd hn (write_fails m p) h = calm h
Step-Handed hd hn (writer_stops p q) h = calm h
Step-Handed hd hn (hears_frame frame p fits) h = record {
  all_handed =
      ap (λ x. x ++ frame ∷ []) (h.all_handed ∙ ap (λ x. hn ++ in_copy x) p)
      ∙ append_assoc hn [] (frame ∷ [])
      ∙ ap (λ x. x ++ frame ∷ []) (sym (append-nil hn));
  fit = All-append _ hd (frame ∷ []) h.fit (fits, tt);
}
Step-Handed hd hn (hears_other (binary f) p other) h = cc
Step-Handed hd hn (hears_other (text_message f) p other) h = calm h
Step-Handed hd hn (hears_other ping p other) h = calm h
Step-Handed hd hn (hears_other goodbye p other) h = calm h
Step-Handed hd hn (read_fails p) h = calm_at reading (reader_leaves detaching) p refl refl h
Step-Handed hd hn (calls_handler frame p) h = record {
  all_handed =
      append-nil hd
      ∙ (h.all_handed ∙ (ap (λ x. hn ++ in_copy x) p ∙ sym (append-nil (hn ++ frame ∷ []))));
  fit = All-append _ hd [] h.fit tt;
}
Step-Handed hd hn (handler_returns p) h = calm_at in_handler reading p refl refl h
Step-Handed hd hn (handler_fails p) h = calm_at in_handler (reader_leaves detaching) p refl refl h
Step-Handed hd hn (reader_detaches p) h =
    calm_at (reader_leaves detaching) (reader_leaves closing) p refl refl h
Step-Handed hd hn (writer_detaches p) h = calm h
Step-Handed hd hn (reader_closes p q) h = calm h
Step-Handed hd hn (writer_closes p q) h = calm h
Step-Handed hd hn (other_closes p) h = calm h
Step-Handed hd hn (parts p) h = calm h
Step-Handed hd hn (parting_fails p) h = calm h
Step-Handed hd hn (hangs_up p) h = calm h
Step-Handed hd hn (reader_ends p q) h =
    calm_at (reader_leaves closing) (reader_leaves gone) p refl refl h
Step-Handed hd hn (writer_ends p q) h = calm h

all-Handed :
    {size max_frame_bytes : ℕ} {shown : List Label} {s : Pumps}
    → Run size max_frame_bytes shown s
    → Handed (frames heard shown) (frames handled shown) s.max_frame_bytes s.reader
all-Handed fresh = unfold start_pumps frames in record { all_handed = refl; fit = tt }
all-Handed (next {shown} {s} {s'} {l} run step) =
    rw (frames-snoc heard shown l, frames-snoc handled shown l)
      (Step-Handed (frames heard shown) (frames handled shown) step (all-Handed run))

-- `ys` begins with `xs`.
abbrev pub IsPrefix : List Bytes → List Bytes → Type 0
IsPrefix xs ys = (rest : List Bytes) × (ys ≡ xs ++ rest)

IsPrefix-trans : (xs ys zs : List Bytes) → IsPrefix xs ys → IsPrefix ys zs → IsPrefix xs zs
IsPrefix-trans xs ys zs (r, p) (q, e) = (r ++ q, e ∙ (ap (λ y. y ++ q) p ∙ append_assoc xs r q))

-- Everything that the sender took is on the wire.
abbrev pub IsDrained : Pumps → Type 0
IsDrained s = (s.writer ≡ waiting) × (s.link.queue ≡ [])

module _ (size max_frame_bytes : ℕ) (shown : List Label) (s : Pumps)
    (sender : Run size max_frame_bytes shown s) where
  module _ (size' max_frame_bytes' : ℕ) (shown' : List Label) (s' : Pumps)
      (receiver : Run size' max_frame_bytes' shown' s') where
    all_arrived :
        IsDrained s
        → s'.reader ≡ reading
        → frames heard shown' ≡ frames written shown
        → frames handled shown' ≡ frames accepted shown
    all_arrived (waits, empty) reads same =
        let o = all-InOrder sender in
        let h = all-Handed receiver in
        sym (append-nil (frames handled shown'))
        ∙ (ap (λ x. frames handled shown' ++ in_copy x) (sym reads)
            ∙ (sym h.all_handed
                ∙ (same
                    ∙ (sym (append-nil (frames written shown))
                        ∙ (ap (λ x. frames written shown ++ x) (sym empty)
                            ∙ sym (settled waiting refl (at_writer waiting waits o)))))))

    -- Two ends of a connection, with a websocket between them of which the receiver has read a
    -- beginning of the frames that the sender wrote, in their order. However the pumps and the
    -- callers at both ends take turns, the frames that `HandleFrame` is called with at the
    -- receiver are a beginning of those that `enqueue` took at the sender, each once and in their
    -- order, and none that was read is longer than the receiver's limit. Once the sender's queue
    -- is empty and its `writePump` waits, and the receiver has read all that was written and is
    -- back in `ReadMessage`, `HandleFrame` was called with all of them.
    pub frames_across :
        IsPrefix (frames heard shown') (frames written shown)
        → IsPrefix (frames handled shown') (frames accepted shown)
          × All (λ f. length f ≤ s'.max_frame_bytes) (frames heard shown')
          × (IsDrained s
              → s'.reader ≡ reading
              → frames heard shown' ≡ frames written shown
              → frames handled shown' ≡ frames accepted shown)
    frames_across wire =
        let o = all-InOrder sender in
        let h = all-Handed receiver in
        (
          IsPrefix-trans (frames handled shown') (frames heard shown') (frames accepted shown)
              (in_copy s'.reader, h.all_handed)
              (IsPrefix-trans (frames heard shown') (frames written shown) (frames accepted shown)
                wire (_, o.whole)),
          h.fit,
          all_arrived,
        )
