-- ===== src/Netmesh/Pumps/Order.antt =====
-- The frames of a connection keep their order, from `enqueue` to `HandleFrame` at the other end.
use clippy.Base.{
  ℕ, ◌≤◌, ◌≡◌, refl, sym, subst, ◌∙◌, ap, Bool, true, false, none, some, List, [], ◌∷◌, ◌++◌,
  length, arith, append-nil, append_assoc,
}
use clippy.Base.Bytes.{Bytes}
use clippy.Netmesh.Delivery.{SendError, Link, enqueue}
use clippy.Netmesh.Delivery.Queues.{taken, dropped, enqueue-Queued}
use clippy.Netmesh.Pumps.{
  Message, binary, text_message, ping, goodbye, Exit, detaching, closing, gone, Reader, copied,
  Writer, waiting, writing, writer_leaves, Pumps, start_pumps, Label, accepts, handles, writes,
  hears, Step, takes, refuses, context_ends, pops, ticks, writes_message, write_fails, writer_stops,
  hears_frame, hears_other, read_fails, calls_handler, handler_returns, handler_fails,
  reader_detaches, writer_detaches, reader_closes, writer_closes, other_closes, parts,
  parting_fails, hangs_up, reader_ends, writer_ends, Run, fresh, next,
}

-- The frame that is a binary message.
abbrev pub frame_of : Message → List Bytes
frame_of (binary f) = f ∷ []
frame_of _ = []

abbrev pub accepted : Label → List Bytes
accepted (accepts f) = f ∷ []
accepted _ = []

abbrev pub written : Label → List Bytes
written (writes m) = frame_of m
written _ = []

abbrev pub heard : Label → List Bytes
heard (hears m) = frame_of m
heard _ = []

abbrev pub handled : Label → List Bytes
handled (handles f) = f ∷ []
handled _ = []

-- The frames that the labels show, in their order.
unfoldable pub frames : (Label → List Bytes) → List Label → List Bytes
frames f [] = []
frames f (l ∷ ls) = f l ++ frames f ls

pub frames-snoc :
    (f : Label → List Bytes) (ls : List Label) (l : Label)
    → frames f (ls ++ l ∷ []) ≡ frames f ls ++ f l
unfolding frames
frames-snoc f [] l = append-nil (f l)
frames-snoc f (x ∷ ls) l =
    ap (λ r. f x ++ r) (frames-snoc f ls l) ∙ sym (append_assoc (f x) (frames f ls) (f l))

abbrev pub in_flight : Writer → List Bytes
in_flight (writing m) = frame_of m
in_flight _ = []

abbrev pub in_copy : Reader → List Bytes
in_copy (copied f) = f ∷ []
in_copy _ = []

abbrev pub is_working : Writer → Bool
is_working (writer_leaves x) = false
is_working _ = true

-- Of the frames `acc` that were taken, `wr` were written, and the others are under way, but for one
-- whose write may have failed.
pub record InOrder (acc wr : List Bytes) (writer : Writer) (queue : List Bytes) : Type 0 where
  pub lost : List Bytes
  pub whole : acc ≡ wr ++ ((in_flight writer ++ lost) ++ queue)
  pub at_most_one : length lost ≤ 1
  pub not_lost : is_working writer ≡ true → lost ≡ []

module _ {acc wr : List Bytes} where
  calm :
      {writer : Writer} {queue : List Bytes}
      → InOrder acc wr writer queue
      → InOrder (acc ++ []) (wr ++ []) writer queue
  calm h = rw (append-nil acc, append-nil wr) h

  -- The state of the writer, given.
  pub at_writer :
      {queue : List Bytes} {x : Writer} (writer : Writer)
      → x ≡ writer
      → InOrder acc wr x queue
      → InOrder acc wr writer queue
  at_writer {queue} writer e h = subst (λ y. InOrder acc wr y queue) e h

  module _ {queue : List Bytes} where
    pub settled :
        (writer : Writer)
        → is_working writer ≡ true
        → InOrder acc wr writer queue
        → acc ≡ wr ++ (in_flight writer ++ queue)
    settled writer live h =
        h.whole
        ∙ ap (λ x. wr ++ (x ++ queue))
            (ap (λ x. in_flight writer ++ x) (h.not_lost live) ∙ append-nil (in_flight writer))

    queued_last :
        {writer : Writer} (f : Bytes)
        → InOrder acc wr writer queue
        → InOrder (acc ++ f ∷ []) (wr ++ []) writer (queue ++ f ∷ [])
    queued_last {writer} f h = record {
      lost = h.lost;
      whole =
          ap (λ x. x ++ f ∷ []) h.whole
          ∙ (append_assoc wr ((in_flight writer ++ h.lost) ++ queue) (f ∷ [])
              ∙ (ap (λ x. wr ++ x) (append_assoc (in_flight writer ++ h.lost) queue (f ∷ []))
                  ∙ ap (λ x. x ++ ((in_flight writer ++ h.lost) ++ (queue ++ f ∷ [])))
                      (sym (append-nil wr))));
      at_most_one = h.at_most_one;
      not_lost = h.not_lost;
    }

    sent_off :
        (m : Message)
        → InOrder acc wr (writing m) queue
        → InOrder (acc ++ []) (wr ++ frame_of m) waiting queue
    sent_off m h = record {
      lost = [];
      whole =
          append-nil acc ∙ (settled (writing m) refl h ∙ sym (append_assoc wr (frame_of m) queue));
      at_most_one = omega arith;
      not_lost = λ _. refl;
    }

    gave_up :
        (writer : Writer) (x : Exit)
        → is_working writer ≡ true
        → InOrder acc wr writer queue
        → length (in_flight writer) ≤ 1
        → InOrder (acc ++ []) (wr ++ []) (writer_leaves x) queue
    gave_up writer x live h few = calm (record {
      lost = in_flight writer;
      whole = settled writer live h;
      at_most_one = few;
      not_lost = λ e. cc;
    })

    popped :
        (f : Bytes) (rest : List Bytes)
        → queue ≡ f ∷ rest
        → InOrder acc wr waiting queue
        → InOrder (acc ++ []) (wr ++ []) (writing (binary f)) rest
    popped f rest q h = calm (record {
      lost = [];
      whole = settled waiting refl h ∙ ap (λ x. wr ++ x) q;
      at_most_one = omega arith;
      not_lost = λ _. refl;
    })

    -- `writePump` turns to a message without a frame, or comes back from one.
    turned : InOrder acc wr waiting queue → InOrder (acc ++ []) (wr ++ []) (writing ping) queue
    turned h = calm (record {
      lost = h.lost;
      whole = h.whole;
      at_most_one = h.at_most_one;
      not_lost = λ _. h.not_lost refl;
    })

    moved_on :
        (x y : Exit)
        → InOrder acc wr (writer_leaves x) queue
        → InOrder (acc ++ []) (wr ++ []) (writer_leaves y) queue
    moved_on x y h =
        calm (record {
          lost = h.lost;
          whole = h.whole;
          at_most_one = h.at_most_one;
          not_lost = λ e. cc;
        })

frame_of-length : (m : Message) → length (frame_of m) ≤ 1
frame_of-length (binary f) = omega arith
frame_of-length (text_message f) = omega arith
frame_of-length ping = omega arith
frame_of-length goodbye = omega arith

taken_queue :
    (size : ℕ) (ended : Bool) (choice : ℕ) (l : Link) (frame : Bytes)
    → (enqueue size ended choice l frame).1 ≡ none
    → l.queue ++ frame ∷ [] ≡ (enqueue size ended choice l frame).0.queue
taken_queue size ended choice l frame h = elim (enqueue-Queued size ended choice l frame) [
  | taken room e ↦ sym (ap (λ x. x.0.queue) e)
  | dropped x e ↦ absurd (ground (arith, e, h))
]

refused_queue :
    (size : ℕ) (ended : Bool) (choice : ℕ) (l : Link) (frame : Bytes) (x : SendError)
    → (enqueue size ended choice l frame).1 ≡ some x
    → l.queue ≡ (enqueue size ended choice l frame).0.queue
refused_queue size ended choice l frame x h = elim (enqueue-Queued size ended choice l frame) [
  | taken room e ↦ absurd (ground (arith, e, h))
  | dropped y e ↦ sym (ap (λ r. r.0.queue) e)
]

module _ (acc wr : List Bytes) where
  abbrev After : Label → Pumps → Type 0
  After l s' = InOrder (acc ++ accepted l) (wr ++ written l) s'.writer s'.link.queue

  Step-InOrder :
      {s s' : Pumps} {l : Label} → Step s l s' → InOrder acc wr s.writer s.link.queue → After l s'
  Step-InOrder {s} (takes ended choice frame q) h =
      subst (λ x. InOrder (acc ++ frame ∷ []) (wr ++ []) s.writer x)
        (taken_queue s.size ended choice s.link frame q) (queued_last frame h)
  Step-InOrder {s} (refuses ended choice frame e q) h =
      subst (λ x. InOrder (acc ++ []) (wr ++ []) s.writer x)
        (refused_queue s.size ended choice s.link frame e q) (calm h)
  Step-InOrder context_ends h = calm h
  Step-InOrder (pops frame rest p q) h = popped frame rest q (at_writer waiting p h)
  Step-InOrder (ticks p) h = turned (at_writer waiting p h)
  Step-InOrder (writes_message m p live) h = sent_off m (at_writer (writing m) p h)
  Step-InOrder (write_fails m p) h =
      gave_up (writing m) detaching refl (at_writer (writing m) p h) (frame_of-length m)
  Step-InOrder (writer_stops p q) h =
      gave_up waiting detaching refl (at_writer waiting p h) (omega arith)
  Step-InOrder (hears_frame frame p fits) h = calm h
  Step-InOrder (hears_other m p other) h = calm h
  Step-InOrder (read_fails p) h = calm h
  Step-InOrder (calls_handler frame p) h = calm h
  Step-InOrder (handler_returns p) h = calm h
  Step-InOrder (handler_fails p) h = calm h
  Step-InOrder (reader_detaches p) h = calm h
  Step-InOrder (writer_detaches p) h =
      moved_on detaching closing (at_writer (writer_leaves detaching) p h)
  Step-InOrder (reader_closes p q) h = calm h
  Step-InOrder (writer_closes p q) h = calm h
  Step-InOrder (other_closes p) h = calm h
  Step-InOrder (parts p) h = calm h
  Step-InOrder (parting_fails p) h = calm h
  Step-InOrder (hangs_up p) h = calm h
  Step-InOrder (reader_ends p q) h = calm h
  Step-InOrder (writer_ends p q) h = moved_on closing gone (at_writer (writer_leaves closing) p h)

pub all-InOrder :
    {size max_frame_bytes : ℕ} {shown : List Label} {s : Pumps}
    → Run size max_frame_bytes shown s
    → InOrder (frames accepted shown) (frames written shown) s.writer s.link.queue
all-InOrder fresh =
    unfold start_pumps frames in
    record { lost = []; whole = refl; at_most_one = omega arith; not_lost = λ _. refl }
all-InOrder (next {shown} {s} {s'} {l} run step) =
    rw (frames-snoc accepted shown l, frames-snoc written shown l)
      (Step-InOrder (frames accepted shown) (frames written shown) step (all-InOrder run))
