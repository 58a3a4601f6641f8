-- ===== src/Netmesh/Pumps/Consistent.antt =====
-- What holds in each state of a connection.
use clippy.Base.{
  ℕ, ◌+◌, ◌≤◌, ◌≡◌, ◌≢◌, refl, Bool, true, List, [], ◌∷◌, ◌++◌, length, arith, length-append,
}
use clippy.Base.Bytes.{Bytes}
use clippy.Netmesh.Delivery.{Link, enqueue}
use clippy.Netmesh.Delivery.Queues.{taken, dropped, enqueue-Queued}
use clippy.Netmesh.Pumps.{
  Message, binary, text_message, ping, goodbye, Exit, detaching, gone, Reader, reader_leaves,
  Writer, waiting, writing, writer_leaves, Closer, unclosed, parting, closed, Pumps, start_pumps,
  Label, silent, reports, breaks, outside, accepts, handles, writes, hears, Step, takes, refuses,
  context_ends, pops, ticks, writes_message, write_fails, writer_stops, hears_frame, hears_other,
  read_fails, calls_handler, handler_returns, handler_fails, reader_detaches, writer_detaches,
  reader_closes, writer_closes, other_closes, parts, parting_fails, hangs_up, reader_ends,
  writer_ends, Run, fresh, next,
}

abbrev pub count_report : Label → ℕ
count_report reports = 1
count_report _ = 0

abbrev pub count_goodbye : Label → ℕ
count_goodbye (writes goodbye) = 1
count_goodbye _ = 0

unfoldable pub total : (Label → ℕ) → List Label → ℕ
total f [] = 0
total f (l ∷ ls) = f l + total f ls

total-snoc :
    (f : Label → ℕ) (ls : List Label) (l : Label) → total f (ls ++ l ∷ []) ≡ total f ls + f l
unfolding total
total-snoc f [] l = omega arith
total-snoc f (x ∷ ls) l = omega (arith, total-snoc f ls l)

-- Has called `handleConnectionClosed`.
abbrev pub after_report : Exit → ℕ
after_report detaching = 0
after_report _ = 1

abbrev pub reader_reported : Reader → ℕ
reader_reported (reader_leaves x) = after_report x
reader_reported _ = 0

abbrev pub writer_reported : Writer → ℕ
writer_reported (writer_leaves x) = after_report x
writer_reported _ = 0

-- The close message was written, or given up.
abbrev pub parted : Closer → ℕ
parted unclosed = 0
parted parting = 0
parted _ = 1

pub record IsConsistent (shown : List Label) (s : Pumps) : Type 0 where
  pub fits : length s.link.queue ≤ s.size
  pub cancelled_first : s.closer ≢ unclosed → s.link.cancelled ≡ true
  pub reported : total count_report shown ≡ reader_reported s.reader + writer_reported s.writer
  pub parted_once : total count_goodbye shown ≤ parted s.closer
  pub reader_last : s.reader ≡ reader_leaves gone → s.closer ≡ closed
  pub writer_last : s.writer ≡ writer_leaves gone → s.closer ≡ closed
  pub no_goodbye : s.writer ≢ writing goodbye

-- Where `enqueue` leaves the queue.
enqueue-fits :
    (size : ℕ) (ended : Bool) (choice : ℕ) (l : Link) (frame : Bytes)
    → length l.queue ≤ size
    → (length (enqueue size ended choice l frame).0.queue ≤ size)
      × ((enqueue size ended choice l frame).0.cancelled ≡ l.cancelled)
enqueue-fits size ended choice l frame h = elim (enqueue-Queued size ended choice l frame) [
  | taken room e ↦ rw e (ground (arith, length-append l.queue (frame ∷ [])))
  | dropped x e ↦ rw e (h, refl)
]

counted :
    (shown : List Label) (l : Label)
    → (total count_report (shown ++ l ∷ []) ≡ total count_report shown + count_report l)
      × (total count_goodbye (shown ++ l ∷ []) ≡ total count_goodbye shown + count_goodbye l)
counted shown l = (total-snoc count_report shown l, total-snoc count_goodbye shown l)

module _ {s : Pumps} (shown : List Label) (c : IsConsistent shown s) where
  written-IsConsistent :
      (m : Message)
      → s.writer ≡ writing m
      → IsConsistent (shown ++ writes m ∷ []) (record s { writer = waiting })
  written-IsConsistent (binary f) p = ground (arith, counted shown (writes (binary f)))
  written-IsConsistent (text_message f) p = ground (arith, counted shown (writes (text_message f)))
  written-IsConsistent ping p = ground (arith, counted shown (writes ping))
  written-IsConsistent goodbye p = absurd (c.no_goodbye p)

Step-IsConsistent :
    {s s' : Pumps} {l : Label} (shown : List Label)
    → Step s l s'
    → IsConsistent shown s
    → IsConsistent (shown ++ l ∷ []) s'
Step-IsConsistent {s} shown (takes ended choice frame q) c =
    ground
      (arith, counted shown (accepts frame), enqueue-fits s.size ended choice s.link frame c.fits)
Step-IsConsistent {s} shown (refuses ended choice frame e q) c =
    ground (arith, counted shown silent, enqueue-fits s.size ended choice s.link frame c.fits)
Step-IsConsistent shown (writes_message m p live) c = written-IsConsistent shown c m p
Step-IsConsistent shown context_ends c = ground (arith, counted shown outside)
Step-IsConsistent shown (pops frame rest p q) c = ground (arith, counted shown silent)
Step-IsConsistent shown (ticks p) c = ground (arith, counted shown silent)
Step-IsConsistent shown (write_fails m p) c = ground (arith, counted shown breaks)
Step-IsConsistent shown (writer_stops p q) c = ground (arith, counted shown silent)
Step-IsConsistent shown (hears_frame frame p fits) c =
    ground (arith, counted shown (hears (binary frame)))
Step-IsConsistent shown (hears_other m p other) c = ground (arith, counted shown (hears m))
Step-IsConsistent shown (read_fails p) c = ground (arith, counted shown breaks)
Step-IsConsistent shown (calls_handler frame p) c = ground (arith, counted shown (handles frame))
Step-IsConsistent shown (handler_returns p) c = ground (arith, counted shown silent)
Step-IsConsistent shown (handler_fails p) c = ground (arith, counted shown breaks)
Step-IsConsistent shown (reader_detaches p) c = ground (arith, counted shown reports)
Step-IsConsistent shown (writer_detaches p) c = ground (arith, counted shown reports)
Step-IsConsistent shown (reader_closes p q) c = ground (arith, counted shown silent)
Step-IsConsistent shown (writer_closes p q) c = ground (arith, counted shown silent)
Step-IsConsistent shown (other_closes p) c = ground (arith, counted shown outside)
Step-IsConsistent shown (parts p) c = ground (arith, counted shown (writes goodbye))
Step-IsConsistent shown (parting_fails p) c = ground (arith, counted shown silent)
Step-IsConsistent shown (hangs_up p) c = ground (arith, counted shown silent)
Step-IsConsistent shown (reader_ends p q) c = ground (arith, counted shown silent)
Step-IsConsistent shown (writer_ends p q) c = ground (arith, counted shown silent)

pub all-IsConsistent :
    {size max_frame_bytes : ℕ} {shown : List Label} {s : Pumps}
    → Run size max_frame_bytes shown s
    → IsConsistent shown s
all-IsConsistent fresh = unfold start_pumps total in ground arith
all-IsConsistent (next {shown} run step) = Step-IsConsistent shown step (all-IsConsistent run)
