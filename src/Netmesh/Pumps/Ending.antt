-- ===== src/Netmesh/Pumps/Ending.antt =====
-- How a connection ends by its own pumps.
use clippy.Base.{ℕ, ◌≤◌, ◌≡◌, ◌⊎◌, inl, inr, refl, true, List, length, arith}
use clippy.Netmesh.Pumps.{
  Exit, detaching, closing, gone, Reader, reading, in_handler, copied, reader_leaves, Writer,
  waiting, writing, writer_leaves, Closer, unclosed, parting, hanging_up, closed, Pumps, Label,
  silent, reports, breaks, handles, writes, Step, writes_message, write_fails, writer_stops,
  read_fails, calls_handler, handler_returns, reader_detaches, writer_detaches, reader_closes,
  writer_closes, parts, hangs_up, reader_ends, writer_ends, Run,
}
use clippy.Netmesh.Pumps.Consistent.{
  count_report, count_goodbye, total, parted, IsConsistent, all-IsConsistent,
}

-- A step of the pumps, or of a call of `close` that has begun: nothing outside ends the connection,
-- no frame is taken, no message is read, and a pump breaks off only where the websocket is closed.
abbrev pub IsOwn : Pumps → Label → Type 0
IsOwn s silent = Unit
IsOwn s reports = Unit
IsOwn s (handles f) = Unit
IsOwn s (writes m) = Unit
IsOwn s breaks = s.closer ≡ closed
IsOwn s _ = ⊥

pub data Own : Pumps → Pumps → Type 0 where
  stay : {s : Pumps} → Own s s
  step_on : {s t u : Pumps} {l : Label} → IsOwn s l → Step s l t → Own t u → Own s u

-- A pump has left its loop, or the context of the connection has ended.
pub data IsEnding (s : Pumps) : Type 0 where
  reader_left : (x : Exit) → s.reader ≡ reader_leaves x → IsEnding s
  writer_left : (x : Exit) → s.writer ≡ writer_leaves x → IsEnding s
  called_off : s.link.cancelled ≡ true → IsEnding s

-- Both pumps have returned, and the websocket is closed.
pub record IsOver (s : Pumps) : Type 0 where
  pub reader_gone : s.reader ≡ reader_leaves gone
  pub writer_gone : s.writer ≡ writer_leaves gone
  pub shut : s.closer ≡ closed

abbrev Ends : Pumps → Type 0
Ends s = (s' : Pumps) × Own s s' × IsOver s'

before : {s t : Pumps} {l : Label} → IsOwn s l → Step s l t → Ends t → Ends s
before own step (s', steps, over) = (s', step_on own step steps, over)

-- `close` has returned.
record IsShut (s : Pumps) : Type 0 where
  shut : s.closer ≡ closed
  cancelled : s.link.cancelled ≡ true

module _ (s : Pumps) (h : IsShut s) where
  writer_closing : s.reader ≡ reader_leaves gone → s.writer ≡ writer_leaves closing → Ends s
  writer_closing r p =
      before tt (writer_ends p h.shut)
        (_, stay, record { reader_gone = r; writer_gone = refl; shut = h.shut })

writer_detaching :
    (s : Pumps)
    → IsShut s
    → s.reader ≡ reader_leaves gone
    → s.writer ≡ writer_leaves detaching
    → Ends s
writer_detaching s h r p =
    before tt (writer_detaches p)
      (writer_closing _ (record { shut = h.shut; cancelled = h.cancelled }) r refl)

writer_out :
    (s : Pumps) (x : Writer) → IsShut s → s.reader ≡ reader_leaves gone → s.writer ≡ x → Ends s
writer_out s waiting h r p =
    before tt (writer_stops p h.cancelled)
      (writer_detaching _ (record { shut = h.shut; cancelled = h.cancelled }) r refl)
writer_out s (writing m) h r p =
    before h.shut (write_fails m p)
      (writer_detaching _ (record { shut = h.shut; cancelled = h.cancelled }) r refl)
writer_out s (writer_leaves detaching) h r p = writer_detaching s h r p
writer_out s (writer_leaves closing) h r p = writer_closing s h r p
writer_out s (writer_leaves gone) h r p =
    (s, stay, record { reader_gone = r; writer_gone = p; shut = h.shut })

reader_closing : (s : Pumps) → IsShut s → s.reader ≡ reader_leaves closing → Ends s
reader_closing s h p =
    before tt (reader_ends p h.shut)
      (writer_out _ s.writer (record { shut = h.shut; cancelled = h.cancelled }) refl refl)

reader_detaching : (s : Pumps) → IsShut s → s.reader ≡ reader_leaves detaching → Ends s
reader_detaching s h p =
    before tt (reader_detaches p)
      (reader_closing _ (record { shut = h.shut; cancelled = h.cancelled }) refl)

reader_reading : (s : Pumps) → IsShut s → s.reader ≡ reading → Ends s
reader_reading s h p =
    before h.shut (read_fails p)
      (reader_detaching _ (record { shut = h.shut; cancelled = h.cancelled }) refl)

reader_handling : (s : Pumps) → IsShut s → s.reader ≡ in_handler → Ends s
reader_handling s h p =
    before tt (handler_returns p)
      (reader_reading _ (record { shut = h.shut; cancelled = h.cancelled }) refl)

reader_out : (s : Pumps) (x : Reader) → IsShut s → s.reader ≡ x → Ends s
reader_out s reading h p = reader_reading s h p
reader_out s (copied f) h p =
    before tt (calls_handler f p)
      (reader_handling _ (record { shut = h.shut; cancelled = h.cancelled }) refl)
reader_out s in_handler h p = reader_handling s h p
reader_out s (reader_leaves detaching) h p = reader_detaching s h p
reader_out s (reader_leaves closing) h p = reader_closing s h p
reader_out s (reader_leaves gone) h p = writer_out s s.writer h p refl

-- From within the body of `closeOnce.Do` on.
hanging_out : (s : Pumps) → s.link.cancelled ≡ true → s.closer ≡ hanging_up → Ends s
hanging_out s h p =
    before tt (hangs_up p) (reader_out _ s.reader (record { shut = refl; cancelled = h }) refl)

parting_out : (s : Pumps) → s.link.cancelled ≡ true → s.closer ≡ parting → Ends s
parting_out s h p = before tt (parts p) (hanging_out _ h refl)

-- A pump that has left its loop before anyone called `close`.
reader_leaving :
    (s : Pumps) (x : Exit)
    → (s.reader ≡ reader_leaves gone → s.closer ≡ closed)
    → s.closer ≡ unclosed
    → s.reader ≡ reader_leaves x
    → Ends s
reader_leaving s detaching last u p =
    before tt (reader_detaches p) (before tt (reader_closes refl u) (parting_out _ refl refl))
reader_leaving s closing last u p = before tt (reader_closes p u) (parting_out _ refl refl)
reader_leaving s gone last u p = let done = last p in cc

writer_leaving :
    (s : Pumps) (x : Exit)
    → (s.writer ≡ writer_leaves gone → s.closer ≡ closed)
    → s.closer ≡ unclosed
    → s.writer ≡ writer_leaves x
    → Ends s
writer_leaving s detaching last u p =
    before tt (writer_detaches p) (before tt (writer_closes refl u) (parting_out _ refl refl))
writer_leaving s closing last u p = before tt (writer_closes p u) (parting_out _ refl refl)
writer_leaving s gone last u p = let done = last p in cc

-- The context has ended before anyone called `close`.
writer_called_off :
    (s : Pumps) → s.link.cancelled ≡ true → s.closer ≡ unclosed → s.writer ≡ waiting → Ends s
writer_called_off s h u p =
    before tt (writer_stops p h) (writer_leaving _ detaching (λ e. cc) u refl)

called_off_out :
    (s : Pumps) (x : Writer)
    → (s.writer ≡ writer_leaves gone → s.closer ≡ closed)
    → s.link.cancelled ≡ true
    → s.closer ≡ unclosed
    → s.writer ≡ x
    → Ends s
called_off_out s waiting last h u p = writer_called_off s h u p
called_off_out s (writing m) last h u p =
    before tt (writes_message m p (λ e. cc)) (writer_called_off _ h u refl)
called_off_out s (writer_leaves x) last h u p = writer_leaving s x last u p

close_out :
    (s : Pumps) (x : Closer) (shown : List Label)
    → IsConsistent shown s
    → IsEnding s
    → s.closer ≡ x
    → Ends s
close_out s unclosed shown c (reader_left x r) p = reader_leaving s x c.reader_last p r
close_out s unclosed shown c (writer_left x w) p = writer_leaving s x c.writer_last p w
close_out s unclosed shown c (called_off h) p = called_off_out s s.writer c.writer_last h p refl
close_out s parting shown c e p = parting_out s (c.cancelled_first (λ e. cc)) p
close_out s hanging_up shown c e p = hanging_out s (c.cancelled_first (λ e. cc)) p
close_out s closed shown c e p =
    reader_out s s.reader (record { shut = p; cancelled = c.cancelled_first (λ e. cc) }) refl

pub connection_ends :
    (size max_frame_bytes : ℕ) (shown : List Label) (s : Pumps)
    → Run size max_frame_bytes shown s
    → (IsEnding s → (s' : Pumps) × Own s s' × IsOver s')
      × ((s.reader ≡ reader_leaves gone) ⊎ (s.writer ≡ writer_leaves gone)
          → (s.link.cancelled ≡ true) × (s.closer ≡ closed))
      × (length s.link.queue ≤ s.size)
      × (total count_goodbye shown ≤ 1)
      × (IsOver s → total count_report shown ≡ 2)
connection_ends size max_frame_bytes shown s run =
    let c = all-IsConsistent run in
    (
      λ e. close_out s s.closer shown c e refl,
      returned c,
      c.fits,
      at_most s.closer c.parted_once,
      λ h. ground (arith, c.reported, h.reader_gone, h.writer_gone),
    )
  where
    shut_off :
        IsConsistent shown s → s.closer ≡ closed → (s.link.cancelled ≡ true) × (s.closer ≡ closed)
    shut_off c p = (c.cancelled_first (λ e. cc), p)

    returned :
        IsConsistent shown s
        → (s.reader ≡ reader_leaves gone) ⊎ (s.writer ≡ writer_leaves gone)
        → (s.link.cancelled ≡ true) × (s.closer ≡ closed)
    returned c (inl r) = shut_off c (c.reader_last r)
    returned c (inr w) = shut_off c (c.writer_last w)

    at_most : (x : Closer) → total count_goodbye shown ≤ parted x → total count_goodbye shown ≤ 1
    at_most unclosed h = omega arith
    at_most parting h = omega arith
    at_most hanging_up h = h
    at_most closed h = h
