-- ===== src/Netmesh/Pumps.antt =====
-- internal/netmesh/connection.go: the goroutines `readPump` and `writePump` of one connection, the
-- callers of `enqueue`, and whoever calls `close`, as a step relation.
pub mod Order
pub mod Across
pub mod Consistent
pub mod Ending
pub mod Tests
use clippy.Base.{
  ℕ, ◌≤◌, ◌≡◌, ◌≢◌, Bool, true, false, Option, none, some, List, [], ◌∷◌, ◌++◌, length,
}
use clippy.Base.Bytes.{Bytes}
use clippy.Netmesh.Delivery.{SendError, Link, enqueue}

-- A message on the websocket.
pub data Message : Type 0 where
  binary text_message : Bytes → Message
  ping goodbye : Message

-- The deferred calls of a pump: before `handleConnectionClosed`, before `close`, and behind it.
pub data Exit : Type 0 where
  detaching closing gone : Exit

-- `readPump`: in `ReadMessage`, before `HandleFrame` with a copy, in `HandleFrame`, or leaving.
pub data Reader : Type 0 where
  reading in_handler : Reader
  copied : Bytes → Reader
  reader_leaves : Exit → Reader

-- `writePump`: in its `select`, in `write`, or leaving.
pub data Writer : Type 0 where
  waiting : Writer
  writing : Message → Writer
  writer_leaves : Exit → Writer

-- The body of `closeOnce.Do`: not begun, before its `write`, before `ws.Close`, or done.
pub data Closer : Type 0 where
  unclosed parting hanging_up closed : Closer

-- A connection that `start` has been called on.
pub record Pumps : Type 0 where
  pub size : ℕ
  pub max_frame_bytes : ℕ
  pub link : Link
  pub reader : Reader
  pub writer : Writer
  pub closer : Closer

unfoldable pub start_pumps : ℕ → ℕ → Pumps
start_pumps size max_frame_bytes = record {
  size = size;
  max_frame_bytes = max_frame_bytes;
  link = record { cancelled = false; queue = [] };
  reader = reading;
  writer = waiting;
  closer = unclosed;
}

-- What a step shows: `enqueue` takes a frame, `WriteMessage` succeeds, `ReadMessage` succeeds,
-- `HandleFrame` is called, or `handleConnectionClosed` is; a pump breaks off at an error of the
-- socket or of the handler; or something outside the pumps ends the connection.
pub data Label : Type 0 where
  silent reports breaks outside : Label
  accepts handles : Bytes → Label
  writes hears : Message → Label

abbrev pub is_binary : Message → Bool
is_binary (binary f) = true
is_binary _ = false

-- What the body of `closeOnce.Do` begins with.
abbrev cancel_and_part : Pumps → Pumps
cancel_and_part s = record s { link = record s.link { cancelled = true }; closer = parting }

-- A `select` takes any of its ready cases. A call on the socket may fail at any time; a write fails
-- once `ws.Close` has returned, and a read may still return what was received before. Each pump
-- calls `close` when it leaves, behind `handleConnectionClosed`, and returns when `close` has
-- returned: the first caller has done the body then, and a second one has waited for the first in
-- `closeOnce.Do`. From outside, `shutdown` calls `close`, and so does a goroutine for the connection
-- that a new one supersedes.
pub data Step (s : Pumps) : Label → Pumps → Type 0 where
  takes :
      (ended : Bool) (choice : ℕ) (frame : Bytes)
      → (enqueue s.size ended choice s.link frame).1 ≡ none
      → Step s (accepts frame) (record s { link = (enqueue s.size ended choice s.link frame).0 })
  refuses :
      (ended : Bool) (choice : ℕ) (frame : Bytes) (e : SendError)
      → (enqueue s.size ended choice s.link frame).1 ≡ some e
      → Step s silent (record s { link = (enqueue s.size ended choice s.link frame).0 })
  -- The context of the manager ends.
  context_ends : Step s outside (record s { link = record s.link { cancelled = true } })
  pops :
      (frame : Bytes) (rest : List Bytes)
      → s.writer ≡ waiting
      → s.link.queue ≡ frame ∷ rest
      → Step s silent
          (record s { link = record s.link { queue = rest }; writer = writing (binary frame) })
  ticks : s.writer ≡ waiting → Step s silent (record s { writer = writing ping })
  writes_message :
      (m : Message)
      → s.writer ≡ writing m
      → s.closer ≢ closed
      → Step s (writes m) (record s { writer = waiting })
  write_fails :
      (m : Message)
      → s.writer ≡ writing m
      → Step s breaks (record s { writer = writer_leaves detaching })
  writer_stops :
      s.writer ≡ waiting
      → s.link.cancelled ≡ true
      → Step s silent (record s { writer = writer_leaves detaching })
  hears_frame :
      (frame : Bytes)
      → s.reader ≡ reading
      → length frame ≤ s.max_frame_bytes
      → Step s (hears (binary frame)) (record s { reader = copied frame })
  hears_other : (m : Message) → s.reader ≡ reading → is_binary m ≡ false → Step s (hears m) s
  read_fails : s.reader ≡ reading → Step s breaks (record s { reader = reader_leaves detaching })
  calls_handler :
      (frame : Bytes)
      → s.reader ≡ copied frame
      → Step s (handles frame) (record s { reader = in_handler })
  handler_returns : s.reader ≡ in_handler → Step s silent (record s { reader = reading })
  handler_fails :
      s.reader ≡ in_handler → Step s breaks (record s { reader = reader_leaves detaching })
  reader_detaches :
      s.reader ≡ reader_leaves detaching
      → Step s reports (record s { reader = reader_leaves closing })
  writer_detaches :
      s.writer ≡ writer_leaves detaching
      → Step s reports (record s { writer = writer_leaves closing })
  reader_closes :
      s.reader ≡ reader_leaves closing → s.closer ≡ unclosed → Step s silent (cancel_and_part s)
  writer_closes :
      s.writer ≡ writer_leaves closing → s.closer ≡ unclosed → Step s silent (cancel_and_part s)
  other_closes : s.closer ≡ unclosed → Step s outside (cancel_and_part s)
  parts : s.closer ≡ parting → Step s (writes goodbye) (record s { closer = hanging_up })
  parting_fails : s.closer ≡ parting → Step s silent (record s { closer = hanging_up })
  hangs_up : s.closer ≡ hanging_up → Step s silent (record s { closer = closed })
  reader_ends :
      s.reader ≡ reader_leaves closing
      → s.closer ≡ closed
      → Step s silent (record s { reader = reader_leaves gone })
  writer_ends :
      s.writer ≡ writer_leaves closing
      → s.closer ≡ closed
      → Step s silent (record s { writer = writer_leaves gone })

-- The steps of a connection, with what they show, oldest first.
pub data Run (size max_frame_bytes : ℕ) : List Label → Pumps → Type 0 where
  fresh : Run size max_frame_bytes [] (start_pumps size max_frame_bytes)
  next :
      {shown : List Label} {s s' : Pumps} {l : Label}
      → Run size max_frame_bytes shown s
      → Step s l s'
      → Run size max_frame_bytes (shown ++ l ∷ []) s'
