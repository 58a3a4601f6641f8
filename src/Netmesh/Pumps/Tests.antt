-- ===== src/Netmesh/Pumps/Tests.antt =====
-- One frame on its way over a connection of internal/netmesh, and the end of the connection.
use clippy.Base.{◌≤◌, ◌≡◌, refl, true, false, List, [], ◌∷◌, ◌++◌, arith, length, All}
use clippy.Base.Bytes.{Bytes, codes}
use clippy.Netmesh.Delivery.{Link, enqueue, ready_cases, pick}
use clippy.Netmesh.Pumps.{
  binary, reading, copied, in_handler, waiting, writing, parting, Pumps, start_pumps, Label, silent,
  outside, accepts, handles, writes, hears, takes, pops, writes_message, hears_frame, calls_handler,
  handler_returns, other_closes, context_ends, Run, fresh, next,
}
use clippy.Netmesh.Pumps.Order.{accepted, written, heard, handled, frames}
use clippy.Netmesh.Pumps.Across.{IsPrefix, IsDrained, frames_across}
use clippy.Netmesh.Pumps.Ending.{Own, called_off, IsOver, connection_ends}

abbrev frame : Bytes
frame = codes "frame"

abbrev begun : Pumps
begun = start_pumps 1 8

abbrev link_taken : Link
link_taken = (enqueue 1 false 0 begun.link frame).0

abbrev took : Pumps
took = record begun { link = link_taken }

abbrev popped : Pumps
popped = record took { link = record took.link { queue = [] }; writer = writing (binary frame) }

abbrev wrote : Pumps
wrote = record popped { writer = waiting }

abbrev sender_shown : List Label
sender_shown = accepts frame ∷ silent ∷ writes (binary frame) ∷ []

writing_run : Run 1 8 (accepts frame ∷ silent ∷ []) popped
unfolding start_pumps enqueue ready_cases pick
writing_run = next (next fresh (takes false 0 frame refl)) (pops frame [] refl refl)

sender : Run 1 8 sender_shown wrote
unfolding start_pumps
sender = next writing_run (writes_message (binary frame) refl (λ e. cc))

abbrev read : Pumps
read = record begun { reader = copied frame }

abbrev called : Pumps
called = record read { reader = in_handler }

abbrev returned : Pumps
returned = record called { reader = reading }

abbrev receiver_shown : List Label
receiver_shown = hears (binary frame) ∷ handles frame ∷ silent ∷ []

receiver : Run 1 8 receiver_shown returned
unfolding start_pumps
receiver =
    next (next (next fresh (hears_frame frame refl (omega arith))) (calls_handler frame refl))
      (handler_returns refl)

-- `writePump` writes a frame, and whoever calls `close` is about to write the close message.
two_writers :
    Run 1 8
      (accepts frame ∷ silent ∷ outside ∷ [])
      (record popped { link = record popped.link { cancelled = true }; closer = parting })
unfolding start_pumps
two_writers = next writing_run (other_closes refl)

on_the_wire : IsPrefix (frames heard receiver_shown) (frames written sender_shown)
unfolding frames
on_the_wire = ([], refl)

across_example :
    IsPrefix (frames handled receiver_shown) (frames accepted sender_shown)
    × All (λ f. length f ≤ returned.max_frame_bytes) (frames heard receiver_shown)
    × (IsDrained wrote
        → returned.reader ≡ reading
        → frames heard receiver_shown ≡ frames written sender_shown
        → frames handled receiver_shown ≡ frames accepted sender_shown)
across_example =
    frames_across 1 8 sender_shown wrote sender 1 8 receiver_shown returned receiver on_the_wire

-- The context of the connection ends after the write of the frame.
abbrev ending : Pumps
ending = record wrote { link = record wrote.link { cancelled = true } }

ending_run : Run 1 8 (sender_shown ++ outside ∷ []) ending
ending_run = next sender context_ends

comes_to_its_end : (s' : Pumps) × Own ending s' × IsOver s'
comes_to_its_end =
    (connection_ends 1 8 (sender_shown ++ outside ∷ []) ending ending_run).0 (called_off refl)
