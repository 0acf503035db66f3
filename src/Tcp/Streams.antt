-- ===== src/Tcp/Streams.antt =====
-- The loops around send, sendmsg and recv. What the operating system answers is a list of events; after
-- the last event a call moves no byte, as on a closed connection. A loop that throws leaves the stream as
-- it is then: the bytes that were sent are sent, those that were received are taken.
use mcpd.Base.{ℕ, zero, suc, ◌+◌, ◌-◌, ◌^◌, min, List, [], ◌∷◌, ◌++◌, length, take, drop}
use mcpd.Base.{ltb, leb, ◌==◌, if◌then◌else◌}
use mcpd.Protocol.{join_buffers}
use mcpd.Wire.{Bytes, Result, ok, err, write_failed, read_failed}
use mcpd.Wire.{closed_during_write, closed_during_read, buffers_too_large}
use mcpd.Wire.Act.{Act}

-- EINTR, another error with the text of its errno, or room (or data) for at most so many bytes.
pub data Event : Type 0 where
  interrupted : Event
  failed : Bytes → Event
  moves : ℕ → Event

-- The bytes that are on their way, and the events to come.
pub record Stream : Type 0 where
  pub events : List Event
  pub bytes : Bytes

abbrev pub stream : List Event → Bytes → Stream
stream events bytes = record { events = events; bytes = bytes }

-- writeAll: the stream's bytes are what has been sent.
unfoldable pub write_loop : List Event → Bytes → Bytes → Result (Unit {0}) × Stream
write_loop [] [] sent = (ok tt, stream [] sent)
write_loop [] (b ∷ data') sent = (err closed_during_write, stream [] sent)
write_loop (event ∷ events) [] sent = (ok tt, stream (event ∷ events) sent)
write_loop (interrupted ∷ events) (b ∷ data') sent = write_loop events (b ∷ data') sent
write_loop (failed errno ∷ events) (b ∷ data') sent = (err (write_failed errno), stream events sent)
write_loop (moves n ∷ events) (b ∷ data') sent =
    let moved = min n (length (b ∷ data')) in
    let rest = write_loop events (drop moved (b ∷ data')) (sent ++ take moved (b ∷ data')) in
    if moved == 0 then (err closed_during_write, stream events sent) else rest

unfoldable pub write_all : Bytes → Act Stream (Unit {0})
write_all data' s = write_loop s.events data' s.bytes

-- readAll: the stream's bytes are what can be received; `size` is what the caller still wants.
unfoldable pub read_loop : List Event → ℕ → Bytes → Bytes → Result Bytes × Stream
read_loop [] zero incoming got = (ok got, stream [] incoming)
read_loop [] (suc size) incoming got = (err closed_during_read, stream [] incoming)
read_loop (event ∷ events) zero incoming got = (ok got, stream (event ∷ events) incoming)
read_loop (interrupted ∷ events) (suc size) incoming got = read_loop events (suc size) incoming got
read_loop (failed errno ∷ events) (suc size) incoming got =
    (err (read_failed errno), stream events incoming)
read_loop (moves n ∷ events) (suc size) incoming got =
    let moved = min n (min (suc size) (length incoming)) in
    let rest =
      read_loop events (suc size - moved) (drop moved incoming) (got ++ take moved incoming) in
    if moved == 0 then (err closed_during_read, stream events incoming) else rest

unfoldable pub read_all : ℕ → Act Stream Bytes
read_all size s = read_loop s.events size s.bytes []

-- totalBufferSize. A view is its bytes, so a null view of a positive size does not occur.
unfoldable pub total_from : ℕ → List Bytes → Result ℕ
total_from total [] = ok total
total_from total (buffer ∷ buffers) =
    let rest = total_from (total + length buffer) buffers in
    if ltb (2 ^ 64 - 1 - total) (length buffer) then err buffers_too_large else rest

unfoldable pub total_buffer_size : List Bytes → Result ℕ
total_buffer_size buffers = total_from 0 buffers

unfoldable pub non_empty : List Bytes → List Bytes
non_empty [] = []
non_empty (buffer ∷ buffers) =
    let rest = non_empty buffers in if length buffer == 0 then rest else buffer ∷ rest

-- The inner loop of writeAllBuffers: the views that are left after `written` bytes.
unfoldable pub advance : ℕ → List Bytes → List Bytes
advance written [] = []
advance zero (view ∷ views) = view ∷ views
advance (suc written) (view ∷ views) =
    let rest = advance (suc written - length view) views in
    if leb (length view) (suc written) then rest else drop (suc written) view ∷ views

-- The outer loop: one sendmsg takes at most `iov_max` views.
unfoldable pub write_views : ℕ → List Event → List Bytes → Bytes → Result (Unit {0}) × Stream
write_views iov_max [] [] sent = (ok tt, stream [] sent)
write_views iov_max [] (view ∷ views) sent = (err closed_during_write, stream [] sent)
write_views iov_max (event ∷ events) [] sent = (ok tt, stream (event ∷ events) sent)
write_views iov_max (interrupted ∷ events) (view ∷ views) sent =
    write_views iov_max events (view ∷ views) sent
write_views iov_max (failed errno ∷ events) (view ∷ views) sent =
    (err (write_failed errno), stream events sent)
write_views iov_max (moves n ∷ events) (view ∷ views) sent =
    let batch = join_buffers (take iov_max (view ∷ views)) in
    let moved = min n (length batch) in
    let rest =
      write_views iov_max events (advance moved (view ∷ views)) (sent ++ take moved batch) in
    if moved == 0 then (err closed_during_write, stream events sent) else rest

unfoldable pub write_all_buffers : ℕ → List Bytes → Act Stream (Unit {0})
write_all_buffers iov_max buffers s = write_views iov_max s.events (non_empty buffers) s.bytes
