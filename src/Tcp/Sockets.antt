-- ===== src/Tcp/Sockets.antt =====
-- A connected socket: SocketHandle with the streams of its two directions.
use mcpd.Base.{Bool, false}
use mcpd.Wire.Act.{Act, on}
use mcpd.Tcp.Streams.{Stream}

-- `valid` is whether the handle has a file descriptor.
pub record Socket : Type 0 where
  pub valid : Bool
  pub incoming : Stream
  pub outgoing : Stream

abbrev pub with_incoming : Socket → Stream → Socket
with_incoming socket s = record socket { incoming = s }

abbrev pub with_outgoing : Socket → Stream → Socket
with_outgoing socket s = record socket { outgoing = s }

abbrev pub receiving : {A : Type 0} → Act Stream A → Act Socket A
receiving = on (λ socket. socket.incoming) with_incoming

abbrev pub sending : {A : Type 0} → Act Stream A → Act Socket A
sending = on (λ socket. socket.outgoing) with_outgoing

-- SocketHandle::reset: the descriptor is closed.
unfoldable pub close : Socket → Socket
close socket = record socket { valid = false }
