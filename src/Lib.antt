-- ===== src/Lib.antt =====
-- mcpd4 is a distributed solver of minimum cuts. A coordinator splits a graph into partitions, sends each as
-- a package to a worker over TCP, and then exchanges rounds with the workers: a request carries the alphas
-- (prices) of a partition's constraints, a result carries a bound and the labels that the worker found. This
-- library models the messages, their stateful encoding and the loops that move them.
--
-- * Base has the names that all files share, lists over the built-in numbers, C++ signed integers as integers
--   with their ranges and two's complement patterns (Base/Int), shifts and masks as arithmetic (Base/Bits), and
--   what it means that a text has a part (Base/Search).
-- * Wire models the class Writer and the class Reader of src/protocol.cpp. An action takes the bytes that were
--   written, or that are left to read, and gives a result and the new bytes, or the exception that is thrown: one
--   constructor of Error for each message. `Reads write read a size` of Wire/Reads says that `read` gives `a`
--   back from what `write` wrote, with one rule for each way in which messages are built.
-- * Protocol models the rest of src/protocol.cpp and include/mcpd4/protocol.h: framing (Framing: encodeFrame,
--   decodeFrame and the view), hello, ready, scale, stop and error (Handshake), solve rounds and alpha updates
--   (Solve), the partition package with its two layouts (Package: encodePartitionPackage,
--   decodePartitionPackage, expandCompactArcCapacities) and the buffers that are sent in place of an encoded package
--   (Buffers: PartitionPackageFrameBuffers). RoundTrip has the theorems.
-- * Delta models src/delta_codec.cpp and include/mcpd4/delta_codec.h: varints and zig-zag integers (Varint), the
--   baselines (State: TemporalSolveCodecState), alpha updates (Alphas), labels (Labels) and the encoders and
--   decoders (Messages). The baselines are passed explicitly and survive a call that throws. Mirror has the
--   theorems: the two ends of a connection keep the same baselines.
-- * Tcp models the framing side of src/tcp.cpp and include/mcpd4/tcp.h: writeAll, writeAllBuffers and readAll over
--   a list of what the operating system answers (Streams), a socket with its two streams (Sockets), sendFrameBytes
--   and sendFrameByteBuffers (Transport) and receiveFrameBytes (Receive). Delivery and Views have the theorems about
--   the loops, RoundTrip and Envelopes those about whole frames, and Channels treats both modes at once.
-- * Runtime models src/runtime.cpp and include/mcpd4/runtime.h as actions on a state (Wire/Act) that survives a
--   throw: the byte counters (Stats), frames and packages that are read straight from the socket (Direct, Packages),
--   the state of TcpPartitionWorker with the checks of a greeting (Sessions), its calls (Coordinator), and
--   runWorkerClient (Worker: its state, Loop: its handlers). Systems puts the two ends together: what one has
--   sent arrives at the other. A call of the coordinator that waits is cut in two where it waits.
-- * Coordinator models parts of src/coordinator_main.cpp: Config and parseArgs (Arguments), and the scaling of
--   capacities (Scale), and a field of a telemetry row and the sums of byte counters (Telemetry).
-- The modules named Examples apply the theorems to concrete messages.
--
-- Bounds. int is 32-bit, long and std::size_t are 64-bit and the host is little-endian, as the package buffers
-- of the sources require; the branches for other hosts are not modelled. A float is its 32-bit pattern. The loop of
-- writeVarU64 is recursion on a value that gets smaller, the loop of readVarU64 has the ten rounds of the
-- sources, and the loops over a socket follow the list of answers. A std::unordered_map is a function; the
-- code never walks over one.
--
-- The worker's loop has one round for each entry of a list of measured times. A text is the list of its bytes;
-- the text of each exception is what `what` gives (Wire/Errors), since the worker's loop looks into it.
--
-- Structs of the mcpd3 library that the messages carry are records of the fields that the sources use; their
-- default-constructed values are parameters, and so are the solver behind a worker (a record of calls that may
-- throw), the snappy library and the measured times. The status hooks are a log. Not modelled: discovery and status,
-- the main files of the other programs, the other telemetry of the coordinator, what is printed, and the opening and
-- closing of sockets.
pub mod Base
pub mod Wire
pub mod Protocol
pub mod Delta
pub mod Tcp
pub mod Runtime
pub mod Coordinator
