-- ===== src/Lib.antt =====
-- The tansiv client: a library that ties a process or a virtual machine to a network simulation. Time
-- is cut in slices. Within a slice the application sends messages, which are stored; when the deadline
-- of the slice is reached, the handler sends them to the actor that stands for this client in the
-- simulator, says that the deadline is reached, and receives packets and the next deadline.
--
-- - Base: shared numbers, lists, results; Error: client/tansiv-client/src/error.rs; Duration: the
--   standard library's durations and chrono's, as numbers of nanoseconds.
-- - BufferPool: buffer_pool.rs with its two kinds of buffers, bytes_buffer.rs (BufferPool.Bytes) and
--   flatbuilder_buffer.rs (BufferPool.Builders), all in client/tansiv-client/src. BufferPool.Threads: the
--   shared accesses of a pool of builders, interleaved.
-- - OutputMsgSet: output_msg_set.rs, each operation alone; OutputMsgSet.Threads: its shared accesses,
--   interleaved. SeqLock: rust-deps/seq_lock/src/lib.rs, interleaved.
-- - LibcTimer: rust-deps/libc_timer/src/lib.rs. Timer: timer/process.rs, timer/qemu/mod.rs and
--   timer/qemukvm/mod.rs, and the interface (Timer.Interface) through which the context uses them.
-- - InputQueue: waitfree_array_queue.rs. Connector: connector/mod.rs and connector/unix.rs;
--   Connector.Wire: the side of the actor, as the test helpers of connector/mod.rs have it, and
--   (Connector.Wire.Frames) the bytes of the client's messages.
-- - Context: lib.rs. A context is a record that every operation takes and returns; the sections of
--   these modules take the codec, the builders, the queue and the timer as parameters. Context.Setup:
--   how a context is made, with config.rs; Context.Run: sequences of operations; Context.Handlers: the
--   deadline handlers of the files in timer.
-- - TestActor: the actor of the test helpers in connector/unix.rs and lib.rs, and its scripts, against
--   the stream of a client (TestActor.Client, TestActor.Sessions: both together, with the notifier of
--   deadlines);
--   TestActor.Unix: its run, its exit code, and the scripts of the tests of connector/unix.rs.
-- - VsgAddress: vsg_address.rs. CApi: client/capi/src/lib.rs; CApi.Lifetime: the references to a context
--   and to the timer of a virtual machine, from vsg_init to vsg_cleanup; CApi.Compare: how its tests look
--   at arguments. Tests: the theorems at concrete inputs.
--
-- A function of the source that can fail returns a Result, in which `panicked` is a panic. The state
-- beside a panic is not meant to be used. Code of other packages is a parameter: the C library (Sys),
-- Qemu, the KVM device, f64 (Float), crossbeam's queue (ArrayQueue, with its documented laws), the
-- flatbuffers crate and the code generated from wire/packets.fbs (Codec, Flatbuffers, Encoder,
-- Sender), the parsers of command lines and addresses, and chrono's calendar (Chrono).
--
-- Fuel: a drain takes a slot in each turn but the last, so one turn more than there are slots is
-- enough; the loop that receives takes bytes of the stream in each turn but the last, so one turn more
-- than there are bytes is enough, and it is shown that the fuel does not end. The scripts of the test
-- actor that wait for a message are given their fuel by the same count; that it does not end is shown of
-- `recv_one_msg_actor` only. The iterator of the arguments gives at most as many as there are. The wait of
-- `stop` and the slices of a delayed message take their fuel as an argument, and say so when it is not
-- enough.
--
-- Not modelled: logging and Display; what the drop of a context does beside that of its reference to the
-- timer; the registration of signal handlers with the system; the fork and the socket of the test actor.
-- A stream is finitely many bytes and then an error: a peer that stays silent, on which a read blocks, or
-- that never stops writing, is not represented.
-- Memory is sequentially consistent in the interleaved models, and the words of a SeqLock's value are
-- two.
pub mod Base
pub mod Error
pub mod BufferPool
pub mod OutputMsgSet
pub mod SeqLock
pub mod Duration
pub mod LibcTimer
pub mod Timer
pub mod InputQueue
pub mod Connector
pub mod Context
pub mod TestActor
pub mod VsgAddress
pub mod CApi
pub mod Tests
