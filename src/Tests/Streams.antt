-- ===== src/Tests/Streams.antt =====
-- The connector at concrete inputs: a packet of two bytes, and a deadline, are in the stream.
use tansiv.Base.{◌+◌, ◌≤◌, ◌==◌, refl, true, [], ◌∷◌, length}
use tansiv.Error.{IoError}
use tansiv.BufferPool.{deref, deref_mut}
use tansiv.BufferPool.Bytes.{bytes}
use tansiv.BufferPool.Bytes
use tansiv.BufferPool.{allocate_buffer, allocate_from}
use tansiv.Connector.{
  Pool, Handle, Reader, MsgIn, recv, read_prefixed_size, read_exact, allocate, recv_into, decode,
  new_deliver_packet,
}
use tansiv.Connector.Recv.{Accounts, recv-Accounts}
use tansiv.Connector.Stream.{recv-consumes}
use tansiv.Tests.Fixtures.{codec}

abbrev pub pool : Pool
pool = record {
  buffer_size = 4;
  num_buffers = 2;
  buffers = 0 ∷ 0 ∷ 0 ∷ 0 ∷ 0 ∷ 0 ∷ 0 ∷ 0 ∷ [];
  buffer_busy = λ i. i == 0;
}

abbrev pub two_messages : Reader
two_messages = record {
  bytes = 3 ∷ 0 ∷ 0 ∷ 0 ∷ 0 ∷ 8 ∷ 9 ∷ 1 ∷ 0 ∷ 0 ∷ 0 ∷ 1 ∷ [];
  at_end = IoError.unexpected_eof;
}

recv-Accounts_example :
    Accounts codec pool (recv codec two_messages pool).0 (recv codec two_messages pool).2
recv-Accounts_example = recv-Accounts codec two_messages pool

abbrev second : Handle
second = record { index = 1; inner = record { size = 3 } }

recv-consumes_example : length (recv codec two_messages pool).1.bytes + 4 ≤ 12
unfolding recv read_prefixed_size read_exact allocate allocate_buffer allocate_from recv_into decode
    new_deliver_packet deref deref_mut Bytes.new Bytes.get Bytes.get_mut Bytes.reset
recv-consumes_example = recv-consumes codec two_messages pool {m = MsgIn.deliver_packet second} refl

-- The pool once the packet is in its buffer.
abbrev pub filled : Pool
filled = record pool { buffers = 0 ∷ 0 ∷ 0 ∷ 0 ∷ 0 ∷ 8 ∷ 9 ∷ 0 ∷ []; buffer_busy = λ i. true }
