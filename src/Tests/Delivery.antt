-- ===== src/Tests/Delivery.antt =====
-- Two packets and a deadline, from the wire to the application.
use tansiv.Base.{refl, false, none, List, [], ◌∷◌}
use tansiv.Base.Int.{pos}
use tansiv.Error.{IoError}
use tansiv.OutputMsgSet.{new}
use tansiv.Context.{Context, OutputMsg, next_deadline}
use tansiv.Context.Application.{Packet}
use tansiv.Context.Run.InputSteps.{Input}
use tansiv.Tests.Fixtures.{flatbuffers, queue, vm_timer}
use tansiv.Tests.Wire.{tagged_codec}

abbrev packets : List Packet
packets =
    record { src = 5; dst = 6; payload = 8 ∷ 9 ∷ [] }
    ∷ record { src = 7; dst = 6; payload = [] }
    ∷ []

-- The packets, the deadline, and the first byte of another message.
abbrev pub context : Context tagged_codec flatbuffers queue vm_timer
context = record {
  address = 11;
  reader = record {
    bytes =
        5 ∷ 0 ∷ 0 ∷ 0 ∷ 8 ∷ 5 ∷ 6 ∷ 8 ∷ 9 ∷ 3 ∷ 0 ∷ 0 ∷ 0 ∷ 8 ∷ 7 ∷ 6 ∷ 3 ∷ 0 ∷ 0 ∷ 0 ∷ 3 ∷ 2 ∷ 70
        ∷ 1 ∷ [];
    at_end = IoError.unexpected_eof;
  };
  writer = record { outcome = λ n. none; attempts = 0; sent = [] };
  input_buffer_pool = record {
    buffer_size = 5;
    num_buffers = 3;
    buffers = 0 ∷ 0 ∷ 0 ∷ 0 ∷ 0 ∷ 0 ∷ 0 ∷ 0 ∷ 0 ∷ 0 ∷ 0 ∷ 0 ∷ 0 ∷ 0 ∷ 0 ∷ [];
    buffer_busy = λ i. false;
  };
  input_queue = record { held = []; limit = 3 };
  timer_context = (
    record {
      context = none;
      offset = pos 60;
      prev_deadline = 100;
      next_deadline = 200;
      references = 2;
    },
    190,
  );
  output_buffer_pool = record {
    buffer_size = 8;
    num_buffers = 2;
    buffers = λ i. 8;
    buffer_busy = λ i. false;
  };
  outgoing_messages = new (OutputMsg tagged_codec flatbuffers queue vm_timer) 2;
  upcoming_messages = [];
  started = false;
  recv_calls = 0;
  deadline_calls = [];
}

pub account : Input tagged_codec flatbuffers queue vm_timer context
account = record { account = record { owned = λ i. refl; within = λ i h. cc }; size = refl }
