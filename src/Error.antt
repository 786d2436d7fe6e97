-- ===== src/Error.antt =====
-- error.rs: the errors of the client library, and the conversions into them (error.rs, lib.rs).
-- An `io::Error` is known by its kind.

-- The kinds of `std::io::ErrorKind` that the code makes or meets.
pub data IoError : Type 0 where
  invalid_data invalid_input unexpected_eof other os_error : IoError

pub data Error : Type 0 where
  already_started no_memory_available no_message_available protocol_violation size_too_big : Error
  io_error : IoError → Error

-- `buffer_pool::Error`
pub data PoolError : Type 0 where
  no_buffer_available size_too_big : PoolError

-- `output_msg_set::Error`
pub data SetError : Type 0 where
  no_slot_available : SetError

-- `From<buffer_pool::Error>`
unfoldable pub from_pool_error : PoolError → Error
from_pool_error no_buffer_available = no_memory_available
from_pool_error PoolError.size_too_big = Error.size_too_big

-- `From<output_msg_set::Error>`
unfoldable pub from_set_error : SetError → Error
from_set_error no_slot_available = no_memory_available

-- `From<io::Error>`
unfoldable pub from_io_error : IoError → Error
from_io_error e = io_error e
