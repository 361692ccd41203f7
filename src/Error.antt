-- ===== src/Error.antt =====
-- src/error.rs: what can go wrong while a command is read, and what other errors become.
use redlike.Prelude.{ℕ, Bytes}
use redlike.Parser.{ParseError}

-- The kinds of `std::io::Error` that the code tells apart.
pub data IoError : Type 0 where
  not_found other : IoError

pub data Error : Type 0 where
  io : IoError → Error
  wrong_arity : Bytes → ℕ → ℕ → Error
  unknown_command invalid_command_frame wrong_argument_type : Error

-- `impl From<tokio::io::Error> for Error`
unfoldable pub from_io_error : IoError → Error
from_io_error value = io value

-- `impl From<ParseError> for Error`
unfoldable pub from_parse_error : ParseError → Error
from_parse_error _ = invalid_command_frame
