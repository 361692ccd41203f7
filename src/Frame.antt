-- ===== src/Frame.antt =====
-- src/frame.rs: the values of the protocol, and how they are written.
mod Tests
pub mod Suite
pub mod Laws
pub mod Sendable
use redlike.Prelude.{
  ℕ, zero, suc, ◌+◌, ◌≡◌, refl, Option, none, some, List, [], ◌∷◌, ◌++◌, length, Bytes, codes, ℤ,
  pos, negsuc,
}
use redlike.Text.Decimal.{print_usize, print_i64}

-- A `String` is its bytes; `Array(Some(_))` and `Array(None)` are two constructors.
mutual
  pub data Frame : Type 0 where
    simple_string : Bytes → Frame
    simple_error : Bytes → Frame
    bulk : Option Bytes → Frame
    integer : ℤ → Frame
    array : Frames → Frame
    nil_array : Frame

  -- `Vec<Frame>` inside an array.
  pub data Frames : Type 0 where
    nil : Frames
    cons : Frame → Frames → Frames

-- A `Vec<Frame>` outside a frame is a library list.
abbrev pub to_frames : List Frame → Frames
to_frames [] = nil
to_frames (f ∷ fs) = cons f (to_frames fs)

abbrev pub from_frames : Frames → List Frame
from_frames nil = []
from_frames (cons f fs) = f ∷ from_frames fs

abbrev pub crlf : Bytes
crlf = b'\r' ∷ b'\n' ∷ []

-- `buf.extend_from_slice`, one after the other.
unfoldable mutual
  pub write_to : Frame → Bytes → Bytes
  write_to (simple_string inner) buf = ((buf ++ codes "+") ++ inner) ++ crlf
  write_to (simple_error inner) buf = ((buf ++ codes "-") ++ inner) ++ crlf
  write_to (bulk (some inner)) buf =
      ((((buf ++ codes "$") ++ print_usize (length inner)) ++ crlf) ++ inner) ++ crlf
  write_to (bulk none) buf = buf ++ (codes "$-1" ++ crlf)
  write_to (integer inner) buf = ((buf ++ codes ":") ++ print_i64 inner) ++ crlf
  write_to (array inner) buf =
      write_all inner (((buf ++ codes "*") ++ print_usize (length (from_frames inner))) ++ crlf)
  write_to nil_array buf = buf ++ (codes "*-1" ++ crlf)

  -- `for element in inner { element.write_to(buf); }`
  pub write_all : Frames → Bytes → Bytes
  write_all nil buf = buf
  write_all (cons element rest) buf = write_all rest (write_to element buf)

unfoldable pub to_bytes : Frame → Bytes
unfolding write_to
to_bytes f = write_to f []
