-- ===== src/Frame/Laws.antt =====
-- Writing appends: what `write_to` adds does not depend on the buffer.
use redlike.Prelude.{
  ◌≡◌, refl, sym, ap, none, some, List, [], ◌∷◌, ◌++◌, append-nil, append_assoc, length, Bytes,
}
use redlike.Text.Decimal.{print_usize}
use redlike.Frame.{
  Frame, Frames, simple_string, simple_error, bulk, integer, array, nil_array, nil, cons, to_frames,
  from_frames, crlf, write_to, write_all, to_bytes,
}

-- The elements of an array, one after the other.
unfoldable pub all_bytes : Frames → Bytes
all_bytes nil = []
all_bytes (cons f fs) = to_bytes f ++ all_bytes fs

mutual
  unfolding write_to to_bytes all_bytes

  append-to : (f : Frame) (buf : Bytes) → write_to f buf ≡ buf ++ to_bytes f
  append-to (simple_string inner) buf = simp append_assoc
  append-to (simple_error inner) buf = simp append_assoc
  append-to (bulk (some inner)) buf = simp append_assoc
  append-to (bulk none) buf = refl
  append-to (integer inner) buf = simp append_assoc
  append-to (array inner) buf = simp (append-all inner, append_assoc)
  append-to nil_array buf = refl

  append-all : (fs : Frames) (buf : Bytes) → write_all fs buf ≡ buf ++ all_bytes fs
  append-all nil buf = sym (append-nil buf)
  append-all (cons f fs) buf = simp (append-all fs, append-to f buf, append_assoc)

pub from-to_frames : (fs : List Frame) → from_frames (to_frames fs) ≡ fs
from-to_frames [] = refl
from-to_frames (f ∷ fs) = ap (λ l. f ∷ l) (from-to_frames fs)

pub to-from_frames : (fs : Frames) → to_frames (from_frames fs) ≡ fs
to-from_frames nil = refl
to-from_frames (cons f fs) = ap (cons f) (to-from_frames fs)

-- An array is written as its header and then its elements.
pub to_bytes-array :
    (fs : Frames)
    → to_bytes (array fs) ≡ b'*' ∷ (print_usize (length (from_frames fs)) ++ (crlf ++ all_bytes fs))
unfolding to_bytes
to_bytes-array fs = simp (append-all fs, append_assoc)
