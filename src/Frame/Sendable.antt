-- ===== src/Frame/Sendable.antt =====
-- The frames that survive a trip over the wire: texts are UTF-8 without a line's end, and lengths fit.
use redlike.Prelude.{ℕ, ◌≤◌, ◌≡◌, true, none, some, length, Bytes, IsI64, i64_max}
use redlike.Text.Utf8.{is_utf8}
use redlike.Frame.{
  Frame, Frames, simple_string, simple_error, bulk, integer, array, nil_array, nil, cons,
  from_frames,
}
use redlike.Parser.{find_crlf}

-- What `String` guarantees, and what the protocol asks of a simple string.
abbrev pub IsLine : Bytes → Type 0
IsLine text = (is_utf8 text ≡ true) × (find_crlf text ≡ none)

-- `cap` is the largest array that the receiver can allot.
unfoldable mutual
  pub IsSendable : ℕ → Frame → Type 0
  IsSendable cap (simple_string text) = IsLine text
  IsSendable cap (simple_error text) = IsLine text
  IsSendable cap (bulk (some payload)) = length payload ≤ i64_max
  IsSendable cap (bulk none) = Unit
  IsSendable cap (integer z) = IsI64 z
  IsSendable cap (array fs) =
      (length (from_frames fs) ≤ i64_max) × (length (from_frames fs) ≤ cap) × AllSendable cap fs
  IsSendable cap nil_array = Unit

  pub AllSendable : ℕ → Frames → Type 0
  AllSendable cap nil = Unit
  AllSendable cap (cons f fs) = IsSendable cap f × AllSendable cap fs
