-- ===== src/Parser/Headers.antt =====
-- What the turns of the parser make of a frame's parts as `Frame::to_bytes` writes them.
use redlike.Prelude.{
  ℕ, suc, ◌+◌, ◌≤◌, ◌<◌, ◌≡◌, refl, true, some, List, [], ◌∷◌, ◌++◌, arith, length, drop,
  take-length, drop-length, length-append, get_elem?-length, get_elem?-length-suc, Bytes, All, ℤ,
  pos, IsI64, i64_max,
}
use redlike.Text.Utf8.{is_utf8, is_utf8-ascii}
use redlike.Text.Decimal.{parse_i64, print_i64, print_usize}
use redlike.Text.Decimal.RoundTrip.{
  IsPlain, print_usize-IsPlain, print_i64-IsPlain, parse_i64-print_i64, parse_i64-print_usize,
}
use redlike.Frame.{simple_string, simple_error, bulk, crlf}
use redlike.Frame.Sendable.{IsLine}
use redlike.Parser.{State, Parser, Level, ok, start, read_length}
use redlike.Parser.Turn.{found, simple_string_turn, simple_error_turn, bulk_string_turn}
use redlike.Parser.Lines.{find_crlf-line, find_crlf-plain}

-- A parser by its three fields.
abbrev pub at : State → Bytes → List Level → Parser
at s buf stack = record { state = s; buf = buf; stack = stack }

drop-line : (s rest : Bytes) → drop (length s + 2) (s ++ (crlf ++ rest)) ≡ rest
drop-line [] rest = refl
drop-line (c ∷ s) rest =
    let e : suc (length s) + 2 ≡ suc (length s + 2) = omega arith in rw e (drop-line s rest)

pub plain-is_utf8 : (s : Bytes) → All IsPlain s → is_utf8 s ≡ true
plain-is_utf8 s h = is_utf8-ascii s (ascii s h)
  where
    ascii : (s : Bytes) → All IsPlain s → All (λ b. b < 0x80) s
    ascii [] h = tt
    ascii (b ∷ s) (hb, hs) = (hb.1, ascii s hs)

module _ (s : State) (stack : List Level) where
  module _ (text rest : Bytes) (line : IsLine text) where
    pub simple_string_turn-line :
        simple_string_turn (at s (text ++ (crlf ++ rest)) stack)
        ≡ found (simple_string text) (at start rest stack)
    unfolding simple_string_turn
    simple_string_turn-line = ground (
      arith,
      find_crlf-line text rest line.1,
      take-length text (crlf ++ rest),
      drop-length text (crlf ++ rest),
      line.0,
    )

    pub simple_error_turn-line :
        simple_error_turn (at s (text ++ (crlf ++ rest)) stack)
        ≡ found (simple_error text) (at start rest stack)
    unfolding simple_error_turn
    simple_error_turn-line = ground (
      arith,
      find_crlf-line text rest line.1,
      take-length text (crlf ++ rest),
      drop-length text (crlf ++ rest),
      line.0,
    )

  read_length-line :
      (text rest : Bytes) (z : ℤ)
      → All IsPlain text
      → parse_i64 text ≡ some z
      → read_length (at s (text ++ (crlf ++ rest)) stack) ≡ (ok (some z), at s rest stack)
  unfolding read_length
  read_length-line text rest z plain e = ground (
    arith,
    find_crlf-line text rest (find_crlf-plain text plain),
    take-length text (crlf ++ rest),
    drop-line text rest,
    plain-is_utf8 text plain,
  )

  -- A printed integer is read as a length, and so is a printed count.
  pub read_length-print_i64 :
      (z : ℤ) (rest : Bytes)
      → IsI64 z
      → read_length (at s (print_i64 z ++ (crlf ++ rest)) stack) ≡ (ok (some z), at s rest stack)
  read_length-print_i64 z rest h =
      read_length-line (print_i64 z) rest z (print_i64-IsPlain z) (parse_i64-print_i64 z h)

  pub read_length-print_usize :
      (n : ℕ) (rest : Bytes)
      → n ≤ i64_max
      → read_length (at s (print_usize n ++ (crlf ++ rest)) stack)
        ≡ (ok (some (pos n)), at s rest stack)
  read_length-print_usize n rest h =
      read_length-line (print_usize n) rest (pos n) (print_usize-IsPlain n)
        (parse_i64-print_usize n h)

  pub bulk_string_turn-payload :
      (payload rest : Bytes)
      → bulk_string_turn (length payload) (at s (payload ++ (crlf ++ rest)) stack)
        ≡ found (bulk (some payload)) (at start rest stack)
  unfolding bulk_string_turn
  bulk_string_turn-payload payload rest = ground (
    arith,
    length-append payload (crlf ++ rest),
    get_elem?-length payload b'\r' (b'\n' ∷ rest),
    get_elem?-length-suc payload b'\r' b'\n' rest,
    take-length payload (crlf ++ rest),
    drop-length payload (crlf ++ rest),
  )
