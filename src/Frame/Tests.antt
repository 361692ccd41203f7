-- ===== src/Frame/Tests.antt =====
-- Frames written out, as in the unit tests of src/frame.rs.
use redlike.Prelude.{◌≡◌, refl, none, codes, pos}
use redlike.Text.Decimal.{print_usize, print_i64}
use redlike.Frame.{Frame, bulk, integer, array, nil_array, nil, cons, to_bytes}

abbrev numbers : Frame
numbers = array (cons (integer (pos 12345)) (cons (bulk none) (cons nil_array nil)))

numbers-written : to_bytes numbers ≡ codes "*3\r\n:12345\r\n$-1\r\n*-1\r\n"
unfolding to_bytes print_usize print_i64
numbers-written = refl
