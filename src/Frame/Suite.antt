-- ===== src/Frame/Suite.antt =====
-- The unit tests of src/frame.rs, each as what it asserts.
use redlike.Prelude.{◌≡◌, refl, none, some, codes, pos, negsuc}
use redlike.Text.Decimal.{print_usize, print_i64}
use redlike.Frame.{
  simple_string, simple_error, bulk, integer, array, nil_array, nil, cons, to_bytes,
}

abbrev ToSimpleString : Type 0
ToSimpleString = to_bytes (simple_string (codes "Hello")) ≡ codes "+Hello\r\n"

abbrev ToSimpleError : Type 0
ToSimpleError = to_bytes (simple_error (codes "Error")) ≡ codes "-Error\r\n"

abbrev BulkSome : Type 0
BulkSome = to_bytes (bulk (some (codes "test"))) ≡ codes "$4\r\ntest\r\n"

abbrev BulkNil : Type 0
BulkNil = to_bytes (bulk none) ≡ codes "$-1\r\n"

abbrev PositiveInteger : Type 0
PositiveInteger = to_bytes (integer (pos 12345)) ≡ codes ":12345\r\n"

abbrev NegativeInteger : Type 0
NegativeInteger = to_bytes (integer (negsuc 12344)) ≡ codes ":-12345\r\n"

abbrev NilArray : Type 0
NilArray = to_bytes (nil_array) ≡ codes "*-1\r\n"

abbrev ZeroLengthArray : Type 0
ZeroLengthArray = to_bytes (array nil) ≡ codes "*0\r\n"

abbrev SomeArray : Type 0
SomeArray =
    to_bytes (array (cons (bulk (some (codes "hello"))) (cons (integer (pos 12345)) nil)))
    ≡ codes "*2\r\n$5\r\nhello\r\n:12345\r\n"

all_pass :
    ToSimpleString × ToSimpleError × BulkSome × BulkNil × PositiveInteger × NegativeInteger
    × NilArray × ZeroLengthArray × SomeArray
unfolding to_bytes print_usize print_i64
all_pass = (refl, refl, refl, refl, refl, refl, refl, refl, refl)
