-- ===== src/Command/Suite/Refuses.antt =====
-- Frames that the unit tests of src/command.rs see refused.
use redlike.Prelude.{◌≡◌, refl, none, [], ◌∷◌, codes, pos}
use redlike.Text.Utf8.{is_utf8}
use redlike.Text.Decimal.{parse_u64}
use redlike.Frame
use redlike.Frame.{nil, cons, nil_array, integer}
use redlike.Command.{
  err, invalid_command_frame, unknown_command, wrong_argument_type, eq_ignore_ascii_case, try_from,
}
use redlike.Command.Suite.{bulk, array, AssertWrongArity}

abbrev NonArrayFrameIsInvalid : Type 0
NonArrayFrameIsInvalid = try_from (bulk (codes "GET")) ≡ err invalid_command_frame

abbrev NilArrayIsInvalid : Type 0
NilArrayIsInvalid = try_from (nil_array) ≡ err invalid_command_frame

abbrev EmptyArrayIsInvalid : Type 0
EmptyArrayIsInvalid = try_from (Frame.array nil) ≡ err invalid_command_frame

abbrev NonBulkElementIsInvalid : Type 0
NonBulkElementIsInvalid =
    try_from (Frame.array (cons (bulk (codes "GET")) (cons (integer (pos 1)) nil)))
    ≡ err invalid_command_frame

abbrev NilBulkElementIsInvalid : Type 0
NilBulkElementIsInvalid =
    try_from (Frame.array (cons (bulk (codes "GET")) (cons (Frame.bulk none) nil)))
    ≡ err invalid_command_frame

abbrev UnknownCommandReturnsUnknownCommand : Type 0
UnknownCommandReturnsUnknownCommand =
    try_from (array (codes "FOO" ∷ codes "bar" ∷ [])) ≡ err unknown_command

abbrev GetWithMissingKeyReturnsWrongArity : Type 0
GetWithMissingKeyReturnsWrongArity = AssertWrongArity (array (codes "GET" ∷ [])) (codes "GET") 0 1

abbrev PingWithExtraArgsReturnsWrongArity : Type 0
PingWithExtraArgsReturnsWrongArity =
    AssertWrongArity (array (codes "PING" ∷ codes "extra" ∷ [])) (codes "PING") 1 0

abbrev QuitWithExtraArgsReturnsWrongArity : Type 0
QuitWithExtraArgsReturnsWrongArity =
    AssertWrongArity (array (codes "QUIT" ∷ codes "extra" ∷ [])) (codes "QUIT") 1 0

abbrev GetWithExtraArgsReturnsWrongArity : Type 0
GetWithExtraArgsReturnsWrongArity =
    AssertWrongArity (array (codes "GET" ∷ codes "key" ∷ codes "extra" ∷ [])) (codes "GET") 2 1

abbrev SetWithMissingValueReturnsWrongArity : Type 0
SetWithMissingValueReturnsWrongArity =
    AssertWrongArity (array (codes "SET" ∷ codes "key" ∷ [])) (codes "SET") 1 2

abbrev SetWithExtraArgsReturnsWrongArity : Type 0
SetWithExtraArgsReturnsWrongArity =
    AssertWrongArity (array (codes "SET" ∷ codes "key" ∷ codes "value" ∷ codes "extra" ∷ []))
      (codes "SET") 3 2

abbrev DelWithMissingKeyReturnsWrongArity : Type 0
DelWithMissingKeyReturnsWrongArity = AssertWrongArity (array (codes "DEL" ∷ [])) (codes "DEL") 0 1

abbrev DelWithExtraArgsReturnsWrongArity : Type 0
DelWithExtraArgsReturnsWrongArity =
    AssertWrongArity (array (codes "DEL" ∷ codes "key" ∷ codes "extra" ∷ [])) (codes "DEL") 2 1

abbrev ExpireWithMissingTtlReturnsWrongArity : Type 0
ExpireWithMissingTtlReturnsWrongArity =
    AssertWrongArity (array (codes "EXPIRE" ∷ codes "key" ∷ [])) (codes "EXPIRE") 1 2

abbrev ExpireWithExtraArgsReturnsWrongArity : Type 0
ExpireWithExtraArgsReturnsWrongArity =
    AssertWrongArity (array (codes "EXPIRE" ∷ codes "key" ∷ codes "60" ∷ codes "extra" ∷ []))
      (codes "EXPIRE") 3 2

abbrev ExpireWithNonNumericTtlReturnsWrongArgumentType : Type 0
ExpireWithNonNumericTtlReturnsWrongArgumentType =
    try_from (array (codes "EXPIRE" ∷ codes "key" ∷ codes "not-a-number" ∷ []))
    ≡ err wrong_argument_type

abbrev ExpireWithNonUtf8TtlReturnsWrongArgumentType : Type 0
ExpireWithNonUtf8TtlReturnsWrongArgumentType =
    try_from (array (codes "EXPIRE" ∷ codes "key" ∷ (0xff ∷ 0xfe ∷ []) ∷ []))
    ≡ err wrong_argument_type

abbrev TtlWithMissingKeyReturnsWrongArity : Type 0
TtlWithMissingKeyReturnsWrongArity = AssertWrongArity (array (codes "TTL" ∷ [])) (codes "TTL") 0 1

abbrev TtlWithExtraArgsReturnsWrongArity : Type 0
TtlWithExtraArgsReturnsWrongArity =
    AssertWrongArity (array (codes "TTL" ∷ codes "key" ∷ codes "extra" ∷ [])) (codes "TTL") 2 1

abbrev AuthWithMissingKeyReturnsWrongArity : Type 0
AuthWithMissingKeyReturnsWrongArity =
    AssertWrongArity (array (codes "AUTH" ∷ [])) (codes "AUTH") 0 1

abbrev AuthWithExtraArgsReturnsWrongArity : Type 0
AuthWithExtraArgsReturnsWrongArity =
    AssertWrongArity (array (codes "AUTH" ∷ codes "key" ∷ codes "extra" ∷ [])) (codes "AUTH") 2 1

all_pass :
    NonArrayFrameIsInvalid × NilArrayIsInvalid × EmptyArrayIsInvalid × NonBulkElementIsInvalid
    × NilBulkElementIsInvalid × UnknownCommandReturnsUnknownCommand
    × GetWithMissingKeyReturnsWrongArity × PingWithExtraArgsReturnsWrongArity
    × QuitWithExtraArgsReturnsWrongArity × GetWithExtraArgsReturnsWrongArity
    × SetWithMissingValueReturnsWrongArity × SetWithExtraArgsReturnsWrongArity
    × DelWithMissingKeyReturnsWrongArity × DelWithExtraArgsReturnsWrongArity
    × ExpireWithMissingTtlReturnsWrongArity × ExpireWithExtraArgsReturnsWrongArity
    × ExpireWithNonNumericTtlReturnsWrongArgumentType × ExpireWithNonUtf8TtlReturnsWrongArgumentType
    × TtlWithMissingKeyReturnsWrongArity × TtlWithExtraArgsReturnsWrongArity
    × AuthWithMissingKeyReturnsWrongArity × AuthWithExtraArgsReturnsWrongArity
unfolding try_from eq_ignore_ascii_case is_utf8 parse_u64
all_pass = (
  refl, refl, refl, refl, refl, refl, refl, refl, refl, refl, refl, refl, refl, refl, refl, refl,
  refl, refl, refl, refl, refl, refl,
)
