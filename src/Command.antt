-- ===== src/Command.antt =====
-- src/command.rs: the commands, and how a frame is read as one.
mod Tests
pub mod Suite
pub mod Spelling
pub mod Syntax
pub mod Requests
use redlike.Prelude.{
  ℕ, zero, suc, ◌+◌, ◌≡◌, refl, Bool, true, false, ◌&&◌, Option, none, some, List, [], ◌∷◌, map,
  leb, ◌==◌, if◌then◌else◌, length, Bytes, codes,
}
pub use redlike.Error.{
  Error, io, wrong_arity, unknown_command, invalid_command_frame, wrong_argument_type,
}
use redlike.Text.Utf8.{is_utf8}
use redlike.Text.Decimal.{parse_u64}
use redlike.Frame.{Frame, Frames, simple_string, bulk, array, nil, cons, from_frames}

pub data Command : Type 0 where
  ping : Command
  get : Bytes → Command
  set : Bytes → Bytes → Command
  del : Bytes → Command
  expire : Bytes → ℕ → Command
  ttl : Bytes → Command
  quit noop : Command
  auth : Bytes → Command

pub data Result {ℓ} (A : Type ℓ) : Type ℓ where
  ok : A → Result A
  err : Error → Result A

module _ {ℓ κ} {A : Type ℓ} {B : Type κ} where
  infixl 5 ◌>>=◌
  abbrev pub ◌>>=◌ : Result A → (A → Result B) → Result B
  ok a >>= f = f a
  err e >>= f = err e

-- The closure of `bulk_args`.
bulk_arg : Frame → Result Bytes
bulk_arg (bulk (some inner)) = ok inner
bulk_arg _ = err invalid_command_frame

-- `args.iter().map(...).collect()` stops at the first error.
pub collect : List Frame → Result (List Bytes)
unfolding bulk_arg
collect [] = ok []
collect (f ∷ fs) = do a ← bulk_arg f; rest ← collect fs; ok (a ∷ rest)

unfoldable pub bulk_args : Frame → Result (List Bytes)
unfolding collect
bulk_args (array (cons f fs)) = collect (f ∷ from_frames fs)
bulk_args _ = err invalid_command_frame

unfoldable pub parse_ping : List Bytes → Result Command
parse_ping [] = ok ping
parse_ping argv = err (wrong_arity (codes "PING") (length argv) 0)

unfoldable pub parse_quit : List Bytes → Result Command
parse_quit [] = ok quit
parse_quit argv = err (wrong_arity (codes "QUIT") (length argv) 0)

unfoldable pub parse_get : List Bytes → Result Command
parse_get (key ∷ []) = ok (get key)
parse_get argv = err (wrong_arity (codes "GET") (length argv) 1)

unfoldable pub parse_set : List Bytes → Result Command
parse_set (key ∷ value ∷ []) = ok (set key value)
parse_set argv = err (wrong_arity (codes "SET") (length argv) 2)

unfoldable pub parse_del : List Bytes → Result Command
parse_del (key ∷ []) = ok (del key)
parse_del argv = err (wrong_arity (codes "DEL") (length argv) 1)

-- `parse::<u64>` of the argument's text.
number_arg : Option ℕ → Result ℕ
number_arg (some n) = ok n
number_arg none = err wrong_argument_type

unfoldable pub parse_u64_arg : Bytes → Result ℕ
unfolding number_arg
parse_u64_arg value =
    if is_utf8 value then number_arg (parse_u64 value) else err wrong_argument_type

unfoldable pub parse_expire : List Bytes → Result Command
unfolding parse_u64_arg
parse_expire (key ∷ value ∷ []) = do n ← parse_u64_arg value; ok (expire key n)
parse_expire argv = err (wrong_arity (codes "EXPIRE") (length argv) 2)

unfoldable pub parse_ttl : List Bytes → Result Command
parse_ttl (key ∷ []) = ok (ttl key)
parse_ttl argv = err (wrong_arity (codes "TTL") (length argv) 1)

unfoldable pub parse_auth : List Bytes → Result Command
parse_auth (key ∷ []) = ok (auth key)
parse_auth argv = err (wrong_arity (codes "AUTH") (length argv) 1)

-- `u8::to_ascii_lowercase`
unfoldable pub to_ascii_lowercase : ℕ → ℕ
to_ascii_lowercase c = if leb b'A' c && leb c b'Z' then c + 32 else c

-- `[u8]::eq_ignore_ascii_case`
unfoldable pub eq_ignore_ascii_case : Bytes → Bytes → Bool
unfolding to_ascii_lowercase
eq_ignore_ascii_case [] [] = true
eq_ignore_ascii_case (a ∷ s) (b ∷ t) =
    to_ascii_lowercase a == to_ascii_lowercase b && eq_ignore_ascii_case s t
eq_ignore_ascii_case _ _ = false

-- The chain of tests on the command's name.
unfoldable pub dispatch : Bytes → List Bytes → Result Command
unfolding parse_ping parse_quit parse_get parse_set parse_del parse_expire parse_ttl parse_auth
dispatch cmd argv =
    if eq_ignore_ascii_case cmd (codes "ping")
    then parse_ping argv
    else if eq_ignore_ascii_case cmd (codes "quit")
    then parse_quit argv
    else if eq_ignore_ascii_case cmd (codes "get")
    then parse_get argv
    else if eq_ignore_ascii_case cmd (codes "set")
    then parse_set argv
    else if eq_ignore_ascii_case cmd (codes "del")
    then parse_del argv
    else if eq_ignore_ascii_case cmd (codes "expire")
    then parse_expire argv
    else if eq_ignore_ascii_case cmd (codes "ttl")
    then parse_ttl argv
    else if eq_ignore_ascii_case cmd (codes "auth")
    then parse_auth argv
    else err unknown_command

-- `args.split_first()`
unfoldable pub split_first : List Bytes → Result (Bytes × List Bytes)
split_first [] = err invalid_command_frame
split_first (cmd ∷ argv) = ok (cmd, argv)

-- `Command::try_from`
unfoldable pub try_from : Frame → Result Command
unfolding bulk_args split_first dispatch
try_from value = do args ← bulk_args value; (cmd, argv) ← split_first args; dispatch cmd argv

unfoldable pub name : Command → Bytes
name ping = codes "PING"
name (get key) = codes "GET"
name (set key value) = codes "SET"
name (del key) = codes "DEL"
name (expire key value) = codes "EXPIRE"
name (ttl key) = codes "TTL"
name quit = codes "QUIT"
name noop = codes "NOOP"
name (auth key) = codes "GET"
