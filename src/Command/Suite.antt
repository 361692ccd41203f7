-- ===== src/Command/Suite.antt =====
-- What the unit tests of src/command.rs share.
pub mod Parses
pub mod Refuses
use redlike.Prelude.{ℕ, ◌≡◌, some, List, [], ◌∷◌, Bytes}
use redlike.Frame.{Frame, Frames, nil, cons}
use redlike.Frame
use redlike.Command.{Command, wrong_arity, ok, err, try_from}

abbrev pub bulk : Bytes → Frame
bulk value = Frame.bulk (some value)

abbrev pub bulks : List Bytes → Frames
bulks [] = nil
bulks (part ∷ parts) = cons (bulk part) (bulks parts)

abbrev pub array : List Bytes → Frame
array parts = Frame.array (bulks parts)

-- `Command::try_from(frame).unwrap()` is this command.
abbrev pub Parses : List Bytes → Command → Type 0
Parses parts command = try_from (array parts) ≡ ok command

abbrev pub AssertWrongArity : Frame → Bytes → ℕ → ℕ → Type 0
AssertWrongArity frame expected_command given expected =
    try_from frame ≡ err (wrong_arity expected_command given expected)
