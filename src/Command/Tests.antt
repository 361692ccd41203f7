-- ===== src/Command/Tests.antt =====
-- Frames that are read as commands, as in the unit tests of src/command.rs.
use redlike.Prelude.{◌↔◌, arith, ◌≡◌, refl, some, [], ◌∷◌, List, map, codes, Bytes}
use redlike.Text.Utf8.{is_utf8}
use redlike.Text.Decimal.{parse_u64}
use redlike.Frame.{Frame, bulk, array, to_frames}
use redlike.Command.Syntax.{Spells, expire_syntax}
use redlike.Command.Requests.{Requests, try_from-eq_iff, get_arity, try_from-Arity}
use redlike.Command.{
  get, expire, wrong_arity, ok, err, wrong_argument_type, eq_ignore_ascii_case, try_from,
}

-- The frame of a request by its words.
abbrev request : List Bytes → Frame
request parts = array (to_frames (map (λ v. bulk (some v)) parts))

mixed_case : try_from (request (codes "gEt" ∷ codes "mykey" ∷ [])) ≡ ok (get (codes "mykey"))
unfolding try_from eq_ignore_ascii_case
mixed_case = refl

expire_parses :
    try_from (request (codes "EXPIRE" ∷ codes "mykey" ∷ codes "123" ∷ []))
    ≡ ok (expire (codes "mykey") 123)
unfolding try_from eq_ignore_ascii_case is_utf8 parse_u64
expire_parses = refl

not_a_number :
    try_from (request (codes "EXPIRE" ∷ codes "key" ∷ codes "not-a-number" ∷ []))
    ≡ err wrong_argument_type
unfolding try_from eq_ignore_ascii_case is_utf8 parse_u64
not_a_number = refl

expire_syntax_example :
    Spells (codes "Expire") (codes "k" ∷ codes "10" ∷ []) (expire (codes "k") 10)
unfolding eq_ignore_ascii_case is_utf8 parse_u64
expire_syntax_example = (codes "expire", refl, expire_syntax (codes "k") (codes "10") 10 refl refl)

try_from-eq_iff_example :
    (try_from (request (codes "Expire" ∷ codes "k" ∷ codes "10" ∷ [])) ≡ ok (expire (codes "k") 10))
    ↔ Requests (request (codes "Expire" ∷ codes "k" ∷ codes "10" ∷ [])) (expire (codes "k") 10)
try_from-eq_iff_example =
    try_from-eq_iff (request (codes "Expire" ∷ codes "k" ∷ codes "10" ∷ [])) (expire (codes "k") 10)

try_from-Arity_example : try_from (request (codes "Get" ∷ [])) ≡ err (wrong_arity (codes "GET") 0 1)
unfolding eq_ignore_ascii_case
try_from-Arity_example = try_from-Arity get_arity (codes "Get") [] refl (omega arith)
