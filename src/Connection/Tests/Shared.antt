-- ===== src/Connection/Tests/Shared.antt =====
-- Runs of a connection beside others on the same store (src/connection.rs, src/store.rs).
use redlike.Prelude.{ℕ, zero, suc, map, arith, ◌≡◌, refl, none, [], ◌∷◌, ◌++◌, Bytes, codes}
use redlike.Text.Utf8.{is_utf8}
use redlike.Text.Decimal.{parse_i64}
use redlike.Parser.{
  ParseError, invalid_length, partial, set_error, position, find_crlf, read_length,
}
use redlike.Parser
use redlike.Parser.Turn.{advance, start_turn, bulk_length_turn}
use redlike.Parser.Run
use redlike.Parser.Run.{returned}
use redlike.Store
use redlike.Frame.{to_frames}
use redlike.Frame.Laws.{all_bytes}
use redlike.Store.Spec.{set_op, spec_answers}
use redlike.Connection.Requests
use redlike.Connection.Replies.{replies}
use redlike.Connection.Session.{Environment, closes, received, run, opened}
use redlike.Connection.Shared.{Answered, run-Answered, joint, own}
use redlike.Connection.Shared.Others.{
  Acts, operates, deletes, takes_due, drops, acted, operations, AreBetween, since, IsShared,
}
use redlike.Connection.Malformed.{run-malformed}
use redlike.Connection.Tests.{alone, alone-IsMemchr, pipeline}

-- Behind the first command another client sets the key between the phases of a sweep, and deletes a key, having
-- read the clock before.
abbrev intruder : ℕ → Acts
intruder (suc zero) =
    (1, takes_due)
    ∷ (1, operates (set_op (codes "k") (codes "w")))
    ∷ (1, drops (codes "k" ∷ []) 1)
    ∷ (1, deletes (codes "j") 0)
    ∷ []
intruder _ = []

abbrev busy : Environment
busy = record alone { others = λ n s. acted s (intruder n) }

intruder-AreBetween : (n : ℕ) → AreBetween (since busy n) (intruder n) (busy.clock n)
intruder-AreBetween zero = omega arith
intruder-AreBetween (suc zero) = (
  omega arith,
  tt,
  (omega arith, tt, (omega arith, omega arith, (omega arith, omega arith, omega arith))),
)
intruder-AreBetween (suc (suc n)) = omega arith

busy-IsShared : IsShared busy intruder
busy-IsShared = record {
  performs = λ n s. refl;
  between = intruder-AreBetween;
  writable = λ n. refl;
}

run-Answered_example :
    Answered busy intruder busy-IsShared
      (set_op (codes "k") (codes "v") ∷ pipeline)
      (λ k. none)
      (opened none Store.new)
      (run busy
        (received (
            all_bytes
              (to_frames (map Requests.request (set_op (codes "k") (codes "v") ∷ pipeline))))
          ∷ [])
        (opened none Store.new))
run-Answered_example =
    run-Answered busy intruder busy-IsShared alone-IsMemchr (set_op (codes "k") (codes "v"))
      pipeline (omega arith)
      ((omega arith, omega arith), ((omega arith, omega arith, omega arith), (omega arith, tt)))

-- A length that is no number.
abbrev malformed : Bytes
malformed = codes "$x\r\n"

abbrev refused : Parser.Parser
refused = set_error (record Parser.new { buf = codes "x\r\n" }) invalid_length

malformed-refused :
    Run.parse busy.platform Parser.new malformed ≡ returned (partial [] invalid_length) refused
unfolding Run.parse advance read_length position start_turn bulk_length_turn find_crlf is_utf8
    parse_i64 set_error
malformed-refused = refl

run-malformed_example :
    ((run busy
        (received (
            all_bytes (to_frames (map Requests.request (set_op (codes "k") (codes "v") ∷ pipeline)))
            ++ malformed)
          ∷ received (codes "GET k\n")
          ∷ [])
        (opened none Store.new)).1
      ≡ closes)
    × ((run busy
          (received (
              all_bytes
                (to_frames (map Requests.request (set_op (codes "k") (codes "v") ∷ pipeline)))
              ++ malformed)
            ∷ received (codes "GET k\n")
            ∷ [])
          (opened none Store.new)).0.output
        ≡ replies (set_op (codes "k") (codes "v") ∷ pipeline) (
            own
              (λ n. operations (intruder n))
              0
              (set_op (codes "k") (codes "v") ∷ pipeline)
              (spec_answers
                (λ k. none)
                (joint busy
                  (λ n. operations (intruder n))
                  0
                  (set_op (codes "k") (codes "v") ∷ pipeline)))))
run-malformed_example =
    run-malformed busy intruder busy-IsShared alone-IsMemchr (set_op (codes "k") (codes "v"))
      pipeline (omega arith)
      ((omega arith, omega arith), ((omega arith, omega arith, omega arith), (omega arith, tt)))
      malformed invalid_length refused (received (codes "GET k\n") ∷ []) malformed-refused
