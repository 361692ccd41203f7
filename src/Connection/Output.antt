-- ===== src/Connection/Output.antt =====
-- What a connection writes (src/connection.rs, src/frame.rs): replies that a client can read.
pub mod Answers
pub mod Written
use redlike.Prelude.{
  ℕ, zero, suc, ◌+◌, ◌≤◌, ◌⊎◌, inl, inr, ◌≡◌, ◌≢◌, refl, sym, ap, subst, ◌∙◌, Bool, true, false,
  Option, none, some, List, [], ◌∷◌, ◌++◌, append-nil, append_assoc, All, All-append, length,
  length-append, arith, Bytes, codes, ℤ, pos, negsuc, IsI64, i64_max, ◌^◌, ◌-◌, ◌/◌, ltb, ltb→lt,
  Bool-cases,
}
use redlike.Text.Decimal.{print_usize}
use redlike.Text.Utf8.{is_utf8}
use redlike.Frame.{
  Frame, Frames, crlf, simple_string, simple_error, bulk, integer, array, nil_array, to_frames,
  to_bytes,
}
use redlike.Frame.Laws.{all_bytes, from-to_frames}
use redlike.Frame.Sendable.{IsLine, AllSendable, IsSendable}
use redlike.Parser.{ParseResult, complete, partial, Platform, IsMemchr, find_crlf, position}
use redlike.Parser
use redlike.Parser.Run
use redlike.Parser.Run.{returned}
use redlike.Parser.Streaming
use redlike.Parser.Streaming.{prefixed, parse-append}
use redlike.Parser.RoundTrip.{parse-to_bytes}
use redlike.Command.{
  Command, ping, get, set, del, expire, ttl, quit, noop, auth, try_from, Result, ok, err,
  unknown_command, wrong_arity, wrong_argument_type, invalid_command_frame, io,
}
use redlike.Command.Syntax.{
  Syntax, ping_syntax, quit_syntax, get_syntax, set_syntax, del_syntax, expire_syntax, ttl_syntax,
  auth_syntax,
}
use redlike.Command.Requests.{Requests, try_from-eq_iff}
use redlike.Store
use redlike.Store.{Store, StoreValue, Outcome, returns, panics}
use redlike.Store.Map
use redlike.Connection.{
  Connection, count, check_password, ProcessOutcome, quits, noops, respond, Compare, Processed,
  authenticate_connection, can_execute, execute, process_command, expired_reply,
}
use redlike.Connection.Session.{
  Environment, Session, Flow, continues, closes, fails, aborts, stuck, Event, received, read_error,
  shutdown, and_then, send_response, finish, handle, handle_frames, handle_parsed, handle_event,
  run, opened,
}
use redlike.Connection.Output.Answers.{IsReply}
use redlike.Connection.Output.Written.{Wrote, IsCut, Wrote-whole, run-Wrote}

reply-IsSendable :
    (cap : ℕ) (f : Frame) → IsReply f → length (to_bytes f) ≤ i64_max → IsSendable cap f
unfolding IsReply IsSendable to_bytes
reply-IsSendable cap (simple_string text) h le = h
reply-IsSendable cap (simple_error text) h le = h
reply-IsSendable cap (bulk none) h le = tt
reply-IsSendable cap (bulk (some payload)) h le =
    let header : Bytes = ((codes "$") ++ print_usize (length payload)) ++ crlf in
    omega (arith, length-append (header ++ payload) crlf, length-append header payload)
reply-IsSendable cap (integer z) h le = h
reply-IsSendable cap (array fs) h le = absurd h
reply-IsSendable cap nil_array h le = absurd h

replies-Sendable :
    (cap : ℕ) (fs : List Frame)
    → All IsReply fs
    → length (all_bytes (to_frames fs)) ≤ i64_max
    → AllSendable cap (to_frames fs)
unfolding AllSendable all_bytes
replies-Sendable cap [] h le = tt
replies-Sendable cap (f ∷ fs) (h, hs) le =
    let e = length-append (to_bytes f) (all_bytes (to_frames fs)) in
    (
      reply-IsSendable cap f h (omega (arith, le, e)),
      replies-Sendable cap fs hs (omega (arith, le, e)),
    )

-- What a client makes of the bytes that were sent to it: first whole replies, and then whatever it makes of
-- a tail, which is empty but where the last reply was cut.
pub record IsReadable (client : Platform) (r : Session × Flow) : Type 0 where
  pub replies : List Frame
  pub tail : Bytes
  pub read :
      Run.parse client Parser.new r.0.output ≡ prefixed replies (Run.parse client Parser.new tail)
  pub whole :
      r.1 ≢ fails → Run.parse client Parser.new r.0.output ≡ returned (complete replies) Parser.new
  pub cut : (tail ≡ []) ⊎ IsCut r (length replies) tail
  pub each : All IsReply replies
  pub counted : length replies ≤ r.0.handled
  pub answered : r.1 ≡ continues → length replies ≡ r.0.handled

-- Whatever a client sends to a new connection and whatever happens to the connection and to the store, what is
-- written back is, to a client that parses it, a sequence of whole replies: simple strings, errors, bulk
-- strings and integers, never an array; one for each frame that was handled, as long as the connection
-- goes on, and no more than one if it has ended. Only where writing a reply has failed may they be followed
-- by bytes, and these are the beginning of that one reply, of a frame that has none of the others. The
-- client's `memchr` is as documented, and less than 2^63 bytes were written.
pub run-IsReadable :
    (env : Environment) (client : Platform)
    → IsMemchr client
    → (auth_password : Option Bytes) (store : Store) (events : List Event)
    → length (run env events (opened auth_password store)).0.output ≤ i64_max
    → IsReadable client (run env events (opened auth_password store))
unfolding Streaming.and_then
run-IsReadable env client law auth_password store events le =
    let w = run-Wrote env events (opened auth_password store) in
    let bytes : Bytes = all_bytes (to_frames w.replies) in
    let sendable : AllSendable client.max_capacity (to_frames w.replies) =
      replies-Sendable client.max_capacity w.replies w.each
        (omega (arith, le, ap length w.bytes, length-append bytes w.tail)) in
    let parsed : Run.parse client Parser.new bytes ≡ returned (complete w.replies) Parser.new =
      parse-to_bytes client law (to_frames w.replies) sendable
      ∙ ap (λ l. returned (complete l) Parser.new) (from-to_frames w.replies) in
    record {
      replies = w.replies;
      tail = w.tail;
      read =
          ap (Run.parse client Parser.new) w.bytes
          ∙ parse-append client law Parser.new bytes w.tail
          ∙ ap (λ r. Streaming.and_then r (λ q. Run.parse client q w.tail)) parsed;
      whole = λ ne. ap (Run.parse client Parser.new) (Wrote-whole w ne) ∙ parsed;
      cut = elim w.cut [
        | inl e ↦ inl e
        | inr (left, lt, part) ↦ inr (left, omega (arith, lt), part)
      ];
      each = w.each;
      counted = omega (arith, w.counted);
      answered = λ e. omega (arith, w.answered e);
    }
