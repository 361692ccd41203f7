-- ===== src/Connection/Output/Answers.antt =====
-- What is answered to a command (src/connection.rs).
use redlike.Prelude.{
  ℕ, ◌≡◌, ◌≢◌, refl, Option, none, some, List, arith, Bytes, negsuc, IsI64, ◌^◌, ◌-◌, ◌/◌, ltb,
  ltb→lt, Bool-cases, inl, inr,
}
use redlike.Text.Utf8.{is_utf8}
use redlike.Frame.{Frame, simple_string, simple_error, bulk, integer, array, nil_array}
use redlike.Frame.Sendable.{IsLine}
use redlike.Parser.{find_crlf, position}
use redlike.Command.{Command, ping, get, set, del, expire, ttl, quit, noop, auth, try_from, ok}
use redlike.Command.Syntax.{
  Syntax, ping_syntax, quit_syntax, get_syntax, set_syntax, del_syntax, expire_syntax, ttl_syntax,
  auth_syntax,
}
use redlike.Command.Requests.{try_from-eq_iff}
use redlike.Store
use redlike.Store.{Store, StoreValue, Outcome, returns, panics}
use redlike.Store.Map
use redlike.Connection.{
  Connection, count, check_password, ProcessOutcome, quits, noops, respond, Compare,
  authenticate_connection, can_execute, execute, process_command, expired_reply,
}

-- The frames that answer a command: never an array, and the texts and numbers fit their line.
unfoldable pub IsReply : Frame → Type 0
IsReply (simple_string text) = IsLine text
IsReply (simple_error text) = IsLine text
IsReply (bulk payload) = Unit
IsReply (integer z) = IsI64 z
IsReply (array fs) = ⊥
IsReply nil_array = ⊥

as_i64-IsI64 : (n : ℕ) → IsI64 (Store.as_i64 n)
unfolding Store.as_i64
as_i64-IsI64 n = elim (Bool-cases (ltb n (2 ^ 63))) [
  | inl h ↦ let l = ltb→lt n (2 ^ 63) h in rw h (omega arith)
  | inr h ↦ rw h (ground arith)
]

remaining-IsI64 : (v : Option StoreValue) (now : ℕ) → IsI64 (Store.remaining v now)
unfolding Store.remaining
remaining-IsI64 none now = omega arith
remaining-IsI64 (some v) now = elim (Bool-cases (Store.is_expired v now)) [
  | inl h ↦ rw h (omega arith)
  | inr h ↦ rw h (left v.expiration_time now)
]
  where
    left :
        (t : Option ℕ) (now : ℕ)
        → IsI64
            (elim t [ none ↦ negsuc 0 | some t ↦ Store.as_i64 ((t - now) / Store.nanos_per_sec) ])
    left none now = omega arith
    left (some t) now = as_i64-IsI64 _

-- What comes of a command: a reply or an end, never silence.
unfoldable pub IsAnswer : Outcome ProcessOutcome → Type 0
IsAnswer (returns noops) = ⊥
IsAnswer (returns quits) = Unit
IsAnswer (returns (respond r)) = IsReply r
IsAnswer panics = Unit

expired_reply-IsAnswer : (c : Connection) (r : Store × Outcome ℕ) → IsAnswer (expired_reply c r).2
unfolding IsAnswer IsReply expired_reply
expired_reply-IsAnswer c (s, returns n) = as_i64-IsI64 n
expired_reply-IsAnswer c (s, panics) = tt

count-IsI64 {ℓ} : {A : Type ℓ} (deleted : Option A) → IsI64 (count deleted)
unfolding count
count-IsI64 none = omega arith
count-IsI64 (some v) = omega arith

check_password-IsAnswer :
    (eq : Compare) (c : Connection) (password : Bytes) (secret : Option Bytes)
    → IsAnswer (returns (check_password eq c password secret).1)
unfolding IsAnswer IsReply check_password is_utf8 find_crlf position
check_password-IsAnswer eq c password none = (refl, refl)
check_password-IsAnswer eq c password (some secret) = elim (Bool-cases (eq secret password)) [
  | inl h ↦ rw h (refl, refl)
  | inr h ↦ rw h (refl, refl)
]

execute-IsAnswer :
    (eq : Compare) (c : Connection) (s : Store) (now : ℕ) (command : Command)
    → command ≢ noop
    → IsAnswer (execute eq c s now command).2
unfolding IsAnswer IsReply execute authenticate_connection is_utf8 find_crlf position Store.ttl
execute-IsAnswer eq c s now noop ne = absurd (ne refl)
execute-IsAnswer eq c s now quit ne = tt
execute-IsAnswer eq c s now ping ne = (refl, refl)
execute-IsAnswer eq c s now (set key value) ne = (refl, refl)
execute-IsAnswer eq c s now (get key) ne = tt
execute-IsAnswer eq c s now (del key) ne = count-IsI64 (Store.del s key now).1
execute-IsAnswer eq c s now (expire key value) ne =
    expired_reply-IsAnswer c (Store.expire s key value now)
execute-IsAnswer eq c s now (ttl key) ne = remaining-IsI64 (Map.get s.hashmap key) now
execute-IsAnswer eq c s now (auth key) ne = check_password-IsAnswer eq c key c.auth_password

pub process_command-IsAnswer :
    (eq : Compare) (c : Connection) (s : Store) (now : ℕ) (command : Command)
    → command ≢ noop
    → IsAnswer (process_command eq c s now command).2
unfolding process_command IsAnswer IsReply is_utf8 find_crlf position
process_command-IsAnswer eq c s now command ne = elim (Bool-cases (can_execute c command)) [
  | inl h ↦ rw h (execute-IsAnswer eq c s now command ne)
  | inr h ↦ rw h (refl, refl)
]

Syntax-ne-noop : (kw : Bytes) (argv : List Bytes) (c : Command) → Syntax kw argv c → c ≢ noop
Syntax-ne-noop kw argv c ping_syntax e = cc
Syntax-ne-noop kw argv c quit_syntax e = cc
Syntax-ne-noop kw argv c (get_syntax key) e = cc
Syntax-ne-noop kw argv c (set_syntax key value) e = cc
Syntax-ne-noop kw argv c (del_syntax key) e = cc
Syntax-ne-noop kw argv c (expire_syntax key value n u p) e = cc
Syntax-ne-noop kw argv c (ttl_syntax key) e = cc
Syntax-ne-noop kw argv c (auth_syntax key) e = cc

-- No frame is read as the command that is not answered.
pub try_from-ne-noop : (f : Frame) (c : Command) → try_from f ≡ ok c → c ≢ noop
try_from-ne-noop f c e =
    let (cmd, argv, same, (kw, spelled, meaning)) = (try_from-eq_iff f c).0 e in
    Syntax-ne-noop kw argv c meaning
