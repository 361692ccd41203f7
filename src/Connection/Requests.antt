-- ===== src/Connection/Requests.antt =====
-- How a client asks for the operations of the store, and how it is answered.
use redlike.Prelude.{
  ◌⊎◌, ℕ, ◌+◌, ◌*◌, ◌≤◌, ◌<◌, ◌≡◌, refl, true, Option, none, some, List, [], ◌∷◌, map, arith,
  length, Bytes, codes, pos, i64_max, u64_max, inl, inr,
}
use redlike.Parser.Headers.{plain-is_utf8}
use redlike.Text.Decimal.{print_usize}
use redlike.Text.Decimal.RoundTrip.{length-print_usize, parse_u64-print_usize, print_usize-IsPlain}
use redlike.Frame.Sendable.{IsSendable}
use redlike.Frame.{Frame, simple_string, simple_error, bulk, integer, array, to_frames}
use redlike.Command.{Command, get, set, del, expire, ttl, noop, ok, eq_ignore_ascii_case, try_from}
use redlike.Command.Syntax.{get_syntax, set_syntax, del_syntax, expire_syntax, ttl_syntax}
use redlike.Command.Requests.{Requests, try_from-eq_iff}
use redlike.Store.Map
use redlike.Store.{
  StoreValue, expire_entry, Store, Outcome, returns, panics, nanos_per_sec, instant_limit, as_i64,
}
use redlike.Store
use redlike.Store.Spec.{
  Operation, get_op, set_op, del_op, expire_op, ttl_op, sweep_op, Answer, done, value, outcome,
  number, perform,
}
use redlike.Connection.{
  Connection, respond, Compare, process_command, execute, can_execute, is_authorized, expired_reply,
}

-- The words of a request; the sweep is not one.
abbrev pub words : Operation → List Bytes
words (get_op k) = codes "GET" ∷ k ∷ []
words (set_op k v) = codes "SET" ∷ k ∷ v ∷ []
words (del_op k) = codes "DEL" ∷ k ∷ []
words (expire_op k n) = codes "EXPIRE" ∷ k ∷ print_usize n ∷ []
words (ttl_op k) = codes "TTL" ∷ k ∷ []
words sweep_op = []

abbrev pub request : Operation → Frame
request op = array (to_frames (map (λ v. bulk (some v)) (words op)))

abbrev command : Operation → Command
command (get_op k) = get k
command (set_op k v) = set k v
command (del_op k) = del k
command (expire_op k n) = expire k n
command (ttl_op k) = ttl k
command sweep_op = noop

-- A client's operation whose arguments fit on the wire and whose expiration fits an instant.
abbrev pub IsServed : ℕ → Operation → Type 0
IsServed now (get_op k) = length k ≤ i64_max
IsServed now (set_op k v) = (length k ≤ i64_max) × (length v ≤ i64_max)
IsServed now (del_op k) = length k ≤ i64_max
IsServed now (expire_op k n) =
    (length k ≤ i64_max) × (n ≤ u64_max) × (now + n * nanos_per_sec < instant_limit)
IsServed now (ttl_op k) = length k ≤ i64_max
IsServed now sweep_op = ⊥

-- The reply to an operation by its answer; no operation that is served panics.
abbrev pub reply : Operation → Answer → Frame
reply op done = simple_string (codes "OK")
reply (del_op k) (value none) = integer (pos 0)
reply (del_op k) (value (some v)) = integer (pos 1)
reply op (value o) = bulk o
reply op (outcome (returns n)) = integer (pos n)
reply op (outcome panics) = simple_error []
reply op (number z) = integer z

request-Requests : (now : ℕ) (op : Operation) → IsServed now op → Requests (request op) (command op)
unfolding eq_ignore_ascii_case
request-Requests now (get_op k) h = (codes "GET", k ∷ [], refl, (codes "get", refl, get_syntax k))
request-Requests now (set_op k v) h =
    (codes "SET", k ∷ v ∷ [], refl, (codes "set", refl, set_syntax k v))
request-Requests now (del_op k) h = (codes "DEL", k ∷ [], refl, (codes "del", refl, del_syntax k))
request-Requests now (expire_op k n) h = (
  codes "EXPIRE",
  k ∷ print_usize n ∷ [],
  refl,
  (
    codes "expire",
    refl,
    expire_syntax k (print_usize n) n (plain-is_utf8 (print_usize n) (print_usize-IsPlain n))
        (parse_u64-print_usize n h.1),
  ),
)
request-Requests now (ttl_op k) h = (codes "TTL", k ∷ [], refl, (codes "ttl", refl, ttl_syntax k))
request-Requests now sweep_op h = absurd h

pub try_from-request :
    (now : ℕ) (op : Operation) → IsServed now op → try_from (request op) ≡ ok (command op)
try_from-request now op h =
    (try_from-eq_iff (request op) (command op)).1 (request-Requests now op h)

-- EXPIRE returns 0 or 1 for an expiration that fits.
expire_entry-returns :
    (s : Store) (k : Store.Key) (n now : ℕ) (o : Option StoreValue)
    → now + n * nanos_per_sec < instant_limit
    → ((expire_entry s k n now o).1 ≡ returns 0) ⊎ ((expire_entry s k n now o).1 ≡ returns 1)
unfolding expire_entry
expire_entry-returns s k n now none h = inl refl
expire_entry-returns s k n now (some v) h = ground arith

expire-returns :
    (s : Store) (k : Store.Key) (n now : ℕ)
    → now + n * nanos_per_sec < instant_limit
    → ((Store.expire s k n now).1 ≡ returns 0) ⊎ ((Store.expire s k n now).1 ≡ returns 1)
unfolding Store.expire
expire-returns s k n now h =
    expire_entry-returns (record s { hashmap = Map.remove s.hashmap k }) k n now
      (Map.get s.hashmap k) h

expire-reply :
    (c : Connection) (k : Store.Key) (n : ℕ) (r : Store × Outcome ℕ)
    → (r.1 ≡ returns 0) ⊎ (r.1 ≡ returns 1)
    → expired_reply c r ≡ (c, r.0, returns (respond (reply (expire_op k n) (outcome r.1))))
unfolding expired_reply as_i64
expire-reply c k n (s, returns m) (inl h) = ground (arith, h)
expire-reply c k n (s, returns m) (inr h) = ground (arith, h)
expire-reply c k n (s, panics) (inl h) = cc
expire-reply c k n (s, panics) (inr h) = cc

-- `process_command` performs the operation on the store and makes its reply.
pub process_command-perform :
    (eq : Compare) (c : Connection) (s : Store) (now : ℕ) (op : Operation)
    → is_authorized c ≡ true
    → IsServed now op
    → process_command eq c s now (command op)
      ≡ (c, (perform s now op).0, returns (respond (reply op (perform s now op).1)))
unfolding process_command execute can_execute perform as_i64
process_command-perform eq c s now (get_op k) a h = ground arith
process_command-perform eq c s now (set_op k v) a h = ground arith
process_command-perform eq c s now (del_op k) a h = ground arith
process_command-perform eq c s now (expire_op k n) a h =
    rw a (expire-reply c k n (Store.expire s k n now) (expire-returns s k n now h.2))
process_command-perform eq c s now (ttl_op k) a h = ground arith
process_command-perform eq c s now sweep_op a h = absurd h

-- A request that is served fits on the wire.
pub request-IsSendable :
    (cap now : ℕ) (op : Operation) → 3 ≤ cap → IsServed now op → IsSendable cap (request op)
unfolding IsSendable
request-IsSendable cap now (get_op k) c h = (omega arith, omega arith, (omega arith, (h, tt)))
request-IsSendable cap now (set_op k v) c h =
    (omega arith, omega arith, (omega arith, (h.0, (h.1, tt))))
request-IsSendable cap now (del_op k) c h = (omega arith, omega arith, (omega arith, (h, tt)))
request-IsSendable cap now (expire_op k n) c h =
    (omega arith, omega arith, (omega arith, (h.0, (omega (arith, length-print_usize n, h.1), tt))))
request-IsSendable cap now (ttl_op k) c h = (omega arith, omega arith, (omega arith, (h, tt)))
request-IsSendable cap now sweep_op c h = absurd h
