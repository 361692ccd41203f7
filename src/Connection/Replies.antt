-- ===== src/Connection/Replies.antt =====
-- A pipeline of requests, from the bytes that arrive to the bytes that are sent.
use redlike.Prelude.{
  ℕ, suc, ◌≤◌, ◌≡◌, ◌≢◌, refl, sym, ap, ◌∙◌, subst, true, none, some, List, [], ◌∷◌, ◌++◌, map,
  append_assoc, append-nil, arith, Bytes,
}
use redlike.Connection.Ends.{and_then-continues}
use redlike.Frame.{bulk, array, Frames, to_bytes, to_frames}
use redlike.Frame.Laws.{all_bytes, from-to_frames, to_bytes-array}
use redlike.Frame.Sendable.{AllSendable}
use redlike.Parser.{IsMemchr, complete}
use redlike.Parser
use redlike.Parser.Run
use redlike.Parser.Run.{returned}
use redlike.Parser.RoundTrip.{parse-to_bytes}
use redlike.Command.{try_from}
use redlike.Store.{Key, Store, StoreValue, returns}
use redlike.Store
use redlike.Store.Map
use redlike.Store.Map.{get-empty}
use redlike.Store.View.{live}
use redlike.Store.Spec.{Operation, Answer, perform, Dictionary, spec_perform, spec_answers}
use redlike.Store.Refinement.{Agrees, Agrees-later, perform-Agrees}
use redlike.Connection.{is_authorized}
use redlike.Connection.Session.{
  Environment, Session, Flow, continues, received, and_then, send_response, finish, handle,
  handle_frames, handle_parsed, handle_event, run, opened,
}
use redlike.Connection.Requests.{
  words, request-IsSendable, request, IsServed, reply, try_from-request, process_command-perform,
}

-- The other tasks keep what is seen of the store, as sweeps do, and the clock does not go back.
pub record IsQuiet (env : Environment) : Type 0 where
  pub unseen :
      (n later : ℕ) (s : Store) (k : Key)
      → env.clock n ≤ later
      → live later (Map.get (env.others n s).hashmap k) ≡ live later (Map.get s.hashmap k)
  pub monotone : (n : ℕ) → env.clock n ≤ env.clock (suc n)
  pub writable : (n : ℕ) → env.writable n ≡ true

-- The operations at the instants at which they are executed, from the `n`th command on.
abbrev pub stamped : Environment → ℕ → List Operation → List (ℕ × Operation)
stamped env n [] = []
stamped env n (op ∷ ops) = (env.clock n, op) ∷ stamped env (suc n) ops

abbrev pub AreServed : Environment → ℕ → List Operation → Type 0
AreServed env n [] = Unit
AreServed env n (op ∷ ops) = IsServed (env.clock n) op × AreServed env (suc n) ops

-- The replies to operations by their answers, one after the other.
abbrev pub replies : List Operation → List Answer → Bytes
replies (op ∷ ops) (a ∷ answers) = to_bytes (reply op a) ++ replies ops answers
replies _ _ = []

-- The session has gone on, and sent the replies.
abbrev Answered : Environment → List Operation → Dictionary → Session → Session × Flow → Type 0
Answered env ops d s r =
    (r.1 ≡ continues)
    × (r.0.output ≡ s.output ++ replies ops (spec_answers d (stamped env s.handled ops)))

module _ (env : Environment) where
  -- The session behind one request.
  abbrev pub next : Session → Operation → Session
  next s op =
      let store = env.others s.handled s.store in
      let t = env.clock s.handled in
      record s {
        store = (perform store t op).0;
        output = s.output ++ to_bytes (reply op (perform store t op).1);
        handled = suc s.handled;
      }

  pub next-output :
      (s : Session) (op : Operation) (a : Answer) (rest : Bytes)
      → (perform (env.others s.handled s.store) (env.clock s.handled) op).1 ≡ a
      → (next s op).output ++ rest ≡ s.output ++ (to_bytes (reply op a) ++ rest)
  next-output s op a rest e =
      append_assoc s.output
        (to_bytes (reply op (perform (env.others s.handled s.store) (env.clock s.handled) op).1))
        rest
      ∙ ap (λ x. s.output ++ (to_bytes (reply op x) ++ rest)) e

  pub handle-request :
      (s : Session) (op : Operation)
      → env.writable s.handled ≡ true
      → is_authorized s.connection ≡ true
      → IsServed (env.clock s.handled) op
      → handle env s (try_from (request op)) ≡ (next s op, continues)
  unfolding handle finish send_response
  handle-request s op w a h =
      rw
        (
          try_from-request (env.clock s.handled) op h,
          process_command-perform env.constant_time_eq s.connection (env.others s.handled s.store)
              (env.clock s.handled) op a h,
          w,
        )
        refl

module _ (env : Environment) (quiet : IsQuiet env) where
  next-Agrees :
      (s : Session) (d : Dictionary) (op : Operation)
      → Agrees (env.clock s.handled) s.store.hashmap d
      → Agrees
          (env.clock s.handled)
          (next env s op).store.hashmap
          (spec_perform d (env.clock s.handled) op).0
        × ((perform (env.others s.handled s.store) (env.clock s.handled) op).1
            ≡ (spec_perform d (env.clock s.handled) op).1)
  next-Agrees s d op agrees =
      perform-Agrees (env.others s.handled s.store) (env.clock s.handled) d op
        (λ k. quiet.unseen s.handled (env.clock s.handled) s.store k (omega arith) ∙ agrees k)

  frames-Answered :
      (ops : List Operation) (s : Session) (d : Dictionary)
      → is_authorized s.connection ≡ true
      → AreServed env s.handled ops
      → Agrees (env.clock s.handled) s.store.hashmap d
      → Answered env ops d s (handle_frames env (map request ops) s)
  unfolding handle_frames spec_answers
  frames-Answered [] s d a h agrees = (refl, sym (append-nil s.output))
  frames-Answered (op ∷ ops) s d a (h, hs) agrees =
      let t = env.clock s.handled in
      let d' = (spec_perform d t op).0 in
      let (agrees', same) = next-Agrees s d op agrees in
      let later =
        Agrees-later t (env.clock (suc s.handled)) (next env s op).store.hashmap d'
          (quiet.monotone s.handled) agrees' in
      let (goes_on, sent) = frames-Answered ops (next env s op) d' a hs later in
      subst (λ r. Answered env (op ∷ ops) d s (and_then r (handle_frames env (map request ops))))
        (sym (handle-request env s op (quiet.writable s.handled) a h))
        (unfold and_then in
          (
            goes_on,
            sent
                ∙ next-output env s op (spec_perform d t op).1
                    (replies ops (spec_answers d' (stamped env (suc s.handled) ops))) same,
          ))

-- What is received, unless it is empty, is parsed.
pub received-parsed :
    (env : Environment) (s : Session) (bytes : Bytes)
    → bytes ≢ []
    → handle_event env s (received bytes)
      ≡ handle_parsed env s (Run.parse env.platform s.parser bytes)
unfolding handle_event
received-parsed env s [] h = absurd (h refl)
received-parsed env s (b ∷ bs) h = refl

pub all_bytes-ne-nil :
    (op : Operation) (ops : List Operation) → all_bytes (to_frames (map request (op ∷ ops))) ≢ []
unfolding all_bytes
all_bytes-ne-nil op ops e =
    array-ne-nil (to_frames (map (λ v. bulk (some v)) (words op)))
      (all_bytes (to_frames (map request ops))) e
  where
    array-ne-nil : (fs : Frames) (rest : Bytes) → to_bytes (array fs) ++ rest ≢ []
    array-ne-nil fs rest x = cc (sym (ap (λ b. b ++ rest) (to_bytes-array fs)) ∙ x)

-- The requests fit on the wire.
pub requests-Sendable :
    (cap : ℕ) (env : Environment) (n : ℕ) (ops : List Operation)
    → 3 ≤ cap
    → AreServed env n ops
    → AllSendable cap (to_frames (map request ops))
unfolding AllSendable
requests-Sendable cap env n [] h served = tt
requests-Sendable cap env n (op ∷ ops) h (s, ss) =
    (request-IsSendable cap (env.clock n) op h s, requests-Sendable cap env (suc n) ops h ss)

-- A pipeline of requests over a new store is answered, byte for byte and in order, as the map of the README
-- says, and the connection goes on: on a server without a password, for requests that fit on the wire and
-- expirations that fit an instant, while other tasks at most sweep, the clock does not go back, replies
-- can be written, and an array of three can be allotted. `memchr` is as documented.
pub run-replies :
    (env : Environment)
    → IsMemchr env.platform
    → IsQuiet env
    → (op : Operation) (ops : List Operation) → 3 ≤ env.platform.max_capacity
    → AreServed env 0 (op ∷ ops)
    → ((run env
          (received (all_bytes (to_frames (map request (op ∷ ops)))) ∷ [])
          (opened none Store.new)).1
        ≡ continues)
      × ((run env
            (received (all_bytes (to_frames (map request (op ∷ ops)))) ∷ [])
            (opened none Store.new)).0.output
          ≡ replies (op ∷ ops) (spec_answers (λ k. none) (stamped env 0 (op ∷ ops))))
unfolding run
run-replies env law quiet op ops cap served =
    let fs : Frames = to_frames (map request (op ∷ ops)) in
    let s : Session = opened none Store.new in
    subst (λ r. Answered env (op ∷ ops) (λ k. none) s r)
      (sym (
        and_then-continues (handle_event env s (received (all_bytes fs)))
        ∙ received-parsed env s (all_bytes fs) (all_bytes-ne-nil op ops)
        ∙ ap (handle_parsed env s) (
            parse-to_bytes env.platform law fs
              (requests-Sendable env.platform.max_capacity env 0 (op ∷ ops) cap served)
            ∙ ap (λ l. returned (complete l) Parser.new) (from-to_frames (map request (op ∷ ops))))
        ∙ (unfold handle_parsed in refl)))
      (frames-Answered env quiet (op ∷ ops) s (λ k. none) (unfold is_authorized in refl) served
        (λ k. ap (live (env.clock 0)) (get-empty k)))
