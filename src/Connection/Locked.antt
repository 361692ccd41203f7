-- ===== src/Connection/Locked.antt =====
-- A whole session of a client that never gives the password.
use redlike.Prelude.{◌⊎◌, inl, inr, ◌≡◌, refl, sym, ◌∙◌, subst, List, [], ◌∷◌, ◌++◌, All, Bytes}
use redlike.Frame.{Frame}
use redlike.Parser.{Parser, Platform, complete, partial}
use redlike.Parser.Run
use redlike.Parser.Run.{Run, returned}
use redlike.Store.{Store}
use redlike.Connection.{Connection}
use redlike.Connection.Session.{
  Environment, Session, Flow, continues, closes, fails, aborts, stuck, Event, received, read_error,
  shutdown, and_then, handle_frames, handle_parsed, handle_event, run,
}
use redlike.Connection.Auth.{
  IsLocked, alone, with_store, IsApart, and_then-IsApart, frames-parser, Guesses, frames-IsApart,
}

-- The frames that a client sends, up to the first error, and the parser behind them.
unfoldable pub frames_of : Run → List Frame
frames_of (returned (complete fs) p) = fs
frames_of (returned (partial fs e) p) = fs
frames_of Run.panicked = []
frames_of Run.out_of_fuel = []

unfoldable pub parser_of : Parser → Run → Parser
parser_of p (returned (complete fs) q) = q
parser_of p (returned (partial fs e) q) = q
parser_of p Run.panicked = p
parser_of p Run.out_of_fuel = p

unfoldable pub received_frames : Platform → List Event → Parser → List Frame
unfolding frames_of parser_of
received_frames platform [] p = []
received_frames platform (received bytes ∷ events) p =
    let r = Run.parse platform p bytes in
    frames_of r ++ received_frames platform events (parser_of p r)
received_frames platform (read_error ∷ events) p = []
received_frames platform (shutdown ∷ events) p = []

All-append_inverse :
    {A : Type 0} (P : A → Type 0) (xs ys : List A) → All P (xs ++ ys) → All P xs × All P ys
All-append_inverse P [] ys h = (tt, h)
All-append_inverse P (x ∷ xs) ys (h, hs) =
    ((h, (All-append_inverse P xs ys hs).0), (All-append_inverse P xs ys hs).1)

module _ (env : Environment) (secret : Bytes) (store : Store) (c : Connection)
    (locked : IsLocked secret c) where
  -- A last step that only leaves the loop.
  left-IsApart :
      (r r' : Session × Flow)
      → IsApart store c r r'
      → IsApart store c (and_then r (λ s. (s, closes))) (and_then r' (λ s. (s, closes)))
  left-IsApart r r' h =
      and_then-IsApart store c r r' (λ s. (s, closes)) (λ s. (s, closes)) r.0.parser h refl
        (λ s e _. (refl, e))

  parsed-IsApart :
      (s : Session) (r : Run)
      → s.connection ≡ c
      → All (Guesses env secret) (frames_of r)
      → IsApart store c
          (handle_parsed env s r)
          (handle_parsed (alone env) (record s { store = store }) r)
  unfolding handle_parsed frames_of
  parsed-IsApart s (returned (complete fs) p) e h =
      frames-IsApart env secret store c locked fs (record s { parser = p }) e h
  parsed-IsApart s (returned (partial fs x) p) e h =
      left-IsApart (handle_frames env fs (record s { parser = p }))
        (handle_frames (alone env) fs (record s { store = store; parser = p }))
        (frames-IsApart env secret store c locked fs (record s { parser = p }) e h)
  parsed-IsApart s Run.panicked e h = (refl, e)
  parsed-IsApart s Run.out_of_fuel e h = (refl, e)

  -- The parser that the next turn starts from.
  left-parser : (r : Session × Flow) → (and_then r (λ s. (s, closes))).0.parser ≡ r.0.parser
  unfolding and_then
  left-parser (s, continues) = refl
  left-parser (s, closes) = refl
  left-parser (s, fails) = refl
  left-parser (s, aborts) = refl
  left-parser (s, stuck) = refl

  parsed-parser : (s : Session) (r : Run) → (handle_parsed env s r).0.parser ≡ parser_of s.parser r
  unfolding handle_parsed parser_of
  parsed-parser s (returned (complete fs) p) = frames-parser env fs (record s { parser = p })
  parsed-parser s (returned (partial fs x) p) =
      left-parser (handle_frames env fs (record s { parser = p }))
      ∙ frames-parser env fs (record s { parser = p })
  parsed-parser s Run.panicked = refl
  parsed-parser s Run.out_of_fuel = refl

  -- The events that only leave the loop.
  stop-IsApart :
      (s : Session) (flow : Flow) (events : List Event)
      → flow ≡ closes ⊎ flow ≡ fails
      → s.connection ≡ c
      → IsApart store c
          (and_then (s, flow) (run env events))
          (and_then (record s { store = store }, flow) (run (alone env) events))
  unfolding and_then
  stop-IsApart s flow events (inl x) e = rw x (refl, e)
  stop-IsApart s flow events (inr x) e = rw x (refl, e)

  run-IsApart :
      (events : List Event) (s : Session)
      → s.connection ≡ c
      → All (Guesses env secret) (received_frames env.platform events s.parser)
      → IsApart store c (run env events s) (run (alone env) events (record s { store = store }))
  unfolding run handle_event received_frames
  run-IsApart [] s e h = (refl, e)
  run-IsApart (received [] ∷ events) s e h = stop-IsApart s closes events (inl refl) e
  run-IsApart (received (b ∷ bs) ∷ events) s e h =
      let r : Run = Run.parse env.platform s.parser (b ∷ bs) in
      let (now, later) =
        All-append_inverse (Guesses env secret) (frames_of r)
          (received_frames env.platform events (parser_of s.parser r)) h in
      and_then-IsApart store c (handle_parsed env s r)
        (handle_parsed (alone env) (record s { store = store }) r) (run env events)
        (run (alone env) events) (parser_of s.parser r) (parsed-IsApart s r e now)
        (parsed-parser s r)
        (λ s' e' p. run-IsApart events s' e' (
          subst (λ q. All (Guesses env secret) (received_frames env.platform events q)) (sym p)
            later))
  run-IsApart (read_error ∷ events) s e h = stop-IsApart s fails events (inr refl) e
  run-IsApart (shutdown ∷ events) s e h = stop-IsApart s closes events (inl refl) e

-- On a server with a password, a client none of whose frames is an AUTH command that gives it cannot reach
-- the store: the session goes, reply for reply, as it goes without other tasks on any other store, which
-- that session leaves as it is, and the connection stays unauthenticated.
pub run_locked :
    (env : Environment) (s : Session) (secret : Bytes) (store : Store) (events : List Event)
    → IsLocked secret s.connection
    → All (Guesses env secret) (received_frames env.platform events s.parser)
    → (run (alone env) events (record s { store = store }) ≡ with_store store (run env events s))
      × ((run env events s).0.connection ≡ s.connection)
run_locked env s secret store events locked h =
    run-IsApart env secret store s.connection locked events s refl h
