-- ===== src/Connection/Shared.antt =====
-- A pipeline of requests (src/connection.rs) while other connections work on the same store: the replies are
-- those of one sequential history of them all.
pub mod Others
use redlike.Prelude.{
  ℕ, zero, suc, ◌≤◌, ◌≡◌, refl, sym, ap, ◌∙◌, subst, true, none, List, [], ◌∷◌, ◌++◌, map,
  append-nil, length, drop, drop-length,
}
use mathlib.Core.Path.{ap₂}
use redlike.Connection.Ends.{and_then-continues}
use redlike.Frame.{Frames, to_frames}
use redlike.Frame.Laws.{all_bytes, from-to_frames}
use redlike.Parser.{IsMemchr, complete}
use redlike.Parser
use redlike.Parser.Run.{returned}
use redlike.Parser.RoundTrip.{parse-to_bytes}
use redlike.Store.{Key, Store, StoreValue, del, sweep_heap, sweep_map}
use redlike.Store
use redlike.Store.Map.{get-empty}
use redlike.Store.View.{live, drop_all-live}
use redlike.Store.Spec.{Operation, del_op, Answer, perform, Dictionary, spec_perform, spec_answers}
use redlike.Store.Refinement.{Agrees, Agrees-later, Agrees-remove, perform-Agrees}
use redlike.Connection.{is_authorized}
use redlike.Connection.Session.{
  Environment, Session, Flow, continues, received, and_then, handle_frames, handle_parsed,
  handle_event, run, opened,
}
use redlike.Connection.Requests.{request}
use redlike.Connection.Replies.{
  AreServed, replies, next, next-output, handle-request, received-parsed, all_bytes-ne-nil,
  requests-Sendable,
}
use redlike.Connection.Shared.Others.{
  History, Acts, Act, operates, deletes, takes_due, drops, acted, operations, AreBetween, since,
  IsShared, spec_performed, acted-Agrees,
}

-- What everybody does, in the order in which it is done.
unfoldable pub joint : Environment → (ℕ → History) → ℕ → List Operation → History
joint env foreign n [] = []
joint env foreign n (op ∷ ops) = foreign n ++ (env.clock n, op) ∷ joint env foreign (suc n) ops

-- The answers in it that are the connection's own.
abbrev pub keep : List Answer → (List Answer → List Answer) → List Answer
keep [] rest = []
keep (a ∷ answers) rest = a ∷ rest answers

unfoldable pub own : (ℕ → History) → ℕ → List Operation → List Answer → List Answer
own foreign n [] answers = []
own foreign n (op ∷ ops) answers =
    keep (drop (length (foreign n)) answers) (own foreign (suc n) ops)

spec_answers-append :
    (d : Dictionary) (h k : History)
    → spec_answers d (h ++ k) ≡ spec_answers d h ++ spec_answers (spec_performed d h) k
unfolding spec_answers spec_performed
spec_answers-append d [] k = refl
spec_answers-append d ((t, op) ∷ h) k =
    ap (λ l. (spec_perform d t op).1 ∷ l) (spec_answers-append (spec_perform d t op).0 h k)

length-spec_answers : (d : Dictionary) (h : History) → length (spec_answers d h) ≡ length h
unfolding spec_answers
length-spec_answers d [] = refl
length-spec_answers d ((t, op) ∷ h) = ap suc (length-spec_answers (spec_perform d t op).0 h)

drop-spec_answers :
    (d : Dictionary) (h k : History)
    → drop (length h) (spec_answers d (h ++ k)) ≡ spec_answers (spec_performed d h) k
drop-spec_answers d h k =
    ap₂ drop (sym (length-spec_answers d h)) (spec_answers-append d h k)
    ∙ drop-length (spec_answers d h) (spec_answers (spec_performed d h) k)

module _ (env : Environment) (acts : ℕ → Acts) (shared : IsShared env acts) where
  -- What the others ask of the store before each command.
  abbrev pub foreign : ℕ → History
  foreign n = operations (acts n)

  -- The map as it is when the command is executed.
  abbrev pub seen : ℕ → Dictionary → Dictionary
  seen n d = spec_performed d (foreign n)

  -- The session has gone on, and sent the replies.
  abbrev pub Answered : List Operation → Dictionary → Session → Session × Flow → Type 0
  Answered ops d s r =
      (r.1 ≡ continues)
      × (r.0.output
          ≡ s.output
            ++ replies ops
                (own foreign s.handled ops (spec_answers d (joint env foreign s.handled ops))))

  own-cons :
      (n : ℕ) (d : Dictionary) (op : Operation) (ops : List Operation)
      → own foreign n (op ∷ ops) (spec_answers d (joint env foreign n (op ∷ ops)))
        ≡ (spec_perform (seen n d) (env.clock n) op).1
          ∷ own foreign (suc n) ops (
              spec_answers
                (spec_perform (seen n d) (env.clock n) op).0
                (joint env foreign (suc n) ops))
  unfolding own joint spec_answers
  own-cons n d op ops =
      ap (λ l. keep l (own foreign (suc n) ops))
        (drop-spec_answers d (foreign n) ((env.clock n, op) ∷ joint env foreign (suc n) ops))

  next-Agrees :
      (s : Session) (d : Dictionary) (op : Operation)
      → Agrees (since env s.handled) s.store.hashmap d
      → Agrees
          (env.clock s.handled)
          (next env s op).store.hashmap
          (spec_perform (seen s.handled d) (env.clock s.handled) op).0
        × ((perform (env.others s.handled s.store) (env.clock s.handled) op).1
            ≡ (spec_perform (seen s.handled d) (env.clock s.handled) op).1)
  next-Agrees s d op agrees =
      perform-Agrees (env.others s.handled s.store) (env.clock s.handled) (seen s.handled d) op (
        subst (λ (x : Store). Agrees (env.clock s.handled) x.hashmap (seen s.handled d))
          (sym (shared.performs s.handled s.store))
          (acted-Agrees (acts s.handled) s.store d (since env s.handled) (env.clock s.handled)
            (shared.between s.handled) agrees))

  pub frames-Answered :
      (ops : List Operation) (s : Session) (d : Dictionary)
      → is_authorized s.connection ≡ true
      → AreServed env s.handled ops
      → Agrees (since env s.handled) s.store.hashmap d
      → Answered ops d s (handle_frames env (map request ops) s)
  unfolding handle_frames
  frames-Answered [] s d a h agrees = (refl, sym (append-nil s.output))
  frames-Answered (op ∷ ops) s d a (h, hs) agrees =
      let t = env.clock s.handled in
      let r = spec_perform (seen s.handled d) t op in
      let (agrees', same) = next-Agrees s d op agrees in
      let (goes_on, sent) = frames-Answered ops (next env s op) r.0 a hs agrees' in
      subst (λ x. Answered (op ∷ ops) d s (and_then x (handle_frames env (map request ops))))
        (sym (handle-request env s op (shared.writable s.handled) a h))
        (unfold and_then in
          (
            goes_on,
            sent
                ∙ next-output env s op r.1
                    (replies ops (
                      own foreign (suc s.handled) ops
                        (spec_answers r.0 (joint env foreign (suc s.handled) ops))))
                    same
                ∙ ap (λ l. s.output ++ replies (op ∷ ops) l) (sym (own-cons s.handled d op ops)),
          ))

  -- While other connections and the sweeper work on the store, a pipeline of requests over a new store is
  -- answered, byte for byte and in order, as in one sequential history of the operations of all, on the
  -- map of the README: each request stands in it behind what the others do before it. The others may do
  -- anything while a request does not hold the lock, the phases of a sweep apart and DEL with an instant
  -- that it has read before. A request of the pipeline itself has the lock at the instant that it reads: for
  -- its own DEL, which reads the clock before it waits for the lock, this means that nobody else has the
  -- lock at a later instant before it. This holds on a server without a password, for requests that fit on
  -- the wire and expirations that fit an instant, while the clock does not go back, replies can be
  -- written, and an array of three can be allotted. `memchr` is as documented.
  pub run-Answered :
      IsMemchr env.platform
      → (op : Operation) (ops : List Operation) → 3 ≤ env.platform.max_capacity
      → AreServed env 0 (op ∷ ops)
      → Answered
          (op ∷ ops)
          (λ k. none)
          (opened none Store.new)
          (run env
            (received (all_bytes (to_frames (map request (op ∷ ops)))) ∷ [])
            (opened none Store.new))
  unfolding run
  run-Answered law op ops cap served =
      let fs : Frames = to_frames (map request (op ∷ ops)) in
      let s : Session = opened none Store.new in
      subst (λ r. Answered (op ∷ ops) (λ k. none) s r)
        (sym (
          and_then-continues (handle_event env s (received (all_bytes fs)))
          ∙ received-parsed env s (all_bytes fs) (all_bytes-ne-nil op ops)
          ∙ ap (handle_parsed env s) (
              parse-to_bytes env.platform law fs
                (requests-Sendable env.platform.max_capacity env 0 (op ∷ ops) cap served)
              ∙ ap (λ l. returned (complete l) Parser.new)
                  (from-to_frames (map request (op ∷ ops))))
          ∙ (unfold handle_parsed in refl)))
        (frames-Answered (op ∷ ops) s (λ k. none) (unfold is_authorized in refl) served
          (λ k. ap (live 0) (get-empty k)))
