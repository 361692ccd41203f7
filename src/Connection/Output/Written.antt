-- ===== src/Connection/Output/Written.antt =====
-- What a session writes, from one frame on to the whole run (src/connection.rs).
use redlike.Prelude.{
  ℕ, suc, ◌+◌, ◌≤◌, ◌<◌, take, Bytes, ◌⊎◌, ◌≡◌, ◌≢◌, refl, sym, ap, ◌∙◌, List, [], ◌∷◌, ◌++◌,
  append-nil, append_assoc, All, All-append, length, length-append, arith, codes, Bool-cases, inl,
  inr,
}
use redlike.Text.Utf8.{is_utf8}
use redlike.Frame.{Frame, simple_error, to_frames, to_bytes}
use redlike.Frame.Laws.{all_bytes}
use redlike.Parser.{ParseResult, complete, partial, Platform, IsMemchr, find_crlf, position}
use redlike.Parser
use redlike.Parser.Run
use redlike.Parser.Run.{returned}
use redlike.Command.{
  Command, try_from, Result, ok, err, unknown_command, wrong_arity, wrong_argument_type,
  invalid_command_frame, io,
}
use redlike.Store.{Store, Outcome, returns, panics}
use redlike.Connection.{Connection, ProcessOutcome, quits, noops, respond, process_command}
use redlike.Connection.Session.{
  Environment, Session, Flow, continues, closes, fails, aborts, stuck, Event, received, read_error,
  shutdown, and_then, send_response, finish, handle, handle_frames, handle_parsed, handle_event,
  run,
}
use redlike.Connection.Output.Answers.{
  IsReply, IsAnswer, process_command-IsAnswer, try_from-ne-noop,
}

all_bytes-append :
    (xs ys : List Frame)
    → all_bytes (to_frames (xs ++ ys)) ≡ all_bytes (to_frames xs) ++ all_bytes (to_frames ys)
unfolding all_bytes
all_bytes-append [] ys = refl
all_bytes-append (x ∷ xs) ys = simp (all_bytes-append xs ys, append_assoc)

-- Some bytes of one more reply, which could not be written to its end: its frame is not among those answered.
abbrev pub IsCut : Session × Flow → ℕ → Bytes → Type 0
IsCut r answered tail =
    (r.1 ≡ fails)
    × (answered < r.0.handled)
    × ((reply : Frame) × IsReply reply × ((n : ℕ) × (tail ≡ take n (to_bytes reply))))

-- The bytes written between two sessions are those of replies, one for each frame that was handled if the
-- session goes on, and at most one if it has been left; and behind them, if writing failed, some bytes of
-- one more.
pub record Wrote (s : Session) (r : Session × Flow) : Type 0 where
  pub replies : List Frame
  pub tail : Bytes
  pub each : All IsReply replies
  pub bytes : r.0.output ≡ s.output ++ (all_bytes (to_frames replies) ++ tail)
  pub cut : (tail ≡ []) ⊎ IsCut r (length replies + s.handled) tail
  pub counted : length replies + s.handled ≤ r.0.handled
  pub answered : r.1 ≡ continues → length replies + s.handled ≡ r.0.handled

pub Wrote-tail : {s : Session} {r : Session × Flow} (w : Wrote s r) → r.1 ≢ fails → w.tail ≡ []
Wrote-tail w ne = elim w.cut [ inl e ↦ e | inr c ↦ absurd (ne c.0) ]

-- The bytes, where no reply was cut.
pub Wrote-whole :
    {s : Session} {r : Session × Flow} (w : Wrote s r)
    → r.1 ≢ fails
    → r.0.output ≡ s.output ++ all_bytes (to_frames w.replies)
Wrote-whole {s = s} w ne =
    w.bytes
    ∙ ap (λ l. s.output ++ (all_bytes (to_frames w.replies) ++ l)) (Wrote-tail w ne)
    ∙ ap (λ l. s.output ++ l) (append-nil (all_bytes (to_frames w.replies)))

-- Nothing is written.
silent :
    (s t : Session) (flow : Flow)
    → t.output ≡ s.output
    → s.handled ≤ t.handled
    → (flow ≡ continues → s.handled ≡ t.handled)
    → Wrote s (t, flow)
unfolding all_bytes
silent s t flow same le eq = record {
  replies = [];
  tail = [];
  each = tt;
  bytes = same ∙ sym (append-nil s.output);
  cut = inl refl;
  counted = omega arith;
  answered = λ e. omega (arith, eq e);
}

-- The rest of the session takes no part in it.
within :
    (s : Session) (c : Connection) (store : Store) (p : Parser.Parser) (r : Session × Flow)
    → Wrote (record s { connection = c; store = store; parser = p }) r
    → Wrote s r
within s c store p r w = record {
  replies = w.replies;
  tail = w.tail;
  each = w.each;
  bytes = w.bytes;
  cut = w.cut;
  counted = w.counted;
  answered = w.answered;
}

-- What is written before and behind, in order.
pub both : (s t : Session) (r : Session × Flow) → Wrote s (t, continues) → Wrote t r → Wrote s r
both s t r a b = record {
  replies = a.replies ++ b.replies;
  tail = b.tail;
  each = All-append IsReply a.replies b.replies a.each b.each;
  bytes =
      b.bytes
      ∙ ap (λ l. l ++ (all_bytes (to_frames b.replies) ++ b.tail)) (Wrote-whole a (λ e. cc))
      ∙ simp (all_bytes-append, append_assoc);
  cut = elim b.cut [
    | inl e ↦ inl e
    | inr (left, lt, part) ↦
        inr (left, omega (arith, lt, a.answered refl, length-append a.replies b.replies), part)
  ];
  counted = omega (arith, b.counted, a.answered refl, length-append a.replies b.replies);
  answered = λ e. omega (arith, b.answered e, a.answered refl, length-append a.replies b.replies);
}

and_then-Wrote :
    (s : Session) (r : Session × Flow) (rest : Session → Session × Flow)
    → Wrote s r
    → ((t : Session) → Wrote t (rest t))
    → Wrote s (and_then r rest)
unfolding and_then
and_then-Wrote s (t, continues) rest w h = both s t (rest t) w (h t)
and_then-Wrote s (t, closes) rest w h = w
and_then-Wrote s (t, fails) rest w h = w
and_then-Wrote s (t, aborts) rest w h = w
and_then-Wrote s (t, stuck) rest w h = w

module _ (env : Environment) where
  send_response-Wrote : (s : Session) (r : Frame) → IsReply r → Wrote s (send_response env s r)
  unfolding send_response all_bytes
  send_response-Wrote s r h = elim (Bool-cases (env.writable s.handled)) [
    | inl w ↦ rw w (record {
      replies = r ∷ [];
      tail = [];
      each = (h, tt);
      bytes = simp append-nil;
      cut = inl refl;
      counted = omega arith;
      answered = λ e. omega arith;
    })
    | inr w ↦ rw w (record {
      replies = [];
      tail = take (env.sent s.handled) (to_bytes r);
      each = tt;
      bytes = refl;
      cut = inr (refl, omega arith, (r, h, (env.sent s.handled, refl)));
      counted = omega arith;
      answered = λ e. absurd (cc);
    })
  ]

  finish-Wrote : (s : Session) (o : Outcome ProcessOutcome) → IsAnswer o → Wrote s (finish env s o)
  unfolding finish IsAnswer
  finish-Wrote s (returns noops) h = absurd h
  finish-Wrote s (returns quits) h =
      silent s (record s { handled = suc s.handled }) closes refl (omega arith) (λ e. absurd (cc))
  finish-Wrote s (returns (respond r)) h = send_response-Wrote s r h
  finish-Wrote s panics h =
      silent s (record s { handled = suc s.handled }) aborts refl (omega arith) (λ e. absurd (cc))

  pub handle-Wrote :
      (s : Session) (f : Frame) (r : Result Command) → try_from f ≡ r → Wrote s (handle env s r)
  unfolding handle IsReply IsAnswer is_utf8 find_crlf position
  handle-Wrote s f (ok command) e =
      let store : Store = env.others s.handled s.store in
      let now : ℕ = env.clock s.handled in
      let (c, store', outcome) =
        process_command env.constant_time_eq s.connection store now command in
      within s c store' s.parser (finish env (record s { connection = c; store = store' }) outcome)
        (finish-Wrote (record s { connection = c; store = store' }) outcome
          (process_command-IsAnswer env.constant_time_eq s.connection store now command
            (try_from-ne-noop f command e)))
  handle-Wrote s f (err unknown_command) e =
      finish-Wrote s (returns (respond (simple_error (codes "Unknown Command")))) (refl, refl)
  handle-Wrote s f (err (wrong_arity command given expected)) e =
      finish-Wrote s (returns (respond (simple_error (codes "Wrong number of arguments"))))
        (refl, refl)
  handle-Wrote s f (err wrong_argument_type) e =
      finish-Wrote s (returns (respond (simple_error (codes "Wrong Argument Type")))) (refl, refl)
  handle-Wrote s f (err (io x)) e =
      silent s (record s { handled = suc s.handled }) closes refl (omega arith) (λ e. absurd (cc))
  handle-Wrote s f (err invalid_command_frame) e =
      silent s (record s { handled = suc s.handled }) closes refl (omega arith) (λ e. absurd (cc))

  pub handle_frames-Wrote : (fs : List Frame) (s : Session) → Wrote s (handle_frames env fs s)
  unfolding handle_frames
  handle_frames-Wrote [] s = silent s s continues refl (omega arith) (λ e. refl)
  handle_frames-Wrote (f ∷ fs) s =
      and_then-Wrote s (handle env s (try_from f)) (handle_frames env fs)
        (handle-Wrote s f (try_from f) refl) (handle_frames-Wrote fs)

  -- A session that is left without a word.
  left : (s : Session) (flow : Flow) → flow ≢ continues → Wrote s (s, flow)
  left s flow ne = silent s s flow refl (omega arith) (λ e. refl)

  handle_parsed-Wrote : (s : Session) (r : Run.Run) → Wrote s (handle_parsed env s r)
  unfolding handle_parsed
  handle_parsed-Wrote s (returned (complete frames) p) =
      within s s.connection s.store p (handle_frames env frames (record s { parser = p }))
        (handle_frames-Wrote frames (record s { parser = p }))
  handle_parsed-Wrote s (returned (partial frames x) p) =
      and_then-Wrote s (handle_frames env frames (record s { parser = p })) (λ t. (t, closes))
        (within s s.connection s.store p (handle_frames env frames (record s { parser = p }))
          (handle_frames-Wrote frames (record s { parser = p })))
        (λ t. left t closes (λ e. cc))
  handle_parsed-Wrote s Run.panicked = left s aborts (λ e. cc)
  handle_parsed-Wrote s Run.out_of_fuel = left s stuck (λ e. cc)

  handle_event-Wrote : (s : Session) (e : Event) → Wrote s (handle_event env s e)
  unfolding handle_event
  handle_event-Wrote s (received []) = left s closes (λ e. cc)
  handle_event-Wrote s (received (b ∷ bs)) =
      handle_parsed-Wrote s (Run.parse env.platform s.parser (b ∷ bs))
  handle_event-Wrote s read_error = left s fails (λ e. cc)
  handle_event-Wrote s shutdown = left s closes (λ e. cc)

  pub run-Wrote : (es : List Event) (s : Session) → Wrote s (run env es s)
  unfolding run
  run-Wrote [] s = silent s s continues refl (omega arith) (λ e. refl)
  run-Wrote (e ∷ es) s =
      and_then-Wrote s (handle_event env s e) (run env es) (handle_event-Wrote s e) (run-Wrote es)
