-- ===== src/Connection/Malformed.antt =====
-- A client that sends requests and then what is not the protocol (src/connection.rs, src/parser.rs).
use redlike.Prelude.{
  ℕ, ◌≤◌, ◌≡◌, ◌≢◌, refl, ap, ◌∙◌, none, List, [], ◌∷◌, ◌++◌, map, append-nil, Bytes,
}
use redlike.Frame.{Frames, to_frames}
use redlike.Frame.Laws.{all_bytes, from-to_frames}
use redlike.Parser.{ParseError, IsMemchr, complete, partial}
use redlike.Parser
use redlike.Parser.Run
use redlike.Parser.Run.{returned}
use redlike.Parser.RoundTrip.{parse-to_bytes}
use redlike.Parser.Streaming
use redlike.Parser.Streaming.{prefixed, parse-append}
use redlike.Store
use redlike.Store.Map.{get-empty}
use redlike.Store.View.{live}
use redlike.Store.Spec.{Operation, spec_answers}
use redlike.Connection.{is_authorized}
use redlike.Connection.Session.{
  Environment, Session, Flow, continues, closes, fails, aborts, stuck, Event, received, and_then,
  handle_frames, handle_parsed, handle_event, run, opened,
}
use redlike.Connection.Requests.{request}
use redlike.Connection.Replies.{
  AreServed, replies, received-parsed, all_bytes-ne-nil, requests-Sendable,
}
use redlike.Connection.Shared.Others.{Acts, operations, IsShared}
use redlike.Connection.Shared.{joint, own, frames-Answered}

append-ne-nil : (a b : Bytes) → a ≢ [] → a ++ b ≢ []
append-ne-nil [] b h e = h refl
append-ne-nil (x ∷ a) b h e = cc

-- What goes on and is then closed does not go on to what follows.
closed :
    (r : Session × Flow) (rest : Session → Session × Flow)
    → r.1 ≡ continues
    → and_then (and_then r (λ s. (s, closes))) rest ≡ (r.0, closes)
unfolding and_then
closed (s, continues) rest e = refl
closed (s, closes) rest e = absurd (cc)
closed (s, fails) rest e = absurd (cc)
closed (s, aborts) rest e = absurd (cc)
closed (s, stuck) rest e = absurd (cc)

module _ (env : Environment) (acts : ℕ → Acts) (shared : IsShared env acts)
    (law : IsMemchr env.platform) (op : Operation) (ops : List Operation)
    (cap : 3 ≤ env.platform.max_capacity) (served : AreServed env 0 (op ∷ ops)) where
  abbrev sent : Frames
  sent = to_frames (map request (op ∷ ops))

  -- The requests are found before the error.
  parse-sent :
      (bad : Bytes) (x : ParseError) (q : Parser.Parser)
      → Run.parse env.platform Parser.new bad ≡ returned (partial [] x) q
      → Run.parse env.platform Parser.new (all_bytes sent ++ bad)
        ≡ returned (partial (map request (op ∷ ops)) x) q
  unfolding Streaming.and_then prefixed
  parse-sent bad x q e =
      parse-append env.platform law Parser.new (all_bytes sent) bad
      ∙ ap (λ r. Streaming.and_then r (λ p. Run.parse env.platform p bad))
          (parse-to_bytes env.platform law sent
              (requests-Sendable env.platform.max_capacity env 0 (op ∷ ops) cap served)
            ∙ ap (λ l. returned (complete l) Parser.new) (from-to_frames (map request (op ∷ ops))))
      ∙ ap (prefixed (map request (op ∷ ops))) e
      ∙ ap (λ l. returned (partial l x) q) (append-nil (map request (op ∷ ops)))

  -- Where requests are followed, in one read, by bytes that the parser refuses, the requests are answered all
  -- the same, in order, as in one sequential history of all operations on the store, and then the
  -- connection is closed, whatever else is sent to it: nothing is sent for the bad bytes. The server is
  -- without a password, and the conditions are those under which requests are answered at all.
  pub run-malformed :
      (bad : Bytes) (x : ParseError) (q : Parser.Parser) (more : List Event)
      → Run.parse env.platform Parser.new bad ≡ returned (partial [] x) q
      → ((run env (received (all_bytes sent ++ bad) ∷ more) (opened none Store.new)).1 ≡ closes)
        × ((run env (received (all_bytes sent ++ bad) ∷ more) (opened none Store.new)).0.output
            ≡ replies (op ∷ ops) (
                own
                  (λ n. operations (acts n))
                  0
                  (op ∷ ops)
                  (spec_answers (λ k. none) (joint env (λ n. operations (acts n)) 0 (op ∷ ops)))))
  unfolding run
  run-malformed bad x q more e =
      let s : Session = opened none Store.new in
      let answered =
        frames-Answered env acts shared (op ∷ ops) (record s { parser = q }) (λ k. none)
          (unfold is_authorized in refl) served (λ k. ap (live 0) (get-empty k)) in
      let left : and_then (handle_event env s (received (all_bytes sent ++ bad))) (run env more)
          ≡ ((handle_frames env (map request (op ∷ ops)) (record s { parser = q })).0, closes) =
        ap (λ r. and_then r (run env more))
          (received-parsed env s (all_bytes sent ++ bad)
              (append-ne-nil (all_bytes sent) bad (all_bytes-ne-nil op ops))
            ∙ ap (handle_parsed env s) (parse-sent bad x q e))
        ∙ (unfold handle_parsed in
            closed (handle_frames env (map request (op ∷ ops)) (record s { parser = q }))
              (run env more) answered.0) in
      (ap (λ r. r.1) left, ap (λ r. r.0.output) left ∙ answered.1)
