-- ===== src/Command/Requests.antt =====
-- Which frames are read as which command, and which error the others give.
use mathlib.Core.List.{cons-ne-nil}
use redlike.Frame.Laws.{to-from_frames}
use redlike.Prelude.{
  ℕ, ◌≡◌, ◌⊎◌, ◌↔◌, sym, ◌∙◌, map, ◌≢◌, refl, ap, true, none, some, List, [], ◌∷◌, arith, length,
  Bytes, inl, inr, codes,
}
use redlike.Frame.{Frame, bulk, array, nil, cons, from_frames, to_frames}
use redlike.Command.{
  Command, Error, wrong_arity, Result, ok, err, ◌>>=◌, collect, bulk_args, eq_ignore_ascii_case,
  dispatch, split_first, try_from,
}
use redlike.Command.Spelling.{request, try_from-request, dispatch-spelling}
use redlike.Command.Syntax.{Spells, dispatch-Syntax, dispatch-Spells}

collected {ℓ} : {A : Type ℓ} (r : Result A) → ((a : A) × (r ≡ ok a)) ⊎ ((e : Error) × (r ≡ err e))
collected (ok a) = inl (a, refl)
collected (err e) = inr (e, refl)

-- The words of a frame that `bulk_args` takes.
collect-inverse :
    (fs : List Frame) (words : List Bytes)
    → collect fs ≡ ok words
    → fs ≡ map (λ v. bulk (some v)) words
unfolding collect
collect-inverse [] words h = ground arith
collect-inverse (bulk (some v) ∷ fs) words h = elim (collected (collect fs)) [
  | inl (ws, e) ↦ ground (arith, collect-inverse fs ws e)
  | inr (x, e) ↦ absurd (ground arith)
]
collect-inverse (bulk none ∷ fs) words h = cc
collect-inverse (_ ∷ fs) words h = cc

bulk_args-inverse :
    (f : Frame) (words : List Bytes) → bulk_args f ≡ ok words → (f ≡ request words) × (words ≢ [])
unfolding bulk_args
bulk_args-inverse (array (cons f fs)) [] h = absurd (cc (collect-inverse (f ∷ from_frames fs) [] h))
bulk_args-inverse (array (cons f fs)) (w ∷ ws) h = (
  ap array (
      sym (to-from_frames (cons f fs))
      ∙ ap to_frames (collect-inverse (f ∷ from_frames fs) (w ∷ ws) h)),
  cons-ne-nil w ws,
)
bulk_args-inverse (array nil) words h = cc
bulk_args-inverse _ words h = cc

-- A frame whose words mean the command.
abbrev pub Requests : Frame → Command → Type 0
Requests f c = (cmd : Bytes) × (argv : List Bytes) × (f ≡ request (cmd ∷ argv)) × Spells cmd argv c

-- What the words that `bulk_args` found make of the whole.
words-Requests :
    (f : Frame) (c : Command) (args : List Bytes)
    → bulk_args f ≡ ok args
    → (split_first args >>= λ (cmd, argv). dispatch cmd argv) ≡ ok c
    → Requests f c
unfolding split_first
words-Requests f c [] e h = cc
words-Requests f c (cmd ∷ argv) e h =
    (cmd, argv, (bulk_args-inverse f (cmd ∷ argv) e).0, dispatch-Spells c cmd argv h)

try_from-Requests : (f : Frame) (c : Command) → try_from f ≡ ok c → Requests f c
unfolding try_from
try_from-Requests f c h = elim (collected (bulk_args f)) [
  | inl (args, e) ↦
      words-Requests f c args e
        (sym (ap (λ r. r >>= λ a. split_first a >>= λ (cmd, argv). dispatch cmd argv) e) ∙ h)
  | inr (x, e) ↦ absurd (cc)
]

Requests-try_from : (f : Frame) (c : Command) → Requests f c → try_from f ≡ ok c
Requests-try_from f c (cmd, argv, same, (kw, spelled, meaning)) =
    rw (same, try_from-request cmd argv)
      (dispatch-spelling cmd kw argv spelled ∙ dispatch-Syntax meaning)

-- A frame is read as a command exactly when it is a non-empty array of bulk strings, the first of
-- them the command's word in any case, and the others that command's arguments.
pub try_from-eq_iff : (f : Frame) (c : Command) → (try_from f ≡ ok c) ↔ Requests f c
try_from-eq_iff f c = (try_from-Requests f c, Requests-try_from f c)

-- A command's word, the name that its errors carry, and how many arguments it takes.
pub data Arity : Bytes → Bytes → ℕ → Type 0 where
  ping_arity : Arity (codes "ping") (codes "PING") 0
  quit_arity : Arity (codes "quit") (codes "QUIT") 0
  get_arity : Arity (codes "get") (codes "GET") 1
  set_arity : Arity (codes "set") (codes "SET") 2
  del_arity : Arity (codes "del") (codes "DEL") 1
  expire_arity : Arity (codes "expire") (codes "EXPIRE") 2
  ttl_arity : Arity (codes "ttl") (codes "TTL") 1
  auth_arity : Arity (codes "auth") (codes "AUTH") 1

dispatch-Arity :
    {kw shown : Bytes} {n : ℕ}
    → Arity kw shown n
    → (argv : List Bytes) → length argv ≢ n
    → dispatch kw argv ≡ err (wrong_arity shown (length argv) n)
unfolding dispatch eq_ignore_ascii_case
dispatch-Arity ping_arity [] h = absurd (h refl)
dispatch-Arity ping_arity (_ ∷ _) h = refl
dispatch-Arity quit_arity [] h = absurd (h refl)
dispatch-Arity quit_arity (_ ∷ _) h = refl
dispatch-Arity get_arity [] h = refl
dispatch-Arity get_arity (_ ∷ []) h = absurd (h refl)
dispatch-Arity get_arity (_ ∷ _ ∷ _) h = refl
dispatch-Arity set_arity [] h = refl
dispatch-Arity set_arity (_ ∷ []) h = refl
dispatch-Arity set_arity (_ ∷ _ ∷ []) h = absurd (h refl)
dispatch-Arity set_arity (_ ∷ _ ∷ _ ∷ _) h = refl
dispatch-Arity del_arity [] h = refl
dispatch-Arity del_arity (_ ∷ []) h = absurd (h refl)
dispatch-Arity del_arity (_ ∷ _ ∷ _) h = refl
dispatch-Arity expire_arity [] h = refl
dispatch-Arity expire_arity (_ ∷ []) h = refl
dispatch-Arity expire_arity (_ ∷ _ ∷ []) h = absurd (h refl)
dispatch-Arity expire_arity (_ ∷ _ ∷ _ ∷ _) h = refl
dispatch-Arity ttl_arity [] h = refl
dispatch-Arity ttl_arity (_ ∷ []) h = absurd (h refl)
dispatch-Arity ttl_arity (_ ∷ _ ∷ _) h = refl
dispatch-Arity auth_arity [] h = refl
dispatch-Arity auth_arity (_ ∷ []) h = absurd (h refl)
dispatch-Arity auth_arity (_ ∷ _ ∷ _) h = refl

-- A request with a known word in any case and another number of arguments than the word takes is
-- refused with the command's name, the number given and the number expected.
pub try_from-Arity :
    {kw shown : Bytes} {n : ℕ}
    → Arity kw shown n
    → (cmd : Bytes) (argv : List Bytes) → eq_ignore_ascii_case cmd kw ≡ true
    → length argv ≢ n
    → try_from (request (cmd ∷ argv)) ≡ err (wrong_arity shown (length argv) n)
try_from-Arity {kw} arity cmd argv spelled h =
    try_from-request cmd argv ∙ dispatch-spelling cmd kw argv spelled ∙ dispatch-Arity arity argv h
