-- ===== src/Command/Spelling.antt =====
-- A request's words reach the chain of tests, and a command's name may be spelled in any case.
use redlike.Prelude.{◌≡◌, refl, true, some, List, [], ◌∷◌, map, arith, Bytes, codes}
use redlike.Frame.{Frame, bulk, array, from_frames, to_frames}
use redlike.Command.{ok, collect, eq_ignore_ascii_case, dispatch, try_from}

-- The frame that a client sends for a request of these words.
abbrev pub request : List Bytes → Frame
request words = array (to_frames (map (λ v. bulk (some v)) words))

pub collect-request :
    (words : List Bytes)
    → collect (from_frames (to_frames (map (λ v. bulk (some v)) words))) ≡ ok words
unfolding collect
collect-request [] = refl
collect-request (w ∷ ws) = rw (collect-request ws)

pub try_from-request :
    (cmd : Bytes) (argv : List Bytes) → try_from (request (cmd ∷ argv)) ≡ dispatch cmd argv
unfolding try_from
try_from-request cmd argv = rw (collect-request argv)

-- Two spellings of one word compare alike with every word.
eq_ignore_trans :
    (a b c : Bytes)
    → eq_ignore_ascii_case a b ≡ true
    → eq_ignore_ascii_case a c ≡ eq_ignore_ascii_case b c
unfolding eq_ignore_ascii_case
eq_ignore_trans [] [] c h = refl
eq_ignore_trans [] (y ∷ b) c h = cc
eq_ignore_trans (x ∷ a) [] c h = cc
eq_ignore_trans (x ∷ a) (y ∷ b) [] h = refl
eq_ignore_trans (x ∷ a) (y ∷ b) (z ∷ c) h = ground (arith, eq_ignore_trans a b c)

-- A name may be spelled in any case.
pub dispatch-spelling :
    (cmd kw : Bytes) (argv : List Bytes)
    → eq_ignore_ascii_case cmd kw ≡ true
    → dispatch cmd argv ≡ dispatch kw argv
unfolding dispatch
dispatch-spelling cmd kw argv h = simp (
  eq_ignore_trans cmd kw (codes "ping") h,
  eq_ignore_trans cmd kw (codes "quit") h,
  eq_ignore_trans cmd kw (codes "get") h,
  eq_ignore_trans cmd kw (codes "set") h,
  eq_ignore_trans cmd kw (codes "del") h,
  eq_ignore_trans cmd kw (codes "expire") h,
  eq_ignore_trans cmd kw (codes "ttl") h,
  eq_ignore_trans cmd kw (codes "auth") h,
)
