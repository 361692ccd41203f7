-- ===== src/Parser/Inline.antt =====
-- Inline commands (src/parser.rs): lines of words, as one types them, are read as requests.
use redlike.Prelude.{
  ◌<◌, ◌≡◌, ◌≢◌, refl, subst, some, List, [], ◌∷◌, ◌++◌, map, append_assoc, append-nil, arith,
  length, take-length, drop-length, All, Bytes,
}
use redlike.Text.Utf8.{is_utf8-ascii}
use redlike.Text.Whitespace.Words.{
  IsBlank, IsWord, IsInner, spaced, AreSpaced, words_of, split_whitespace-spaced, spaced-IsInner,
}
use redlike.Frame.{Frame, bulk, array, to_frames}
use redlike.Parser.{
  Parser, Level, Platform, IsMemchr, complete, start, reading_inline, new, position, extend,
}
use redlike.Parser.Turn.{again, found, advance, start_turn, inline_turn, words_turn}
use redlike.Parser.Run.{returned, parse, deliver}
use redlike.Parser.Trace.{Trace, again_step, found_step, pending_end, parse-eq_iff}
use redlike.Parser.Headers.{at}

-- Words with blanks behind them, the last word, and blanks before the end of the line.
pub record Line : Type 0 where
  pub pieces : List (Bytes × Bytes)
  pub last : Bytes
  pub end : Bytes

abbrev pub text : Line → Bytes
text l = spaced l.pieces l.last l.end

abbrev pub lines_bytes : List Line → Bytes
lines_bytes [] = []
lines_bytes (l ∷ ls) = text l ++ b'\n' ∷ lines_bytes ls

-- The request with these words.
abbrev pub line_request : Line → Frame
line_request l = array (to_frames (map (λ w. bulk (some w)) (words_of l.pieces l.last)))

-- The line does not begin as a frame of another kind.
abbrev pub StartsInline : Bytes → Type 0
StartsInline [] = ⊥
StartsInline (b ∷ s) = (b ≢ b'+') × (b ≢ b'$') × (b ≢ b'*') × (b ≢ b'-') × (b ≢ b':')

pub record IsTyped (l : Line) : Type 0 where
  pub spaced_out : AreSpaced l.pieces
  pub last_word : IsWord l.last
  pub blank_end : All IsBlank l.end
  pub starts : StartsInline (text l)

position-line :
    (s rest : Bytes) → All IsInner s → position b'\n' (s ++ b'\n' ∷ rest) ≡ some (length s)
unfolding position
position-line [] rest h = refl
position-line (b ∷ s) rest (hb, h) = ground (arith, hb.1, position-line s rest h)

inner-ascii : (s : Bytes) → All IsInner s → All (λ b. b < 0x80) s
inner-ascii [] h = tt
inner-ascii (b ∷ s) (hb, h) = (hb.0, inner-ascii s h)

start-inline :
    (s rest : Bytes) (stack : List Level)
    → StartsInline s
    → start_turn (at start (s ++ rest) stack) ≡ again (at reading_inline (s ++ rest) stack)
unfolding start_turn
start-inline [] rest stack h = absurd h
start-inline (b ∷ s) rest stack h = ground arith

words_turn-words :
    (pieces : List (Bytes × Bytes)) (last : Bytes) (p : Parser)
    → words_turn (words_of pieces last) p
      ≡ found (array (to_frames (map (λ w. bulk (some w)) (words_of pieces last)))) p
unfolding words_turn
words_turn-words [] last p = refl
words_turn-words (x ∷ pieces) last p = refl

module _ (platform : Platform) (law : IsMemchr platform) where
  inline_turn-line :
      (l : Line) (rest : Bytes) (stack : List Level)
      → IsTyped l
      → inline_turn platform (at reading_inline (text l ++ b'\n' ∷ rest) stack)
        ≡ found (line_request l) (at start rest stack)
  unfolding inline_turn
  inline_turn-line l rest stack h =
      let inner : All IsInner (text l) =
        spaced-IsInner l.pieces l.last l.end h.spaced_out h.last_word h.blank_end in
      rw
        (
          law.finds_first b'\n' (text l ++ b'\n' ∷ rest),
          position-line (text l) rest inner,
          take-length (text l) (b'\n' ∷ rest),
          drop-length (text l) (b'\n' ∷ rest),
          is_utf8-ascii (text l) (inner-ascii (text l) inner),
          split_whitespace-spaced l.pieces l.last l.end h.spaced_out h.last_word h.blank_end,
          inline_turn,
        )
        (words_turn-words l.pieces l.last (at start rest stack))

  reads_lines :
      (ls : List Line) (output : List Frame)
      → All IsTyped ls
      → Trace platform
          (returned (complete (output ++ map line_request ls)) new)
          (at start (lines_bytes ls) [])
          output
  unfolding advance deliver start_turn
  reads_lines [] output h = pending_end new refl (rw append-nil refl)
  reads_lines (l ∷ ls) output (h, hs) =
      again_step (at reading_inline (text l ++ b'\n' ∷ lines_bytes ls) [])
        (start-inline (text l) (b'\n' ∷ lines_bytes ls) [] h.starts)
        (found_step (line_request l) (at start (lines_bytes ls) [])
          (inline_turn-line l (lines_bytes ls) [] h)
          (subst
            (λ o.
              Trace platform (returned (complete o) new) (at start (lines_bytes ls) [])
                (output ++ line_request l ∷ []))
            (append_assoc output (line_request l ∷ []) (map line_request ls))
            (reads_lines ls (output ++ line_request l ∷ []) hs)))

  -- Lines that one types are read as requests, in order, each once, and the parser is as new: each line, of
  -- one or more words of visible characters with blanks between them and before its end, gives the array
  -- of its words, unless it begins with a byte that marks another kind of frame. Carriage returns before
  -- the line's end are blanks. `memchr` is as documented.
  pub parse-lines :
      (ls : List Line)
      → All IsTyped ls
      → parse platform new (lines_bytes ls) ≡ returned (complete (map line_request ls)) new
  unfolding extend
  parse-lines ls h = (parse-eq_iff platform law new (lines_bytes ls) _).1 (reads_lines ls [] h)
