-- ===== src/Parser/Panics.antt =====
-- When `parse` (src/parser.rs) panics: the allocation of an array, and no index out of bounds.
use redlike.Prelude.{ℕ, ◌<◌, ◌≡◌, ◌⊎◌, Option, none, some, [], ◌∷◌, take, Bytes, ℤ, pos}
use redlike.Text.Decimal.{parse_i64}
use redlike.Frame.{Frame}
use redlike.Parser.{Parser, Parsed, ok, err, Platform, find_crlf}
use redlike.Parser.Turn.{Turn, again, found, pending, failed, panicked}
use redlike.Parser.Run.{Run}
use redlike.Parser.Trace.{Trace}

-- The one is what is left of the other behind some of its bytes.
abbrev IsSuffix : Bytes → Bytes → Type 0
IsSuffix s [] = s ≡ []
IsSuffix s (b ∷ t) = (s ≡ b ∷ t) ⊎ IsSuffix s t

module _ (platform : Platform) where
  -- A line stands at the front that reads as a number beyond the largest capacity.
  abbrev pub StartsLarge : Bytes → Type 0
  StartsLarge s =
      (at : ℕ) × (n : ℕ) × (find_crlf s ≡ some at)
      × (parse_i64 (take at s) ≡ some (pos n))
      × (platform.max_capacity < n)

  -- Such a line stands somewhere.
  abbrev pub HasLarge : Bytes → Type 0
  HasLarge [] = ⊥
  HasLarge (b ∷ s) = StartsLarge (b ∷ s) ⊎ HasLarge s

  -- A turn goes on behind some of the bytes, and panics only at such a line.
  abbrev Cuts : Bytes → Turn → Type 0
  Cuts s (again p) = IsSuffix p.buf s
  Cuts s (found f p) = IsSuffix p.buf s
  Cuts s (pending p) = Unit
  Cuts s (failed e p) = Unit
  Cuts s panicked = HasLarge s

  -- A length that was read stands in a line at the front.
  abbrev Reads : Bytes → Parsed (Option ℤ) × Parser → Type 0
  Reads s (ok (some l), q) =
      IsSuffix q.buf s × ((at : ℕ) × (find_crlf s ≡ some at) × (parse_i64 (take at s) ≡ some l))
  Reads s (ok none, q) = Unit
  Reads s (err e, q) = Unit
