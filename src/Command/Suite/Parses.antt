-- ===== src/Command/Suite/Parses.antt =====
-- Commands that the unit tests of src/command.rs read.
use redlike.Prelude.{refl, [], ◌∷◌, ◌++◌, codes}
use redlike.Text.Utf8.{is_utf8}
use redlike.Text.Decimal.{parse_u64}
use redlike.Command.{get, set, del, expire, ttl, auth, ping, quit, eq_ignore_ascii_case, try_from}
use redlike.Command.Suite.{Parses}

abbrev GetCommandParses : Type 0
GetCommandParses = Parses (codes "GET" ∷ codes "mykey" ∷ []) (get (codes "mykey"))

abbrev PingCommandParses : Type 0
PingCommandParses = Parses (codes "PING" ∷ []) (ping)

abbrev QuitCommandParses : Type 0
QuitCommandParses = Parses (codes "QUIT" ∷ []) (quit)

abbrev SetCommandParses : Type 0
SetCommandParses =
    Parses (codes "SET" ∷ codes "mykey" ∷ codes "myvalue" ∷ [])
      (set (codes "mykey") (codes "myvalue"))

abbrev DelCommandParses : Type 0
DelCommandParses = Parses (codes "DEL" ∷ codes "mykey" ∷ []) (del (codes "mykey"))

abbrev ExpireCommandParses : Type 0
ExpireCommandParses =
    Parses (codes "EXPIRE" ∷ codes "mykey" ∷ codes "123" ∷ []) (expire (codes "mykey") 123)

abbrev TtlCommandParses : Type 0
TtlCommandParses = Parses (codes "TTL" ∷ codes "mykey" ∷ []) (ttl (codes "mykey"))

abbrev AuthCommandParses : Type 0
AuthCommandParses = Parses (codes "AUTH" ∷ codes "mypass" ∷ []) (auth (codes "mypass"))

abbrev CommandNameIsCaseInsensitive : Type 0
CommandNameIsCaseInsensitive =
    Parses (codes "pInG" ∷ []) (ping)
    × Parses (codes "qUiT" ∷ []) (quit)
    × Parses (codes "gEt" ∷ codes "mykey" ∷ []) (get (codes "mykey"))
    × Parses (codes "SeT" ∷ codes "mykey" ∷ codes "myvalue" ∷ [])
        (set (codes "mykey") (codes "myvalue"))
    × Parses (codes "dEl" ∷ codes "mykey" ∷ []) (del (codes "mykey"))
    × Parses (codes "eXpIrE" ∷ codes "mykey" ∷ codes "60" ∷ []) (expire (codes "mykey") 60)
    × Parses (codes "TtL" ∷ codes "mykey" ∷ []) (ttl (codes "mykey"))
    × Parses (codes "AuTh" ∷ codes "mypass" ∷ []) (auth (codes "mypass"))

abbrev BinaryKeyAndValueArePreserved : Type 0
BinaryKeyAndValueArePreserved =
    Parses
      (codes "SET"
        ∷ (0 ∷ (codes "key" ++ 0xff ∷ []))
        ∷ (codes "va" ++ 0 ∷ (codes "lue" ++ 0xfe ∷ []))
        ∷ [])
      (set (0 ∷ (codes "key" ++ 0xff ∷ [])) (codes "va" ++ 0 ∷ (codes "lue" ++ 0xfe ∷ [])))

abbrev BinaryAuthKeyIsPreserved : Type 0
BinaryAuthKeyIsPreserved =
    Parses (codes "AUTH" ∷ (0 ∷ (codes "pass" ++ 0xff ∷ [])) ∷ [])
      (auth (0 ∷ (codes "pass" ++ 0xff ∷ [])))

all_pass :
    GetCommandParses × PingCommandParses × QuitCommandParses × SetCommandParses × DelCommandParses
    × ExpireCommandParses × TtlCommandParses × AuthCommandParses × CommandNameIsCaseInsensitive
    × BinaryKeyAndValueArePreserved × BinaryAuthKeyIsPreserved
unfolding try_from eq_ignore_ascii_case is_utf8 parse_u64
all_pass = (
  refl,
  refl,
  refl,
  refl,
  refl,
  refl,
  refl,
  refl,
  (refl, refl, refl, refl, refl, refl, refl, refl),
  refl,
  refl,
)
