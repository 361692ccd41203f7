-- ===== src/Command/Syntax.antt =====
-- The commands' syntax, and that the chain of tests decides it.
use Prim.Native.String.{String}
use redlike.Prelude.{
  ℕ, ◌≡◌, ◌⊎◌, refl, Bool, true, false, some, List, [], ◌∷◌, arith, if◌then◌else◌, Bytes, codes,
  Bool-cases, Option-cases, subst, inl, inr,
}
use redlike.Text.Utf8.{is_utf8}
use redlike.Text.Decimal.{parse_u64}
use redlike.Command.{
  parse_ping, parse_quit, parse_get, parse_set, parse_del, parse_expire, parse_ttl, parse_auth,
  Command, ping, get, set, del, expire, ttl, quit, auth, Result, ok, ◌>>=◌, eq_ignore_ascii_case,
  dispatch, parse_u64_arg,
}

-- The syntax of the commands: the word, its arguments, and what they mean.
pub data Syntax : Bytes → List Bytes → Command → Type 0 where
  ping_syntax : Syntax (codes "ping") [] ping
  quit_syntax : Syntax (codes "quit") [] quit
  get_syntax : (key : Bytes) → Syntax (codes "get") (key ∷ []) (get key)
  set_syntax : (key value : Bytes) → Syntax (codes "set") (key ∷ value ∷ []) (set key value)
  del_syntax : (key : Bytes) → Syntax (codes "del") (key ∷ []) (del key)
  expire_syntax :
      (key value : Bytes) (n : ℕ)
      → is_utf8 value ≡ true
      → parse_u64 value ≡ some n
      → Syntax (codes "expire") (key ∷ value ∷ []) (expire key n)
  ttl_syntax : (key : Bytes) → Syntax (codes "ttl") (key ∷ []) (ttl key)
  auth_syntax : (key : Bytes) → Syntax (codes "auth") (key ∷ []) (auth key)

pub dispatch-Syntax :
    {kw : Bytes} {argv : List Bytes} {c : Command} → Syntax kw argv c → dispatch kw argv ≡ ok c
unfolding dispatch eq_ignore_ascii_case
dispatch-Syntax ping_syntax = refl
dispatch-Syntax quit_syntax = refl
dispatch-Syntax (get_syntax key) = refl
dispatch-Syntax (set_syntax key value) = refl
dispatch-Syntax (del_syntax key) = refl
dispatch-Syntax (expire_syntax key value n utf8 number) = ground arith
dispatch-Syntax (ttl_syntax key) = refl
dispatch-Syntax (auth_syntax key) = refl

-- A word and arguments that mean the command, the word in any case.
abbrev pub Spells : Bytes → List Bytes → Command → Type 0
Spells cmd argv c = (kw : Bytes) × (eq_ignore_ascii_case cmd kw ≡ true) × Syntax kw argv c

module _ (c : Command) where
  ping-Syntax : (argv : List Bytes) → parse_ping argv ≡ ok c → Syntax (codes "ping") argv c
  unfolding parse_ping
  ping-Syntax [] h = subst (Syntax (codes "ping") []) (cc) ping_syntax
  ping-Syntax (_ ∷ _) h = cc

  quit-Syntax : (argv : List Bytes) → parse_quit argv ≡ ok c → Syntax (codes "quit") argv c
  unfolding parse_quit
  quit-Syntax [] h = subst (Syntax (codes "quit") []) (cc) quit_syntax
  quit-Syntax (_ ∷ _) h = cc

  get-Syntax : (argv : List Bytes) → parse_get argv ≡ ok c → Syntax (codes "get") argv c
  unfolding parse_get
  get-Syntax [] h = cc
  get-Syntax (k ∷ []) h = subst (Syntax (codes "get") (k ∷ [])) (cc) (get_syntax k)
  get-Syntax (_ ∷ _ ∷ _) h = cc

  set-Syntax : (argv : List Bytes) → parse_set argv ≡ ok c → Syntax (codes "set") argv c
  unfolding parse_set
  set-Syntax [] h = cc
  set-Syntax (_ ∷ []) h = cc
  set-Syntax (k ∷ v ∷ []) h = subst (Syntax (codes "set") (k ∷ v ∷ [])) (cc) (set_syntax k v)
  set-Syntax (_ ∷ _ ∷ _ ∷ _) h = cc

  del-Syntax : (argv : List Bytes) → parse_del argv ≡ ok c → Syntax (codes "del") argv c
  unfolding parse_del
  del-Syntax [] h = cc
  del-Syntax (k ∷ []) h = subst (Syntax (codes "del") (k ∷ [])) (cc) (del_syntax k)
  del-Syntax (_ ∷ _ ∷ _) h = cc

  ttl-Syntax : (argv : List Bytes) → parse_ttl argv ≡ ok c → Syntax (codes "ttl") argv c
  unfolding parse_ttl
  ttl-Syntax [] h = cc
  ttl-Syntax (k ∷ []) h = subst (Syntax (codes "ttl") (k ∷ [])) (cc) (ttl_syntax k)
  ttl-Syntax (_ ∷ _ ∷ _) h = cc

  auth-Syntax : (argv : List Bytes) → parse_auth argv ≡ ok c → Syntax (codes "auth") argv c
  unfolding parse_auth
  auth-Syntax [] h = cc
  auth-Syntax (k ∷ []) h = subst (Syntax (codes "auth") (k ∷ [])) (cc) (auth_syntax k)
  auth-Syntax (_ ∷ _ ∷ _) h = cc

  -- A number argument that is taken is valid text and a number of 64 bits.
  number-Syntax :
      (key value : Bytes)
      → (parse_u64_arg value >>= λ n. ok (expire key n)) ≡ ok c
      → Syntax (codes "expire") (key ∷ value ∷ []) c
  unfolding parse_u64_arg
  number-Syntax key value h = elim (Bool-cases (is_utf8 value)) [
    | inr bad ↦ absurd (ground arith)
    | inl good ↦ elim (Option-cases (parse_u64 value)) [
      | inl e ↦ absurd (ground arith)
      | inr (n, e) ↦
          subst (Syntax (codes "expire") (key ∷ value ∷ [])) (ground arith)
            (expire_syntax key value n good e)
    ]
  ]

  expire-Syntax : (argv : List Bytes) → parse_expire argv ≡ ok c → Syntax (codes "expire") argv c
  unfolding parse_expire
  expire-Syntax [] h = cc
  expire-Syntax (_ ∷ []) h = cc
  expire-Syntax (k ∷ v ∷ []) h = number-Syntax k v h
  expire-Syntax (_ ∷ _ ∷ _ ∷ _) h = cc

  -- One test of the chain.
  taken :
      {x y : Result Command} (b : Bool)
      → (if b then x else y) ≡ ok c
      → ((b ≡ true) × (x ≡ ok c)) ⊎ (y ≡ ok c)
  taken true h = inl (refl, h)
  taken false h = inr h

  pub dispatch-Spells :
      (cmd : Bytes) (argv : List Bytes) → dispatch cmd argv ≡ ok c → Spells cmd argv c
  unfolding dispatch
  dispatch-Spells cmd argv h = elim (taken (is "ping") h) [
    | inl (e, x) ↦ (codes "ping", e, ping-Syntax argv x)
    | inr h ↦ elim (taken (is "quit") h) [
      | inl (e, x) ↦ (codes "quit", e, quit-Syntax argv x)
      | inr h ↦ elim (taken (is "get") h) [
        | inl (e, x) ↦ (codes "get", e, get-Syntax argv x)
        | inr h ↦ elim (taken (is "set") h) [
          | inl (e, x) ↦ (codes "set", e, set-Syntax argv x)
          | inr h ↦ elim (taken (is "del") h) [
            | inl (e, x) ↦ (codes "del", e, del-Syntax argv x)
            | inr h ↦ elim (taken (is "expire") h) [
              | inl (e, x) ↦ (codes "expire", e, expire-Syntax argv x)
              | inr h ↦ elim (taken (is "ttl") h) [
                | inl (e, x) ↦ (codes "ttl", e, ttl-Syntax argv x)
                | inr h ↦ elim (taken (is "auth") h) [
                  | inl (e, x) ↦ (codes "auth", e, auth-Syntax argv x)
                  | inr h ↦ absurd (cc)
                ]
              ]
            ]
          ]
        ]
      ]
    ]
  ]
    where
      is : String → Bool
      is kw = eq_ignore_ascii_case cmd (codes kw)
