-- ===== src/Redis.antt =====
-- `RedisCliMgr` of common/redisCliMgr.h and `GPN_OPERATION` of common/operation.h. A client of the Redis library
-- is its number, in the order in which the clients are made; what it does is an argument.
pub mod Owners
pub mod Retry
pub mod Threads
use websocket_test.Base.{ℕ, suc, Bool, ◌||◌, List, [], ◌∷◌, ◌++◌, if◌then◌else◌, same_bytes}

-- `m_listCli`, and how many clients have been made.
pub record Pool : Type 0 where
  pub idle : List ℕ
  pub made : ℕ

-- The constructor makes one client.
unfoldable pub new_pool : Pool
new_pool = record { idle = 0 ∷ []; made = 1 }

unfoldable pub got : List ℕ → Pool → ℕ × Pool
got [] p = (p.made, record p { made = suc p.made })
got (c ∷ rest) p = (c, record p { idle = rest })

unfoldable pub get : Pool → ℕ × Pool
get p = got p.idle p

unfoldable pub giveback : ℕ → Pool → Pool
giveback c p = record p { idle = p.idle ++ (c ∷ []) }

-- What a call of the client does: it returns, or it throws an exception with a text.
pub data Outcome : Type 0 where
  done : Outcome
  thrown : List ℕ → Outcome

-- "Broken pipe", "connection was closed" and "Bad file descriptor".
abbrev pub broken_pipe : List ℕ
broken_pipe = 66 ∷ 114 ∷ 111 ∷ 107 ∷ 101 ∷ 110 ∷ 32 ∷ 112 ∷ 105 ∷ 112 ∷ 101 ∷ []

abbrev pub connect_error : List ℕ
connect_error =
    99 ∷ 111 ∷ 110 ∷ 110 ∷ 101 ∷ 99 ∷ 116 ∷ 105 ∷ 111 ∷ 110 ∷ 32 ∷ 119 ∷ 97 ∷ 115 ∷ 32 ∷ 99 ∷ 108
    ∷ 111 ∷ 115 ∷ 101 ∷ 100 ∷ []

abbrev pub bad_descriptor : List ℕ
bad_descriptor =
    66 ∷ 97 ∷ 100 ∷ 32 ∷ 102 ∷ 105 ∷ 108 ∷ 101 ∷ 32 ∷ 100 ∷ 101 ∷ 115 ∷ 99 ∷ 114 ∷ 105 ∷ 112 ∷ 116
    ∷ 111 ∷ 114 ∷ []

unfoldable pub is_broken : List ℕ → Bool
is_broken what =
    same_bytes what broken_pipe || same_bytes what connect_error || same_bytes what bad_descriptor

module _ {W : Type 0} (func reconnect : ℕ → W → Outcome × W) where
  -- `func` again, behind a `reconnect` that does not throw.
  unfoldable pub after_reconnect : ℕ → Outcome × W → Outcome × W
  after_reconnect c (thrown what, w) = (thrown what, w)
  after_reconnect c (done, w) = func c w

  -- The handler: an exception of the second `func`, or of `reconnect`, leaves it.
  unfoldable pub caught : ℕ → Outcome × W → Outcome × W
  caught c (done, w) = (done, w)
  caught c (thrown what, w) =
      let again = after_reconnect c (reconnect c w) in if is_broken what then again else (done, w)

  -- `GPN_OPERATION`; the guard gives the client back when its scope ends, by an exception too.
  unfoldable pub operation : Pool → W → Outcome × (W × Pool)
  operation p w =
      let (c, p') = get p in let (o, w') = caught c (func c w) in (o, (w', giveback c p'))
