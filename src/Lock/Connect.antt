-- ===== src/Lock/Connect.antt =====
-- The configuration of lock/redis.go: the options that the Redis clients are made with, and what
-- NewRedisClient and NewStandaloneRedisClient do with a client that cannot be reached.
use nsp_platform.Base.{ℕ, ◌*◌, String, Bool, Option, some, none, List, [], ◌∷◌, if◌then◌else◌}
use nsp_platform.Base.Int.{ℤ, pos, is_zero}
use nsp_platform.Base.Text.{is_empty, texts}
use nsp_platform.Lock.{second}

pub record RedisOption : Type 0 where
  pub addrs : List String
  pub username : String
  pub password : String
  pub pool_size : ℤ
  pub dial_timeout : ℤ
  pub read_timeout : ℤ
  pub write_timeout : ℤ
  pub route_by_latency : Bool
  pub route_randomly : Bool

pub record StandaloneRedisOption : Type 0 where
  pub addr : String
  pub username : String
  pub password : String
  pub pool_size : ℤ
  pub dial_timeout : ℤ
  pub read_timeout : ℤ
  pub write_timeout : ℤ

-- `if v == 0 { v = default }`.
abbrev unless_zero : ℤ → ℕ → ℤ
unless_zero v default = if is_zero v then pos default else v

-- An error's text, or the result.
pub data Created (A : Type 0) : Type 0 where
  failed : String → Created A
  created : A → Created A

-- The options of go-redis have the fields of the same names.
unfoldable pub new_cluster_options : RedisOption → Created RedisOption
new_cluster_options o = with_addrs o.addrs
  where
    with_addrs : List String → Created RedisOption
    with_addrs [] = failed "lock: RedisOption.Addrs must not be empty"
    with_addrs (a ∷ rest) = created (record {
      addrs = o.addrs;
      username = o.username;
      password = o.password;
      pool_size = unless_zero o.pool_size 10;
      dial_timeout = unless_zero o.dial_timeout (5 * second);
      read_timeout = unless_zero o.read_timeout (3 * second);
      write_timeout = unless_zero o.write_timeout (3 * second);
      route_by_latency = o.route_by_latency;
      route_randomly = o.route_randomly;
    })

unfoldable pub new_standalone_options : StandaloneRedisOption → Created StandaloneRedisOption
new_standalone_options o =
    if is_empty o.addr
    then failed "lock: StandaloneRedisOption.Addr must not be empty"
    else created (record {
      addr = o.addr;
      username = o.username;
      password = o.password;
      pool_size = unless_zero o.pool_size 10;
      dial_timeout = unless_zero o.dial_timeout (5 * second);
      read_timeout = unless_zero o.read_timeout (3 * second);
      write_timeout = unless_zero o.write_timeout (3 * second);
    })

module _ {O K : Type 0} (make : O → K) (ping : ℤ → K → Option String) (timeout : O → ℤ) where
  abbrev reached : String → K → Option String → Created K × List K
  reached text client none = (created client, [])
  reached text client (some e) = (failed (texts (text ∷ e ∷ [])), client ∷ [])

  -- A new client and the clients that were closed, for the text of the error of a ping.
  abbrev pub connected : String → Created O → Created K × List K
  connected text (failed e) = (failed e, [])
  connected text (created o) = reached text (make o) (ping (timeout o) (make o))

-- `NewRedisClient`.
abbrev pub new_redis_client :
    {K : Type 0} → (RedisOption → K) → (ℤ → K → Option String) → RedisOption → Created K × List K
new_redis_client make ping o =
    connected make ping (λ o. o.dial_timeout) "lock: redis cluster unreachable: "
      (new_cluster_options o)

-- `NewStandaloneRedisClient`.
abbrev pub new_standalone_redis_client :
    {K : Type 0}
    → (StandaloneRedisOption → K)
    → (ℤ → K → Option String)
    → StandaloneRedisOption
    → Created K × List K
new_standalone_redis_client make ping o =
    connected make ping (λ o. o.dial_timeout) "lock: redis unreachable: " (new_standalone_options o)
