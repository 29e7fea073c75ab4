-- ===== src/Saga/Engine/Config.antt =====
-- Config, DefaultConfig and NewEngine of saga/engine.go: the configuration with its defaults, and
-- what is made of it for the parts of the engine. Opening the database is a parameter; the HTTP
-- client, the credential store and the logger, which are handed on as they are, are left out.
use nsp_platform.Base.{ℕ, ◌*◌, String, Option, some, none, if◌then◌else◌}
use nsp_platform.Base.Int.{ℤ, pos, is_pos}
use nsp_platform.Base.Text.{is_empty}
use nsp_platform.Saga.Errors.{Result, ok, err, plain, prefix}

pub record Config : Type 0 where
  pub dsn : String
  pub worker_count : ℤ
  pub poll_batch_size : ℤ
  pub poll_scan_interval : ℤ
  pub coord_scan_interval : ℤ
  pub http_timeout : ℤ
  pub instance_id : String

-- A nanosecond is the unit of a `time.Duration`.
abbrev seconds : ℕ → ℤ
seconds n = pos (n * 1000000000)

abbrev pub default_config : Config
default_config = record {
  dsn = "";
  worker_count = pos 4;
  poll_batch_size = pos 20;
  poll_scan_interval = seconds 3;
  coord_scan_interval = seconds 5;
  http_timeout = seconds 30;
  instance_id = "";
}

-- `if v <= 0 { v = default }`.
abbrev pub or_default : ℤ → ℤ → ℤ
or_default v default = if is_pos v then v else default

unfoldable pub apply_defaults : Config → Config
apply_defaults cfg = record cfg {
  worker_count = or_default cfg.worker_count default_config.worker_count;
  poll_batch_size = or_default cfg.poll_batch_size default_config.poll_batch_size;
  poll_scan_interval = or_default cfg.poll_scan_interval default_config.poll_scan_interval;
  coord_scan_interval = or_default cfg.coord_scan_interval default_config.coord_scan_interval;
  http_timeout = or_default cfg.http_timeout default_config.http_timeout;
}

pub record PollerConfig : Type 0 where
  pub scan_interval : ℤ
  pub batch_size : ℤ
  pub instance_id : String

pub record CoordinatorConfig : Type 0 where
  pub worker_count : ℤ
  pub scan_interval : ℤ
  pub timeout_scan_interval : ℤ
  pub async_step_timeout : ℤ
  pub instance_id : String
  pub lease_duration : ℤ

pub record EngineParts : Type 0 where
  pub config : Config
  pub http_timeout : ℤ
  pub poller : PollerConfig
  pub coordinator : CoordinatorConfig

-- `sql.Open` and `Ping`: the text of the error, if there is one.
pub record Database : Type 0 where
  pub open_dsn : String → Option String
  pub ping : String → Option String

abbrev pub parts : Config → EngineParts
parts cfg = record {
  config = cfg;
  http_timeout = cfg.http_timeout;
  poller = record {
    scan_interval = cfg.poll_scan_interval;
    batch_size = cfg.poll_batch_size;
    instance_id = cfg.instance_id;
  };
  coordinator = record {
    worker_count = cfg.worker_count;
    scan_interval = cfg.coord_scan_interval;
    timeout_scan_interval = seconds 30;
    async_step_timeout = seconds (10 * 60);
    instance_id = cfg.instance_id;
    lease_duration = seconds (5 * 60);
  };
}

abbrev pub given : Option Config → Config
given none = default_config
given (some cfg) = cfg

abbrev pub named : String → Config → Config
named generated cfg =
    if is_empty cfg.instance_id then record cfg { instance_id = generated } else cfg

abbrev pub pinged : Option String → Config → Result EngineParts
pinged (some text) cfg = err (prefix "failed to ping database" (plain text))
pinged none cfg = ok (parts cfg)

abbrev pub opened : Database → Option String → Config → Result EngineParts
opened db (some text) cfg = err (prefix "failed to connect to database" (plain text))
opened db none cfg = pinged (db.ping cfg.dsn) cfg

abbrev pub connect : Database → Config → Result EngineParts
connect db cfg = opened db (db.open_dsn cfg.dsn) cfg

-- `NewEngine`, given the name made of the host's and the process's.
unfoldable pub new_engine : Database → String → Option Config → Result EngineParts
unfolding apply_defaults
new_engine db generated cfg =
    let cfg' = apply_defaults (given cfg) in
    if is_empty cfg'.dsn then err (plain "DSN is required") else connect db (named generated cfg')
