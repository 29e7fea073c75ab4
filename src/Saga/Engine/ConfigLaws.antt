-- ===== src/Saga/Engine/ConfigLaws.antt =====
-- What NewEngine of saga/engine.go makes of any configuration.
use mathlib.Core.Path.{subst}
use nsp_platform.Base.{◌≡◌, refl, String, true, false, Option, some, none, Bool-cases, inl, inr}
use nsp_platform.Base.Int.{ℤ, is_pos}
use nsp_platform.Base.Text.{is_empty}
use nsp_platform.Saga.Errors.{ok}
use nsp_platform.Saga.Engine.Config.{
  Config, Database, EngineParts, or_default, apply_defaults, given, named, parts, pinged, opened,
  new_engine,
}

-- Every number that a part of the engine runs on is positive, and a database is named.
abbrev pub IsRunnable : EngineParts → Type 0
IsRunnable p =
    (is_pos p.coordinator.worker_count ≡ true)
    × (is_pos p.coordinator.scan_interval ≡ true)
    × (is_pos p.poller.scan_interval ≡ true)
    × (is_pos p.poller.batch_size ≡ true)
    × (is_pos p.http_timeout ≡ true)
    × (is_empty p.config.dsn ≡ false)

or_default-pos : (v d : ℤ) → is_pos d ≡ true → is_pos (or_default v d) ≡ true
or_default-pos v d h = elim (Bool-cases (is_pos v)) [ inl e ↦ rw (e, e) refl | inr e ↦ rw e h ]

named-IsRunnable :
    (generated : String) (cfg : Config)
    → IsRunnable (parts cfg)
    → IsRunnable (parts (named generated cfg))
named-IsRunnable generated cfg h = elim (Bool-cases (is_empty cfg.instance_id)) [
  | inl e ↦ rw e h
  | inr e ↦ rw e h
]

pinged-ok :
    (o : Option String) (cfg : Config) (p : EngineParts) → pinged o cfg ≡ ok p → parts cfg ≡ p
pinged-ok none cfg p h = cc h
pinged-ok (some text) cfg p h = cc h

opened-ok :
    (db : Database) (o : Option String) (cfg : Config) (p : EngineParts)
    → opened db o cfg ≡ ok p
    → parts cfg ≡ p
opened-ok db none cfg p h = pinged-ok (db.ping cfg.dsn) cfg p h
opened-ok db (some text) cfg p h = cc h

-- Whatever the configuration holds, or without one, the engine that NewEngine returns has a data
-- source name, and positive numbers of workers and of poll tasks, intervals and timeout.
pub new_engine-IsRunnable :
    (db : Database) (generated : String) (cfg : Option Config) (p : EngineParts)
    → new_engine db generated cfg ≡ ok p
    → IsRunnable p
unfolding new_engine apply_defaults
new_engine-IsRunnable db generated cfg p h = elim (Bool-cases (is_empty (given cfg).dsn)) [
  | inl e ↦ cc (rw e at h)
  | inr e ↦
      let cfg' = apply_defaults (given cfg) in
      subst IsRunnable
        (opened-ok db (db.open_dsn (named generated cfg').dsn) (named generated cfg') p (rw e at h))
        (named-IsRunnable generated cfg' (
          or_default-pos (given cfg).worker_count _ refl,
          or_default-pos (given cfg).coord_scan_interval _ refl,
          or_default-pos (given cfg).poll_scan_interval _ refl,
          or_default-pos (given cfg).poll_batch_size _ refl,
          or_default-pos (given cfg).http_timeout _ refl,
          e,
        ))
]
