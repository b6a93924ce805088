-- ===== src/ServerState.antt =====
-- src/server_state.cpp: the configuration and its defaults. The table that toml++ parsed is a
-- parameter, read by section and key at one of four types.
use shadyurl.Common.{ℕ, ◌^◌, ◌<◌, ◌≡◌, Bool, false, Option, none, some, [], Bytes, codes}
use shadyurl.Mime.{MimeTypeMap}

-- `tbl[section][key].value<T>()`: nothing where the key is absent or holds no such value.
pub record TomlTable : Type 0 where
  pub uint32 : Bytes → Bytes → Option ℕ
  pub uint32_range : (s k : Bytes) (n : ℕ) → uint32 s k ≡ some n → n < 2 ^ 32
  pub uint16 : Bytes → Bytes → Option ℕ
  pub uint16_range : (s k : Bytes) (n : ℕ) → uint16 s k ≡ some n → n < 2 ^ 16
  pub bool : Bytes → Bytes → Option Bool
  pub string : Bytes → Bytes → Option Bytes

pub record ServerState : Type 0 where
  pub tbl : TomlTable
  pub mtm : MimeTypeMap

-- `if(!value) return d; return *value;`
abbrev pub or_default {ℓ} : {A : Type ℓ} → A → Option A → A
or_default d none = d
or_default d (some a) = a

module _ (state : ServerState) where
  abbrev pub get_config_threads : ℕ
  get_config_threads = or_default 2 (state.tbl.uint32 (codes "config") (codes "threads"))

  abbrev pub get_config_address : Bytes
  get_config_address = or_default (codes "0.0.0.0") (state.tbl.string (codes "listen") (codes "ip"))

  abbrev pub get_config_port : ℕ
  get_config_port = or_default 8080 (state.tbl.uint16 (codes "listen") (codes "port"))

  abbrev pub get_config_port2 : ℕ
  get_config_port2 = or_default 0 (state.tbl.uint16 (codes "listen") (codes "port2"))

  abbrev pub get_config_doc_root : Bytes
  get_config_doc_root = or_default (codes ".") (state.tbl.string (codes "config") (codes "docroot"))

  abbrev pub get_config_hostname : Bytes
  get_config_hostname =
      or_default (codes "z6a.info") (state.tbl.string (codes "config") (codes "hostname"))

  abbrev pub get_config_log_level : Bytes
  get_config_log_level =
      or_default (codes "info") (state.tbl.string (codes "config") (codes "loglevel"))

  abbrev pub get_config_daemon : Bool
  get_config_daemon = or_default false (state.tbl.bool (codes "config") (codes "daemon"))

  abbrev pub get_config_cert_file : Bytes
  get_config_cert_file =
      or_default (codes "cert.pem") (state.tbl.string (codes "config") (codes "certfile"))

  abbrev pub get_config_key_file : Bytes
  get_config_key_file =
      or_default (codes "key.pem") (state.tbl.string (codes "config") (codes "keyfile"))

  abbrev pub get_config_dh_file : Bytes
  get_config_dh_file =
      or_default (codes "dh.pem") (state.tbl.string (codes "config") (codes "dhfile"))

  abbrev pub get_config_user : Bytes
  get_config_user = or_default [] (state.tbl.string (codes "config") (codes "user"))

  abbrev pub get_config_group : Bytes
  get_config_group = or_default [] (state.tbl.string (codes "config") (codes "group"))

  abbrev pub get_config_db_path : Bytes
  get_config_db_path =
      or_default (codes "urls.db") (state.tbl.string (codes "config") (codes "dbpath"))
