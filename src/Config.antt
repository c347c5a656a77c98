-- ===== src/Config.antt =====
-- The parts of src/infra/config/app_config.rs that the modelled components read, with their
-- defaults. A `usize`, `u64` or `u32` is a number; loading and deserialising are not modelled.
use rust_api_boilerplate.Prelude.{ℕ, ◌*◌, Bool, true, false, String}

pub record WebSocketClusterConfig : Type 0 where
  pub enabled : Bool
  pub channel : String

pub record WebSocketConfig : Type 0 where
  pub enabled : Bool
  pub require_auth : Bool
  pub allow_query_token : Bool
  pub heartbeat_interval_seconds : ℕ
  pub client_timeout_seconds : ℕ
  pub send_buffer : ℕ
  pub max_frame_size_bytes : ℕ
  pub max_message_size_bytes : ℕ
  pub max_connections : ℕ
  pub max_topics_per_connection : ℕ
  pub cluster : WebSocketClusterConfig

abbrev pub default_cluster : WebSocketClusterConfig
default_cluster = record { enabled = false; channel = "ws:events" }

abbrev pub default_websocket : WebSocketConfig
default_websocket = record {
  enabled = true;
  require_auth = false;
  allow_query_token = true;
  heartbeat_interval_seconds = 20;
  client_timeout_seconds = 60;
  send_buffer = 64;
  max_frame_size_bytes = 64 * 1024;
  max_message_size_bytes = 256 * 1024;
  max_connections = 10000;
  max_topics_per_connection = 32;
  cluster = default_cluster;
}

-- The `worker` section; it derives `Default`, which the loader takes when the section is absent.
pub record WorkerConfig : Type 0 where
  pub enabled : Bool
  pub concurrency : ℕ
  pub poll_interval_ms : ℕ

abbrev pub default_worker : WorkerConfig
default_worker = record { enabled = false; concurrency = 0; poll_interval_ms = 0 }

pub data RestartMode : Type 0 where
  spawn : RestartMode
  supervisor : RestartMode

-- The `updater` section, less `restart_mode`, which is passed on to the updater process.
pub record UpdaterConfig : Type 0 where
  pub enabled : Bool
  pub check_url : String
  pub auto_update : Bool
  pub check_interval_seconds : ℕ
  pub current_version : String

pub record AuthConfig : Type 0 where
  pub jwt_secret : String
  pub jwt_expiry_hours : ℕ

pub record HttpRequestLoggingConfig : Type 0 where
  pub enabled : Bool
  pub log_request_body : Bool
  pub log_response_body : Bool
