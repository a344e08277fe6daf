-- ===== src/Simulation/Settings.antt =====
-- simulation-client/src/config/index.js: the settings. `parseInt` and `parseFloat` are parameters;
-- `none` is `NaN`. Negative numbers are not modelled.
pub mod Laws
use microsvc.Prelude.{
  ℕ, zero, suc, String, Bool, Option, none, some, or_else, nonempty, List, map, str_eq,
  if◌then◌else◌,
}
use microsvc.Simulation.Numbers.{Numbers}

-- `process.env`, and how the language reads numbers: `split_numbers` is `.split(',').map(Number)`.
pub record Env (F : Type 0) : Type 0 where
  pub get : String → Option String
  pub parse_int : String → Option ℕ
  pub parse_float : String → Option F
  pub is_zero : F → Bool
  pub split_numbers : String → List ℕ

pub record Range (F : Type 0) : Type 0 where
  pub min : F
  pub max : F

pub record Burst (F : Type 0) : Type 0 where
  pub enabled : Bool
  pub base_concurrent_users : ℕ
  pub burst_concurrent_users : ℕ
  pub mean_concurrent_users : ℕ
  pub reversion : F
  pub volatility : F
  pub update_ms : ℕ
  pub update_jitter : F
  pub spike_chance : F
  pub spike_magnitude : ℕ

pub record ErrorInjection (F : Type 0) : Type 0 where
  pub enabled : Bool
  pub probability : F

pub record ErrorSpike (F : Type 0) : Type 0 where
  pub enabled : Bool
  pub probability : F
  pub minute_marks : List ℕ
  pub duration_minutes : ℕ

pub record Simulation (F : Type 0) : Type 0 where
  pub concurrent_users : ℕ
  pub existing_user_percentage : ℕ
  pub session_duration_ms : ℕ
  pub min_action_delay : ℕ
  pub max_action_delay : ℕ
  pub new_user_delay_ms : ℕ
  pub burst : Burst F
  pub max_retries : ℕ
  pub retry_delay_ms : ℕ
  pub error_injection : ErrorInjection F
  pub error_spike : ErrorSpike F

pub record Transactions (F : Type 0) : Type 0 where
  pub deposit_probability : F
  pub withdrawal_probability : F
  pub transfer_probability : F
  pub deposit_range : Range F
  pub withdrawal_range : Range F
  pub transfer_range : Range F

pub record Settings (F : Type 0) : Type 0 where
  pub base_url : String
  pub notification_service_url : String
  pub timeout : ℕ
  pub simulation : Simulation F
  pub total_users : ℕ
  pub password : String
  pub ai_chat_enabled : Bool
  pub export_statement_enabled : Bool
  pub transactions : Transactions F
  pub metrics_interval_ms : ℕ

module _ {F : Type 0} (N : Numbers F) (env : Env F) where
  -- `process.env.KEY || 'default'`
  pub text : String → String → String
  text key default = or_else (nonempty (env.get key)) default

  -- `parseInt(process.env.KEY) || default`: zero and `NaN` are passed over.
  pub whole : String → ℕ → ℕ
  whole key default = elim (env.get key) [
    | none ↦ default
    | some s ↦ elim (env.parse_int s) [
      | none ↦ default
      | some zero ↦ default
      | some (suc n) ↦ suc n
    ]
  ]

  -- `parseFloat(process.env.KEY) || default`
  pub fraction : String → F → F
  fraction key default = elim (env.get key) [
    | none ↦ default
    | some s ↦ elim (env.parse_float s) [
      | none ↦ default
      | some x ↦ if env.is_zero x then default else x
    ]
  ]

  -- `(process.env.KEY || 'true') === 'true'`
  pub flag : String → Bool
  unfolding text
  flag key = str_eq (text key "true") "true"

  pub range : String → F → String → F → Range F
  unfolding fraction
  range low a high b = record { min = fraction low a; max = fraction high b }

  pub burst_settings : Burst F
  unfolding flag whole fraction
  burst_settings = record {
    enabled = flag "BURST_ENABLED";
    base_concurrent_users = whole "BURST_BASE_USERS" 2;
    burst_concurrent_users = whole "BURST_PEAK_USERS" 14;
    mean_concurrent_users = whole "TRAFFIC_MEAN_USERS" 5;
    reversion = fraction "TRAFFIC_REVERSION" (N.decimal 25 2);
    volatility = fraction "TRAFFIC_VOLATILITY" (N.decimal 22 1);
    update_ms = whole "TRAFFIC_UPDATE_MS" 5000;
    update_jitter = fraction "TRAFFIC_UPDATE_JITTER" (N.decimal 5 1);
    spike_chance = fraction "TRAFFIC_SPIKE_CHANCE" (N.decimal 7 2);
    spike_magnitude = whole "TRAFFIC_SPIKE_MAG" 8;
  }

  pub simulation_settings : Simulation F
  unfolding flag whole fraction text burst_settings
  simulation_settings = record {
    concurrent_users = whole "CONCURRENT_USERS" 10;
    existing_user_percentage = whole "EXISTING_USER_PERCENTAGE" 80;
    session_duration_ms = whole "SESSION_DURATION_MS" 300000;
    min_action_delay = whole "MIN_ACTION_DELAY" 1000;
    max_action_delay = whole "MAX_ACTION_DELAY" 5000;
    new_user_delay_ms = whole "NEW_USER_DELAY" 2000;
    burst = burst_settings;
    max_retries = whole "MAX_RETRIES" 3;
    retry_delay_ms = whole "RETRY_DELAY" 1000;
    error_injection = record {
      enabled = flag "ERROR_INJECTION_ENABLED";
      probability = fraction "ERROR_INJECTION_PROBABILITY" (N.decimal 5 2);
    };
    error_spike = record {
      enabled = flag "ERROR_SPIKE_ENABLED";
      probability = fraction "ERROR_SPIKE_PROBABILITY" (N.decimal 6 1);
      minute_marks = env.split_numbers (text "ERROR_SPIKE_MINUTES" "10,40");
      duration_minutes = whole "ERROR_SPIKE_DURATION" 2;
    };
  }

  pub transaction_settings : Transactions F
  unfolding fraction range
  transaction_settings = record {
    deposit_probability = fraction "DEPOSIT_PROBABILITY" (N.decimal 3 1);
    withdrawal_probability = fraction "WITHDRAWAL_PROBABILITY" (N.decimal 2 1);
    transfer_probability = fraction "TRANSFER_PROBABILITY" (N.decimal 1 1);
    deposit_range = range "MIN_DEPOSIT" (N.decimal 10 0) "MAX_DEPOSIT" (N.decimal 1000 0);
    withdrawal_range = range "MIN_WITHDRAWAL" (N.decimal 5 0) "MAX_WITHDRAWAL" (N.decimal 500 0);
    transfer_range = range "MIN_TRANSFER" (N.decimal 10 0) "MAX_TRANSFER" (N.decimal 250 0);
  }

  pub settings : Settings F
  unfolding text whole flag simulation_settings transaction_settings
  settings = record {
    base_url = text "TARGET_BASE_URL" "http://frontend:3000";
    notification_service_url = text "NOTIFICATION_SERVICE_URL" "http://banking-notification:80";
    timeout = whole "REQUEST_TIMEOUT" 10000;
    simulation = simulation_settings;
    total_users = whole "TOTAL_USERS" 1000;
    password = text "SIM_USER_PASSWORD" "SimUser123!";
    ai_chat_enabled = flag "AI_CHAT_ENABLED";
    export_statement_enabled = flag "EXPORT_STATEMENT_ENABLED";
    transactions = transaction_settings;
    metrics_interval_ms = whole "METRICS_INTERVAL" 30000;
  }
