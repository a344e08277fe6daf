-- ===== src/Simulation/Samples.antt =====
-- Numbers, settings and a world with concrete values, on which the tests run the theorems about the
-- simulation. A number is a whole number of thousandths.
use microsvc.Prelude.{
  ℕ, ◌+◌, ◌-◌, ◌*◌, ◌/◌, ◌^◌, ◌==◌, leb, ltb, true, false, none, some, [], ◌∷◌, Json, null, arr,
  nil, cons, obj, field, end, int, Number, dec, if◌then◌else◌, ◌≡◌, arith, Items,
}
use microsvc.Web.{Error, failed}
use microsvc.Samples.{platform}
use microsvc.Simulation.Numbers.{Numbers, NumberLaws}
use microsvc.Simulation.Settings.{Env, Settings}
use microsvc.Simulation.Actions.{World}
use microsvc.Simulation.Client.{ApiClient}
use microsvc.Simulation.Users.{State}
use microsvc.Simulation.Workflow.Steps.{Setup}

abbrev of_json : Number → ℕ
of_json (dec true d p) = 0
of_json (dec false d p) = d * 1000 / 10 ^ p

abbrev pub numbers : Numbers ℕ
numbers = record {
  of_nat = λ n. n * 1000;
  decimal = λ d p. d * 1000 / 10 ^ p;
  add = λ a b. a + b;
  sub = λ a b. a - b;
  mul = λ a b. a * b / 1000;
  div = λ a b. a * 1000 / b;
  min = λ a b. if leb a b then a else b;
  max = λ a b. if leb a b then b else a;
  round = λ a. (a + 500) / 1000 * 1000;
  floor = λ a. a / 1000;
  below = ltb;
  at_most = leb;
  to_json = λ a. dec false a 3;
  of_json = of_json;
  gauss = λ a b. a + b;
}

at_most_trans : (a b c : ℕ) → leb a b ≡ true → leb b c ≡ true → leb a c ≡ true
at_most_trans a b c p q = ground arith

round_mono :
    (a b : ℕ) → leb a b ≡ true → leb ((a + 500) / 1000 * 1000) ((b + 500) / 1000 * 1000) ≡ true
round_mono a b p = ground arith

pub number_laws : NumberLaws numbers
number_laws = record {
  at_most_refl = λ a. ground arith;
  at_most_trans = at_most_trans;
  min_left = λ a b. ground arith;
  min_greatest = λ a b c p q. ground arith;
  max_left = λ a b. ground arith;
  max_least = λ a b c p q. ground arith;
  round_mono = round_mono;
  round-of_nat = λ n. omega arith;
  of_nat_mono = λ m n p. ground arith;
}

-- An environment that says nothing but for one setting, which is turned off.
abbrev pub env : Env ℕ
env = record {
  get = λ key. none;
  parse_int = λ s. some 0;
  parse_float = λ s. some 0;
  is_zero = λ x. x == 0;
  split_numbers = λ s. 10 ∷ 40 ∷ [];
}

abbrev pub settings : Settings ℕ
settings = record {
  base_url = "http://frontend:3000";
  notification_service_url = "http://banking-notification:80";
  timeout = 10000;
  simulation = record {
    concurrent_users = 10;
    existing_user_percentage = 80;
    session_duration_ms = 300000;
    min_action_delay = 1000;
    max_action_delay = 5000;
    new_user_delay_ms = 2000;
    burst = record {
      enabled = true;
      base_concurrent_users = 2;
      burst_concurrent_users = 14;
      mean_concurrent_users = 5;
      reversion = 250;
      volatility = 2200;
      update_ms = 5000;
      update_jitter = 500;
      spike_chance = 70;
      spike_magnitude = 8;
    };
    max_retries = 3;
    retry_delay_ms = 1000;
    error_injection = record { enabled = true; probability = 50 };
    error_spike = record {
      enabled = true;
      probability = 600;
      minute_marks = 10 ∷ 40 ∷ [];
      duration_minutes = 2;
    };
  };
  total_users = 1000;
  password = "SimUser123!";
  ai_chat_enabled = true;
  export_statement_enabled = true;
  transactions = record {
    deposit_probability = 300;
    withdrawal_probability = 200;
    transfer_probability = 100;
    deposit_range = record { min = 10000; max = 1000000 };
    withdrawal_range = record { min = 5000; max = 500000 };
    transfer_range = record { min = 10000; max = 250000 };
  };
  metrics_interval_ms = 30000;
}

abbrev pub unreachable : Error
unreachable = record { message = "timeout"; code = none; response = none; config = none }

-- A network that is down, draws of one half, and a clock of seconds.
abbrev pub world : World ℕ
world = record {
  network = λ n r. failed unreachable;
  random = λ k. 500;
  clock = λ k. k * 1000;
  minutes = λ k. 0;
  drawn = 0;
  read = 0;
  sent = [];
  waits = [];
}

abbrev pub client : ApiClient
client = record {
  client = record {
    base_url = settings.base_url;
    timeout = settings.timeout;
    headers = [];
    common = [];
  };
  max_retries = 3;
  retry_delay = 1000;
  notification_service_url = settings.notification_service_url;
}

abbrev pub setup : Setup ℕ
setup = record {
  numbers = numbers;
  settings = settings;
  api_client = client;
  platform = platform;
  language = record {
    number_of = λ v. none;
    length_of = λ v. none;
    indexed = λ x v. none;
    length_text = λ v. "0";
    characters = λ s. nil;
  };
}

-- Two accounts, of which the first has 80 dollars.
abbrev pub first : Json
first = obj (field "id" (int 1) (field "balance" (int 80) end))

abbrev pub second : Json
second = obj (field "id" (int 2) (field "balance" (int 0) end))

abbrev pub accounts : Items
accounts = cons first (cons second nil)

abbrev pub state : State ℕ
state = record {
  world = world;
  user = record {
    id = some null;
    username = "olivia.smith.001";
    email = "olivia.smith.001@northbridge.example";
    first_name = "Olivia";
    last_name = "Smith";
    display_name = "Olivia Smith";
    locale = "en-US";
    language = "English";
    password = "SimUser123!";
    token = some null;
    accounts = arr nil;
    is_pre_existing = true;
    session_start_time = none;
    last_action_time = none;
  };
}
