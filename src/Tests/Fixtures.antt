-- ===== src/Tests/Fixtures.antt =====
-- A small site: a storage host and a server that depends on it, on one UPS, with one plan.
use canarium.Facts.Store.{Store}
use canarium.Engine.Sequence.{ActiveSequence}
use canarium.Config.Types.{Config, StageConfig, ClientConfig, PlanConfig}
use canarium.Conditions.Evaluator.Cache.{IsCoherent}
use canarium.Engine.Executor.{Transport, Executor, Setup}
use canarium.State.Types.{Database, Sequence}
use canarium.Conditions.Evaluator.{Libs}
use canarium.State.Types as S
use canarium.Facts.Types.{Fact, Quality, Value, truth, nil}
use canarium.Conditions.Template.{Program, answer}
use canarium.Conditions.Config.{
  fields, empty_fields, Fields, ConditionConfig, condition_config, none_left,
}
use canarium.Common.{
  ℕ, String, Bool, true, false, same, List, [], ◌∷◌, Option, none, some, ◌≡◌, arith, if◌then◌else◌,
}
use canarium.Common.Int.{ℤ, pos}
use canarium.Common.Dict.{lookup}
use canarium.Facts.Types.{float64, unknown, good, number}
use canarium.Engine.Types.{armed, up, down, shutdown, wake, probe}
use canarium.Engine.Phase.{Obs, no_result}

abbrev standard_parser : String → Option ℤ
standard_parser s = if same s "30s" then some (pos 30000000000) else none

abbrev key_of : ConditionConfig → String
key_of c = (fields c).fact

abbrev pub test_libs : Libs
test_libs = record {
  expr_compile = λ x. if same x "true" then some (answer (truth true)) else none;
  floats = record { format64 = λ n. "0"; format32 = λ n. "0" };
  parsers = record { standard = standard_parser; days = λ s. none };
  seconds = λ d. 0;
  condition_key = key_of;
}

abbrev pub plain : String → Fields
plain type = record empty_fields { condition = type }

abbrev pub always_true : ConditionConfig
always_true = condition_config (plain "true") none_left

abbrev pub never_true : ConditionConfig
never_true = condition_config (plain "false") none_left

-- `ups.charge below 5.0`
abbrev pub low_charge : ConditionConfig
low_charge =
    condition_config
      (record empty_fields {
        condition = "numeric";
        fact = "ups.charge";
        below = some 0x4014_0000_0000_0000;
      })
      none_left

abbrev pub fact_at : String → Value → Quality → ℕ → Fact
fact_at key v q at = record {
  key = key;
  value = v;
  type = number;
  quality = q;
  updated_at = at;
  source = "ups";
}

-- The charge is 4.0; the load has never been read.
abbrev pub low_store : Store
low_store = record {
  facts =
      ("ups.charge", fact_at "ups.charge" (float64 0x4010_0000_0000_0000) good 5)
      ∷ ("ups.load", fact_at "ups.load" nil unknown 0)
      ∷ [];
  decls = [];
  polls = ("ups", pos 5000000000) ∷ [];
}

abbrev pub client_named : String → List String → ClientConfig
client_named name deps = record {
  name = name;
  description = "";
  transport = "ssh";
  address = "10.0.0.1";
  mac = "";
  credentials = "";
  tags = "rack" ∷ [];
  feeds = [];
  feed_policy = "";
  shutdown_budget = "";
  wake_policy = "";
  guard_period = "";
  comms_loss_assumes = "";
  depends_on = deps;
  after = [];
  before = [];
  probe = none;
  wake = none;
  settings = [];
}

abbrev pub nas : ClientConfig
nas = client_named "nas" []

abbrev pub web : ClientConfig
web = client_named "web" ("nas" ∷ [])

abbrev pub stage_of : String → List String → Bool → StageConfig
stage_of name clients ponr = record {
  name = name;
  when = low_charge;
  clients = clients;
  budget = "";
  wait_timeout = "30s";
  wait_policy = "hold";
  point_of_no_return = ponr;
}

abbrev pub test_plan : PlanConfig
test_plan = record {
  name = "outage";
  trigger = low_charge;
  abort = some never_true;
  shutdown = record {
    post_shutdown = some (record {
      action = "outlet_off";
      command = "load.off";
      delay = pos 0;
      ups = "ups";
      host = "";
      port = pos 0;
      username = "";
      password = "";
    });
    stages = stage_of "servers" ("web" ∷ []) false ∷ stage_of "storage" ("nas" ∷ []) true ∷ [];
  };
  wake = record {
    gate = always_true;
    stagger = "";
    order = "";
    stages = [];
    probe_interval = "";
    boot_deadline = "";
    retries = pos 1;
  };
}

abbrev pub transport_of : Transport
transport_of = record { capabilities = shutdown ∷ wake ∷ probe ∷ []; remap = λ a. a }

abbrev pub test_config : Config
test_config = record {
  canarium = record {
    mode = "armed";
    host = "0.0.0.0:8420";
    data_dir = "/var/lib/canarium";
    journal_retain = "";
    config_readonly = false;
    auth = record {
      password_hash = "";
      trust_proxy_headers = false;
      trusted_proxies = [];
      allowed_origins = [];
    };
    notifications = record { webhooks = [] };
  };
  sources = [];
  clients = nas ∷ web ∷ [];
  plans = test_plan ∷ [];
}

abbrev pub test_setup : Setup
test_setup = record {
  cfg = test_config;
  libs = test_libs;
  transports = ("ssh", transport_of) ∷ ("nut", transport_of) ∷ [];
}

abbrev pub empty_db : Database
empty_db = record {
  sequences = [];
  client_states = [];
  client_locks = [];
  stage_records = [];
  intents = [];
  kv = [];
}

abbrev pub resting_executor : Executor
resting_executor = record {
  evaluator = record {
    store = low_store;
    timers = record { trackers = []; store = none; errors = [] };
    programs = [];
  };
  db = empty_db;
  db_ok = true;
  mode = armed;
  active_sequence = none;
  client_states = ("nas", up) ∷ ("web", down) ∷ [];
  client_state_since = [];
  would_trigger = [];
  stopped = false;
  effects = [];
}

abbrev pub test_sequence : Sequence
test_sequence = record {
  id = "seq_1";
  plan_name = "outage";
  state = S.shutting_down;
  current_stage = 0;
  ponr_crossed = false;
  aborted = false;
  post_shutdown_run = false;
  started_at = 1;
  completed_at = none;
  config_snapshot = "";
  pre_sequence_state = [];
  resolved_addrs = [];
}

abbrev pub active : ActiveSequence
active = record {
  seq = test_sequence;
  plan = test_plan;
  abort_requested = false;
  abort_reason = "";
  proceed_requested = false;
  proceed_reason = "";
  held_stage = "";
}

abbrev pub aborted_active : ActiveSequence
aborted_active = record active {
  abort_requested = true;
  seq = record test_sequence { aborted = true };
}

abbrev pub with_active : ActiveSequence → Executor
with_active a = record resting_executor { active_sequence = some a }

abbrev pub obs_at : ℕ → Obs
obs_at now = record {
  now = now;
  timer = true;
  probed = some down;
  reply = no_result;
  resolved = [];
  snapshot = "";
}

pub no_programs :
    (x : String) (p : Program) → lookup x [] ≡ some p → test_libs.expr_compile x ≡ some p
unfolding lookup
no_programs x p found = ground arith

pub fresh_cache-IsCoherent : IsCoherent test_libs.expr_compile []
fresh_cache-IsCoherent = record { hit = no_programs }
