-- ===== src/Config/Types.antt =====
-- internal/config/types.go: clients, stages and plans. Numbers that Go holds in an `int` are
-- integers; durations stay texts, as in the file.
use canarium.Common.{ℕ, ◌*◌, String, Bool, List, Option}
use canarium.Common.Int.{ℤ, pos}
use canarium.Common.Dict.{Dict}
use canarium.Facts.Types.{Value}
use canarium.Conditions.Config.{ConditionConfig}

pub record ProbeConfig : Type 0 where
  pub method : String
  pub port : ℤ
  pub timeout : String

pub record WakeConfig : Type 0 where
  pub transport : String
  pub mac : String
  pub broadcast : String
  pub settings : Dict Value

pub record ClientConfig : Type 0 where
  pub name : String
  pub description : String
  pub transport : String
  pub address : String
  pub mac : String
  pub credentials : String
  pub tags : List String
  pub feeds : List String
  pub feed_policy : String
  pub shutdown_budget : String
  pub wake_policy : String
  pub guard_period : String
  pub comms_loss_assumes : String
  pub depends_on : List String
  pub after : List String
  pub before : List String
  pub probe : Option ProbeConfig
  pub wake : Option WakeConfig
  pub settings : Dict Value

pub record StageConfig : Type 0 where
  pub name : String
  pub when : ConditionConfig
  pub clients : List String
  pub budget : String
  pub wait_timeout : String
  pub wait_policy : String
  pub point_of_no_return : Bool

pub record PostShutdownConfig : Type 0 where
  pub action : String
  pub command : String
  pub delay : ℤ
  pub ups : String
  pub host : String
  pub port : ℤ
  pub username : String
  pub password : String

pub record ShutdownConfig : Type 0 where
  pub post_shutdown : Option PostShutdownConfig
  pub stages : List StageConfig

-- `WakeConfig_`
pub record WakePlan : Type 0 where
  pub gate : ConditionConfig
  pub stagger : String
  pub order : String
  pub stages : List StageConfig
  pub probe_interval : String
  pub boot_deadline : String
  pub retries : ℤ

pub record PlanConfig : Type 0 where
  pub name : String
  pub trigger : ConditionConfig
  pub abort : Option ConditionConfig
  pub shutdown : ShutdownConfig
  pub wake : WakePlan

pub record AuthConfig : Type 0 where
  pub password_hash : String
  pub trust_proxy_headers : Bool
  pub trusted_proxies : List String
  pub allowed_origins : List String

pub record WebhookConfig : Type 0 where
  pub url : String
  pub headers : Dict String
  pub events : List String

pub record NotificationConfig : Type 0 where
  pub webhooks : List WebhookConfig

pub record CanariumConfig : Type 0 where
  pub mode : String
  pub host : String
  pub data_dir : String
  pub journal_retain : String
  pub config_readonly : Bool
  pub auth : AuthConfig
  pub notifications : NotificationConfig

pub record SourceConfig : Type 0 where
  pub name : String
  pub type : String
  pub poll_interval : String
  pub settings : Dict Value

-- `Config` but for the defaults of the transports, which only the transports read.
pub record Config : Type 0 where
  pub canarium : CanariumConfig
  pub sources : List SourceConfig
  pub clients : List ClientConfig
  pub plans : List PlanConfig

abbrev pub second : ℕ
second = 1000000000

abbrev pub default_shutdown_budget : ℤ
default_shutdown_budget = pos (180 * second)

abbrev pub default_guard_period : ℤ
default_guard_period = pos (60 * second)

abbrev pub default_wait_timeout : ℤ
default_wait_timeout = pos (3600 * second)

abbrev pub default_stagger : ℤ
default_stagger = pos (45 * second)

abbrev pub default_probe_interval : ℤ
default_probe_interval = pos (30 * second)

abbrev pub default_boot_deadline : ℤ
default_boot_deadline = pos (300 * second)
