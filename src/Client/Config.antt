-- ===== src/Client/Config.antt =====
-- apps/command-client/src/config.rs: the configuration, which serde_json reads from a file, and what
-- it tells the server.
use Prim.Native.String.{◌++◌ as str_append}
use ruchat.Prelude.{ℕ, String, Bool, Option, none, some, List, [], ◌∷◌}
use ruchat.Protocol.Domain.{CommandDescriptor, NodeRegistration}

pub record LocalCommandConfig : Type 0 where
  pub name : String
  pub description : String
  pub program : String
  pub default_args : List String
  pub allow_extra_args : Bool

pub record ClientConfig : Type 0 where
  pub node_id : String
  pub auth_token : String
  pub server_url : String
  pub poll_interval_secs : ℕ
  pub request_timeout_secs : Option ℕ
  pub commands : List LocalCommandConfig

abbrev pub descriptor_of : LocalCommandConfig → CommandDescriptor
descriptor_of command = record {
  name = command.name;
  description = command.description;
  default_args = command.default_args;
  allow_extra_args = command.allow_extra_args;
}

descriptors_of : List LocalCommandConfig → List CommandDescriptor
descriptors_of [] = []
descriptors_of (command ∷ commands) = descriptor_of command ∷ descriptors_of commands

unfoldable pub command_descriptors : ClientConfig → List CommandDescriptor
unfolding descriptors_of
command_descriptors config = descriptors_of config.commands

-- `env::var("HOSTNAME").or_else(…"COMPUTERNAME").unwrap_or_else(…)`, on the two variables.
unfoldable pub hostname : Option String → Option String → String
hostname (some name) _ = name
hostname none (some name) = name
hostname none none = "unknown-host"

-- `host` is the result of `hostname`; `os` and `arch` are constants of the build.
unfoldable pub hello_registration : String → String → String → ClientConfig → NodeRegistration
hello_registration host os arch config = record {
  node_id = config.node_id;
  hostname = host;
  platform = str_append os (str_append "-" arch);
  poll_interval_secs = config.poll_interval_secs;
  commands = [];
}
