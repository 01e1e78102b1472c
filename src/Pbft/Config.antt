-- ===== src/Pbft/Config.antt =====
-- consensus/pbft/config.go, consensus/pbft/params.go and metadata/metadata.go. A callback is known
-- by its name; what it does is not modelled, only that it is called.
use b7s.Common.{ℕ, ◌*◌, List, []}
use b7s.Common.Text.{Text}
use b7s.Models.{ExecuteRequest, RuntimeOutput, TraceInfo}

-- Nanoseconds.
abbrev pub second : ℕ
second = 1_000_000_000

abbrev pub minimum_replica_count : ℕ
minimum_replica_count = 4

abbrev pub network_timeout : ℕ
network_timeout = 5 * second

abbrev pub request_timeout : ℕ
request_timeout = 10 * second

abbrev pub MetadataProvider : Type 0
MetadataProvider = ExecuteRequest → RuntimeOutput → Text

abbrev pub noop_provider : MetadataProvider
noop_provider req out = []

pub record Config : Type 0 where
  pub post_processors : List Text
  pub network_timeout : ℕ
  pub request_timeout : ℕ
  pub metadata_provider : MetadataProvider
  pub trace_info : TraceInfo

abbrev pub default_config : Config
default_config = record {
  post_processors = [];
  network_timeout = network_timeout;
  request_timeout = request_timeout;
  metadata_provider = noop_provider;
  trace_info = [];
}

abbrev pub Setting : Type 0
Setting = Config → Config

unfoldable pub with_network_timeout : ℕ → Setting
with_network_timeout d cfg = record cfg { network_timeout = d }

unfoldable pub with_request_timeout : ℕ → Setting
with_request_timeout d cfg = record cfg { request_timeout = d }

unfoldable pub with_post_processors : List Text → Setting
with_post_processors callbacks cfg = record cfg { post_processors = callbacks }

unfoldable pub with_metadata_provider : MetadataProvider → Setting
with_metadata_provider p cfg = record cfg { metadata_provider = p }

unfoldable pub with_trace_info : TraceInfo → Setting
with_trace_info t cfg = record cfg { trace_info = t }
