-- ===== src/Config.antt =====
-- proxy/config.go.
use eth_proxy.Prelude.{
  zero, true, String, str_eq, eq_iff, ◌≡◌, ◌≢◌, ◌↔◌, refl, arith, if◌then◌else◌,
}
use eth_proxy.Prelude.Int.{ℤ, pos, is_zero}

abbrev default_port : ℤ
default_port = pos 8080

abbrev default_log_level : String
default_log_level = "info"

abbrev default_log_format : String
default_log_format = "plain"

pub record Config : Type 0 where
  pub port : ℤ
  pub log_level : String
  pub log_format : String
  pub urls : String

abbrev empty_config : Config
empty_config = record { port = pos 0; log_level = ""; log_format = ""; urls = "" }

abbrev default_config : Config
default_config = record {
  port = default_port;
  log_level = default_log_level;
  log_format = default_log_format;
  urls = "";
}

-- Three assignments, each to one field and under a test of that field.
unfoldable pub sanitize : Config → Config
sanitize c = record c {
  port = if is_zero c.port then default_port else c.port;
  log_level = if str_eq c.log_level "" then default_log_level else c.log_level;
  log_format = if str_eq c.log_format "" then default_log_format else c.log_format;
}

-- What the service can start with: every field but the list of nodes is given.
pub record IsComplete (c : Config) : Type 0 where
  pub port : c.port ≢ pos 0
  pub log_level : c.log_level ≢ ""
  pub log_format : c.log_format ≢ ""

is_zero_iff : (n : ℤ) → (is_zero n ≡ true) ↔ (n ≡ pos 0)
is_zero_iff (pos zero) = ground arith
is_zero_iff _ = ground arith

sanitize-IsComplete : (c : Config) → IsComplete (sanitize c)
unfolding sanitize
sanitize-IsComplete c = record {
  port = ground (arith, is_zero_iff c.port);
  log_level = ground (arith, eq_iff c.log_level "", eq_iff default_log_level "");
  log_format = ground (arith, eq_iff c.log_format "", eq_iff default_log_format "");
}

sanitize-of_IsComplete : (c : Config) → IsComplete c → sanitize c ≡ c
unfolding sanitize
sanitize-of_IsComplete c h =
    ground (arith, is_zero_iff c.port, eq_iff c.log_level "", eq_iff c.log_format "")

-- A sanitized configuration is complete whatever the file and the environment gave, keeps the list
-- of nodes, and is left as it is by a second call; a complete one is left as it is by the first.
pub sanitize_lem :
    (c : Config)
    → IsComplete (sanitize c)
      × ((sanitize c).urls ≡ c.urls)
      × (sanitize (sanitize c) ≡ sanitize c)
      × (IsComplete c → sanitize c ≡ c)
sanitize_lem c = (
  sanitize-IsComplete c,
  unfold sanitize in refl,
  sanitize-of_IsComplete (sanitize c) (sanitize-IsComplete c),
  sanitize-of_IsComplete c,
)

sanitize_empty : sanitize empty_config ≡ default_config
unfolding sanitize
sanitize_empty = refl
