-- ===== src/UserConfig/Examples.antt =====
-- Settings with a proxy, saved and loaded over those of a new computer.
use synergy_hogsback.Prelude.{◌≡◌, refl, false, true, some}
use synergy_hogsback.Prelude.Int.{pos}
use synergy_hogsback.UserConfig.Table.{UserConfig, Root, Toml, save, load, reset}
use synergy_hogsback.UserConfig.RoundTrip.{load-save, taken_over}

abbrev known : UserConfig
known = record {
  user_token = "token";
  http_proxy = "proxy:8080";
  user_id = pos 7;
  profile_id = pos 12;
  screen_id = pos 3;
  system_uid = "uid";
  has_developer_config = true;
  version_check = false;
  debug_level = pos 4;
  drag_and_drop = true;
}

abbrev fresh : UserConfig
fresh = reset (record known {
  http_proxy = "";
  system_uid = "";
  has_developer_config = false;
  version_check = true;
})

-- A file that keeps the table.
abbrev kept : Toml Root
kept = record { print = λ root. root; parse = λ root. some root }

load-save_example : load kept (save kept known) fresh ≡ some (taken_over known fresh)
load-save_example = load-save kept known fresh refl

all_taken_over : taken_over known fresh ≡ known
all_taken_over = refl

proxy_kept : (taken_over fresh known).http_proxy ≡ "proxy:8080"
proxy_kept = refl
