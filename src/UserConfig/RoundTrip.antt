-- ===== src/UserConfig/RoundTrip.antt =====
-- UserConfig.cpp: settings that are saved and loaded again.
use synergy_hogsback.Prelude.{◌>>=◌, ◌≡◌, refl, ap, ◌∙◌, Bool, true, false, if◌then◌else◌, some}
use synergy_hogsback.Prelude.Text.{eqb_String}
use synergy_hogsback.UserConfig.Table.{UserConfig, Toml, update, table_of, make_table, save, load}

-- What loading takes over: the proxy if there is one, and the version check if it was saved.
abbrev pub taken_over : UserConfig → UserConfig → UserConfig
taken_over c d = record c {
  http_proxy = if eqb_String c.http_proxy "" then d.http_proxy else c.http_proxy;
  version_check = if c.has_developer_config then c.version_check else d.version_check;
}

update-table_of :
    (no_proxy for_developer : Bool) (c d : UserConfig)
    → update (table_of no_proxy for_developer c) d
      ≡ some (record c {
        http_proxy = if no_proxy then d.http_proxy else c.http_proxy;
        version_check = if for_developer then c.version_check else d.version_check;
        has_developer_config = for_developer;
      })
unfolding update
update-table_of true true c d = refl
update-table_of true false c d = refl
update-table_of false true c d = refl
update-table_of false false c d = refl

-- If cpptoml parses what it prints of some settings, then these, saved, are loaded over any others
-- without a failure: all of them, but the proxy only if there is one and the version check only if the
-- options of developers were there.
pub load-save :
    {T : Type 0} (toml : Toml T) (c d : UserConfig)
    → toml.parse (toml.print (make_table c)) ≡ some (make_table c)
    → load toml (save toml c) d ≡ some (taken_over c d)
unfolding load save make_table
load-save toml c d h =
    ap (λ o. o >>= λ root. update root d) h
    ∙ update-table_of (eqb_String c.http_proxy "") c.has_developer_config c d
