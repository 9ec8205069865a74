-- ===== src/Config/Laws.antt =====
-- What `Validate` and `Configure` establish together.
use zabbix_agent2_plugin_pos.Prelude.{
  ℕ, ◌<◌, String, ◌≡◌, refl, ◌⊎◌, inl, inr, true, false, ◌&&◌, Option, ◌==◌, string_eq, Bool-cases,
  arith,
}
use zabbix_agent2_plugin_pos.Prelude.Text.FilePath.{is_abs}
use zabbix_agent2_plugin_pos.Errors.{Error, ok}
use zabbix_agent2_plugin_pos.Config.{
  PluginOptions, zero_options, set_custom_queries_path_default, default_path_nix, configure,
  validated, validate,
}

default_path_nix-is_abs : is_abs default_path_nix ≡ true
unfolding is_abs
default_path_nix-is_abs = refl

default_path-is_abs :
    (o : PluginOptions)
    → validated o ≡ ok tt
    → let d = set_custom_queries_path_default default_path_nix o in
      (d.custom_queries_enabled ≡ false) ⊎ (is_abs d.custom_queries_path ≡ true)
unfolding set_custom_queries_path_default validated
default_path-is_abs o accepted =
    elim (Bool-cases (o.custom_queries_enabled && o.custom_queries_path == "")) [
      | inl missing ↦ simp missing (inr default_path_nix-is_abs)
      | inr set ↦ simp set (ground arith)
    ]

-- Only options that read without error are accepted.
validated_of_validate :
    {Raw : Type 0} (unmarshal : Raw → PluginOptions → PluginOptions × Option Error) (raw : Raw)
    → validate unmarshal raw ≡ ok tt
    → validated (unmarshal raw zero_options).0 ≡ ok tt
unfolding validate
validated_of_validate unmarshal raw accepted = ground arith

module _ {Raw : Type 0} (unmarshal : Raw → PluginOptions → PluginOptions × Option Error) where
  -- After `Configure` with a positive global timeout both timeouts are positive, and a timeout
  -- that was set is kept.
  pub configure_timeouts :
      (path : String) (global : ℕ) (raw : Raw) (before : PluginOptions)
      → 0 < global
      → let set = (unmarshal raw before).0 in
        let o = configure unmarshal path global raw before in
        (0 < o.timeout)
        × (0 < o.call_timeout)
        × ((set.timeout ≡ 0) ⊎ (o.timeout ≡ set.timeout))
        × ((set.call_timeout ≡ 0) ⊎ (o.call_timeout ≡ set.call_timeout))
  unfolding configure
  configure_timeouts path global raw before h = ground arith

  -- On unix, options that `Validate` accepts are configured from the zero value to a directory of
  -- custom queries that is absolute, or custom queries are off.
  pub configure-is_abs :
      (global : ℕ) (raw : Raw)
      → validate unmarshal raw ≡ ok tt
      → let o = configure unmarshal default_path_nix global raw zero_options in
        (o.custom_queries_enabled ≡ false) ⊎ (is_abs o.custom_queries_path ≡ true)
  unfolding configure
  configure-is_abs global raw accepted =
      default_path-is_abs _ (validated_of_validate unmarshal raw accepted)
