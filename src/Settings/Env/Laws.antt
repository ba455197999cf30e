-- ===== src/Settings/Env/Laws.antt =====
-- What the loop over the environment keeps.
use pgscv.Base.{
  ◌≡◌, ◌∙◌, String, Bool, true, false, ◌||◌, Option, some, List, [], ◌∷◌, arith, is_some, string_eq,
  ◌⊎◌, inl, inr, Bool-cases, Option-cases,
}
use pgscv.Base.Dict
use pgscv.Base.Dict.{Dict}
use pgscv.Base.Text.{has_prefix, split_first}
use pgscv.Base.Result.{Result, ok, err, ◌>>=◌, bind-parts}
use pgscv.Base.External.{Regexps}
use pgscv.Service.Env.{
  ConnSetting, EnvError, dsn_setting, parse_postgres_dsn_env, parse_pgbouncer_dsn_env,
  parse_patroni_url_env,
}
use pgscv.Settings.{Config}
use pgscv.Settings.Merge.{entries, copy_into, merge}
use pgscv.Settings.Env.{
  Numbers, with_service, guarded, add_services, set_field, is_own, read_entry, read_entries,
  new_config_from_env,
}

-- A variable of this name and value makes the service.
abbrev pub Makes : String → String → String → ConnSetting → Type 0
Makes key value id cs =
    (parse_postgres_dsn_env key value ≡ ok (id, cs))
    ⊎ (parse_pgbouncer_dsn_env key value ≡ ok (id, cs))
    ⊎ (parse_patroni_url_env key value ≡ ok (id, cs))

-- Some entry of the environment makes the service.
abbrev pub MadeBy : List String → String → ConnSetting → Type 0
MadeBy [] id cs = ⊥
MadeBy (entry ∷ environ) id cs =
    ((key : String) × (value : String) × (split_first 61 entry ≡ some (key, value))
      × Makes key value id cs)
    ⊎ MadeBy environ id cs

module _ {R : Regexps} where
  abbrev pub service_at : String → Config R → Option ConnSetting
  service_at id c = Dict.lookup id (entries c.services_conns_settings)

  with_service_ok :
      (r : Result EnvError (String × ConnSetting)) (c c' : Config R) (id : String)
      (cs : ConnSetting)
      → with_service r c ≡ ok c'
      → service_at id c' ≡ some cs
      → (service_at id c ≡ some cs) ⊎ (r ≡ ok (id, cs))
  with_service_ok (err e) c c' id cs h found = ground arith
  with_service_ok (ok (j, new)) c c' id cs h found =
      ground (arith, Dict.lookup-insert id j new (entries c.services_conns_settings))

  with_service-defaults :
      (r : Result EnvError (String × ConnSetting)) (c c' : Config R)
      → with_service r c ≡ ok c'
      → c'.defaults ≡ c.defaults
  with_service-defaults (err e) c c' h = ground arith
  with_service-defaults (ok (j, new)) c c' h = ground arith

  -- The switch over the name changes neither the services nor the defaults.
  set_field_ok :
      (parse : Numbers) (key value : String) (c c' : Config R)
      → set_field parse key value c ≡ ok c'
      → (c'.services_conns_settings ≡ c.services_conns_settings) × (c'.defaults ≡ c.defaults)
  unfolding set_field
  set_field_ok parse key value c c' h = ground arith

  guarded_ok :
      (b : Bool) (r : Result EnvError (String × ConnSetting)) (c c' : Config R) (id : String)
      (cs : ConnSetting)
      → guarded b r c ≡ ok c'
      → (c'.defaults ≡ c.defaults)
        × (service_at id c' ≡ some cs → (service_at id c ≡ some cs) ⊎ (r ≡ ok (id, cs)))
  guarded_ok true r c c' id cs h =
      (with_service-defaults r c c' h, λ found. with_service_ok r c c' id cs h found)
  guarded_ok false r c c' id cs h = ground arith

  add_services_ok :
      (key value : String) (c c' : Config R) (id : String) (cs : ConnSetting)
      → add_services key value c ≡ ok c'
      → (c'.defaults ≡ c.defaults)
        × (service_at id c' ≡ some cs → (service_at id c ≡ some cs) ⊎ Makes key value id cs)
  unfolding add_services
  add_services_ok key value c c' id cs h =
      let is_postgres = has_prefix key "POSTGRES_DSN" || has_prefix key "DATABASE_DSN" in
      let is_pgbouncer = has_prefix key "PGBOUNCER_DSN" in
      let is_patroni = has_prefix key "PATRONI_URL" in
      let postgres = parse_postgres_dsn_env key value in
      let pgbouncer = parse_pgbouncer_dsn_env key value in
      let patroni = parse_patroni_url_env key value in
      let (c2, before, third) =
        bind-parts (guarded is_postgres postgres c >>= guarded is_pgbouncer pgbouncer)
          (guarded is_patroni patroni) c' h in
      let (c1, first, second) =
        bind-parts (guarded is_postgres postgres c) (guarded is_pgbouncer pgbouncer) c2 before in
      let (d1, s1) = guarded_ok is_postgres postgres c c1 id cs first in
      let (d2, s2) = guarded_ok is_pgbouncer pgbouncer c1 c2 id cs second in
      let (d3, s3) = guarded_ok is_patroni patroni c2 c' id cs third in
      (
        d3 ∙ d2 ∙ d1,
        λ found. elim (s3 found) [
          | inr new ↦ inr (inr (inr new))
          | inl found2 ↦ elim (s2 found2) [
            | inr new ↦ inr (inr (inl new))
            | inl found1 ↦ elim (s1 found1) [ inr new ↦ inr (inl new) | inl old ↦ inl old ]
          ]
        ],
      )

  read_entry_ok :
      (parse : Numbers) (entry : String) (c c' : Config R) (id : String) (cs : ConnSetting)
      → read_entry parse entry c ≡ ok c'
      → (c'.defaults ≡ c.defaults)
        × (service_at id c' ≡ some cs
            → (service_at id c ≡ some cs)
              ⊎ ((key : String) × (value : String) × (split_first 61 entry ≡ some (key, value))
                  × Makes key value id cs))
  unfolding read_entry
  read_entry_ok parse entry c c' id cs h = elim (Bool-cases (is_own entry)) [
    | inl own ↦ elim (Option-cases (split_first 61 entry)) [
      | inl none_ ↦ ground arith
      | inr ((key, value), parts) ↦
          let run : (add_services key value c >>= λ c1. set_field parse key value c1) ≡ ok c' =
            ground arith in
          let (c1, added, set) = bind-parts _ _ c' run in
          let (services, defaults) = set_field_ok parse key value c1 c' set in
          let (defaults1, found1) = add_services_ok key value c c1 id cs added in
          (
            defaults ∙ defaults1,
            λ found. elim (found1 (rw services at found)) [
              | inl old ↦ inl old
              | inr new ↦ inr (key, value, parts, new)
            ],
          )
    ]
    | inr other ↦ ground arith
  ]

  read_entries_ok :
      (parse : Numbers) (environ : List String) (c c' : Config R) (id : String) (cs : ConnSetting)
      → read_entries parse environ c ≡ ok c'
      → (c'.defaults ≡ c.defaults)
        × (service_at id c' ≡ some cs → (service_at id c ≡ some cs) ⊎ MadeBy environ id cs)
  unfolding read_entries
  read_entries_ok parse [] c c' id cs h = ground arith
  read_entries_ok parse (entry ∷ environ) c c' id cs h =
      let (c1, first, later) = bind-parts _ _ c' h in
      let (defaults, made) = read_entries_ok parse environ c1 c' id cs later in
      let (defaults1, made1) = read_entry_ok parse entry c c1 id cs first in
      (
        defaults ∙ defaults1,
        λ found. elim (made found) [
          | inr new ↦ inr (inr new)
          | inl found1 ↦ elim (made1 found1) [ inl old ↦ inl old | inr new ↦ inr (inl new) ]
        ],
      )

  -- Every service of the configuration made from the environment comes from an entry of it, whose name and
  -- value one of the three parsers turns into this service.
  pub new_config_from_env-MadeBy :
      (parse : Numbers) (environ : List String) (c : Config R) (id : String) (cs : ConnSetting)
      → new_config_from_env parse environ ≡ ok c
      → Dict.lookup id (entries c.services_conns_settings) ≡ some cs
      → MadeBy environ id cs
  unfolding new_config_from_env Dict.lookup
  new_config_from_env-MadeBy parse environ c id cs h found =
      elim ((read_entries_ok parse environ _ c id cs h).1 found) [
        | inl old ↦ ground arith
        | inr new ↦ new
      ]

  merge_ok : (file env : Config R) → env.defaults ≡ some [] → is_some (merge file env) ≡ true
  unfolding merge copy_into
  merge_ok file env h = elim (Option-cases file.defaults) [
    | inl nil ↦ ground arith
    | inr (m, has) ↦ ground arith
  ]

  -- Putting the settings of the environment over those of a file never panics, even where the file
  -- leaves the map of defaults nil.
  pub merge-new_config_from_env :
      (parse : Numbers) (environ : List String) (file env : Config R)
      → new_config_from_env parse environ ≡ ok env
      → is_some (merge file env) ≡ true
  unfolding new_config_from_env
  merge-new_config_from_env parse environ file env h =
      merge_ok file env (read_entries_ok parse environ _ env "" (dsn_setting "" "") h).0
