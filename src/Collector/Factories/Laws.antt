-- ===== src/Collector/Factories/Laws.antt =====
-- What a group of collectors registers.
use mathlib.Core.Option.{or_else}
use pgscv.Base.{
  ◌≡◌, refl, String, Option, List, [], ◌∷◌, arith, string_eq, contains, if◌then◌else◌, ◌||◌,
}
use pgscv.Base.Dict
use pgscv.Base.Dict.{NodupKeys, NodupKeys-of_test, lookup-insert}
use pgscv.Collector.Factories.{
  Factories, register, register_all, register_group, system_funcs, postgres_funcs, pgbouncer_funcs,
  patroni_funcs, register_system_collectors, register_postgres_collectors,
  register_pgbouncer_collectors, register_patroni_collectors,
}

-- What a name should be registered as: the group's constructor, unless the name or its whole group is
-- disabled; every other name stays as it was.
abbrev pub enabled : String → Factories → List String → Factories → String → Option String
enabled group funcs disabled f name =
    if contains disabled group || contains disabled name
    then Dict.lookup name f
    else or_else (Dict.lookup name funcs) (Dict.lookup name f)

lookup-register_all :
    (name : String) (funcs f : Factories) (disabled : List String)
    → NodupKeys funcs
    → Dict.lookup name (register_all funcs f disabled) ≡ (
        if contains disabled name
        then Dict.lookup name f
        else or_else (Dict.lookup name funcs) (Dict.lookup name f))
unfolding register_all register Dict.lookup or_else
lookup-register_all name [] f disabled u = ground arith
lookup-register_all name ((n, fn) ∷ funcs) f disabled u = ground (
  arith,
  lookup-register_all name funcs f disabled u.1,
  lookup-register_all name funcs (Dict.insert n fn f) disabled u.1,
  lookup-insert name n fn f,
)

lookup-register_group :
    (group name : String) (funcs f : Factories) (disabled : List String)
    → NodupKeys funcs
    → Dict.lookup name (register_group group funcs f disabled) ≡ enabled group funcs disabled f name
unfolding register_group
lookup-register_group group name funcs f disabled u =
    ground (arith, lookup-register_all name funcs f disabled u)

-- The names of each group are distinct.
distinct :
    NodupKeys system_funcs
    × NodupKeys postgres_funcs
    × NodupKeys pgbouncer_funcs
    × NodupKeys patroni_funcs
unfolding string_eq Dict.lookup
distinct = (
  NodupKeys-of_test system_funcs refl,
  NodupKeys-of_test postgres_funcs refl,
  NodupKeys-of_test pgbouncer_funcs refl,
  NodupKeys-of_test patroni_funcs refl,
)

-- Each of the four registrations enables the collectors of its group, less the disabled ones: a name
-- that is disabled itself or with its group stays as it was, as does a name of no collector.
pub lookup-register_collectors :
    (f : Factories) (disabled : List String) (name : String)
    → (Dict.lookup name (register_system_collectors f disabled)
        ≡ enabled "system" system_funcs disabled f name)
      × (Dict.lookup name (register_postgres_collectors f disabled)
          ≡ enabled "postgres" postgres_funcs disabled f name)
      × (Dict.lookup name (register_pgbouncer_collectors f disabled)
          ≡ enabled "pgbouncer" pgbouncer_funcs disabled f name)
      × (Dict.lookup name (register_patroni_collectors f disabled)
          ≡ enabled "patroni" patroni_funcs disabled f name)
unfolding register_system_collectors register_postgres_collectors register_pgbouncer_collectors
    register_patroni_collectors
lookup-register_collectors f disabled name = (
  lookup-register_group "system" name system_funcs f disabled distinct.0,
  lookup-register_group "postgres" name postgres_funcs f disabled distinct.1,
  lookup-register_group "pgbouncer" name pgbouncer_funcs f disabled distinct.2,
  lookup-register_group "patroni" name patroni_funcs f disabled distinct.3,
)
