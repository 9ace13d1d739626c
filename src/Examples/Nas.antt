-- ===== src/Examples/Nas.antt =====
-- nas.go at concrete records.
use dra_rt_driver.Prelude.{◌≡◌, refl, some}
use dra_rt_driver.Prelude.Outcome.{ok}
use dra_rt_driver.Nas.{MappedUtil, set_utilisation, with_cpus}
use dra_rt_driver.Nas.Utilisation.{Adds, set_utilisation-Adds}
use dra_rt_driver.Examples.Fixtures.{
  node_a, two_cpus, two_cpus_rt, utils, tenth-IsSound, quarter-IsSound,
}

set_utilisation-Adds_example :
    (m : MappedUtil) × (set_utilisation node_a two_cpus "held" ≡ ok (with_cpus node_a (some m)))
    × Adds two_cpus_rt.cpuset utils m
set_utilisation-Adds_example =
    set_utilisation-Adds node_a two_cpus "held" two_cpus_rt utils refl refl
      (tenth-IsSound, (quarter-IsSound, tt))
