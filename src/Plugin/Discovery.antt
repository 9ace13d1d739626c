-- ===== src/Plugin/Discovery.antt =====
-- cmd/dra-rt-kubeletplugin/discovery-t.go: the CPUs of the node. What gopsutil's `cpu.Info` returns
-- is the argument: the number of each CPU. Its error is printed and dropped, with an empty list.
use dra_rt_driver.Prelude.{ℕ, suc, List, [], ◌∷◌}
use dra_rt_driver.Prelude.Int.{ℤ, pos, int_key}
use dra_rt_driver.Prelude.GoMap.{insert}
use dra_rt_driver.Plugin.Devices.{AllocatableRtCpus}

-- The loop of `enumerateCpusets` over the positions from `i` on.
unfoldable pub enumerate_from : ℕ → List ℤ → AllocatableRtCpus → AllocatableRtCpus
enumerate_from i [] alldevices = alldevices
enumerate_from i (cpu ∷ cpus) alldevices =
    enumerate_from (suc i) cpus (insert (pos i) (record { id = cpu; util = pos 0 }) alldevices)

-- `enumerateCpusets`
unfoldable pub enumerate_cpusets : List ℤ → AllocatableRtCpus
enumerate_cpusets cpu_info = enumerate_from 0 cpu_info []
