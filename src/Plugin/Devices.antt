-- ===== src/Plugin/Devices.antt =====
-- The data of cmd/dra-rt-kubeletplugin/state.go. The pointers that its maps and slices hold are
-- never shared, and never nil where an entry is present.
use dra_rt_driver.Prelude.{String, Option, none, some, List}
use dra_rt_driver.Prelude.Int.{ℤ}
use dra_rt_driver.Prelude.GoMap.{GoMap}
use dra_rt_driver.Nas.{rt_cpu_type, unknown_device_type}

pub record RtCpuInfo : Type 0 where
  pub id : ℤ
  pub util : ℤ

pub record PreparedRtCpuInfo : Type 0 where
  pub id : ℤ
  pub util : ℤ
  pub runtime : ℤ
  pub period : ℤ

pub record PreparedRtCpu : Type 0 where
  pub cpuset : List PreparedRtCpuInfo

pub record PreparedCpuset : Type 0 where
  pub rt_cpu : Option PreparedRtCpu

-- `Type`
unfoldable pub prepared_type : PreparedCpuset → String
prepared_type d = elim d.rt_cpu [ none ↦ unknown_device_type | some _ ↦ rt_cpu_type ]

-- `AllocatableCpusetInfo` is the CPU's record behind one more pointer.
abbrev pub AllocatableRtCpus : Type 0
AllocatableRtCpus = GoMap ℤ RtCpuInfo

abbrev pub PreparedClaims : Type 0
PreparedClaims = GoMap String PreparedCpuset

pub record DeviceState : Type 0 where
  pub allocatable : AllocatableRtCpus
  pub prepared : PreparedClaims
  pub allocated_util : GoMap ℤ ℤ
