-- ===== src/Params.antt =====
-- api/example.com/resource/rt/v1alpha1: api.go, rtclaim.go and deviceclass.go, the parameters of a
-- claim and of a device class, with their defaults.
use dra_rt_driver.Prelude.{String, List, [], ◌∷◌}
use dra_rt_driver.Prelude.Int.{ℤ, pos}
use dra_rt_driver.Nas.{rt_cpu_type}

abbrev pub group_name : String
group_name = "rt.resource.example.com"

abbrev pub rt_claim_parameters_kind : String
rt_claim_parameters_kind = "RtClaimParameters"

pub record RtClaimParametersSpec : Type 0 where
  pub count : ℤ
  pub runtime : ℤ
  pub period : ℤ

pub record DeviceSelector : Type 0 where
  pub device_type : String
  pub name : String

pub record DeviceClassParametersSpec : Type 0 where
  pub device_selector : List DeviceSelector

-- `DefaultDeviceClassParametersSpec`
unfoldable pub default_device_class_parameters_spec : DeviceClassParametersSpec
default_device_class_parameters_spec = record {
  device_selector = record { device_type = rt_cpu_type; name = "*" } ∷ [];
}

-- `DefaultRtClaimParametersSpec`
unfoldable pub default_rt_claim_parameters_spec : RtClaimParametersSpec
default_rt_claim_parameters_spec = record { count = pos 1; runtime = pos 10; period = pos 100 }
