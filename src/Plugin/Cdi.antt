-- ===== src/Plugin/Cdi.antt =====
-- cmd/dra-rt-kubeletplugin/cdi.go. The CDI library and its registry are the parameter `lib`, over
-- registry states `R`.
use dra_rt_driver.Prelude.{
  ℕ, suc, String, string_key, ◌==◌, if◌then◌else◌, Option, none, some, List, [], ◌∷◌,
}
use Prim.Native.String.{◌++◌ as text_append}
use dra_rt_driver.Prelude.Int.{pos}
use dra_rt_driver.Prelude.Decimal.{itoa}
use dra_rt_driver.Prelude.GoMap.{lookup, entries}
use dra_rt_driver.Prelude.Outcome.{
  Outcome, ok, err, panic, failed, wrap_error, index_out_of_range, unknown_device_type,
  cdi_devices_nil, spec_version, spec_name, claim_missing, rtcpu_missing, cgroup_missing, ◌>>=◌,
  ◌>>◌,
}
use dra_rt_driver.Nas.{AllocatedCpu, AllocatedRtCpu, NodeAllocationStateSpec, rt_cpu_type}
use dra_rt_driver.Plugin.Devices.{PreparedRtCpuInfo, PreparedCpuset, prepared_type}

abbrev pub driver_name : String
driver_name = "rt.resource.example.com"

abbrev pub cdi_vendor : String
cdi_vendor = "k8s.rt.resource.example.com"

abbrev pub cdi_class : String
cdi_class = "cpu"

abbrev pub cdi_kind : String
cdi_kind = "k8s.rt.resource.example.com/cpu"

abbrev pub cdi_common_device_name : String
cdi_common_device_name = "common"

-- What the plugin fills in of the CDI library's `Device` and `Spec`.
pub record CdiDevice : Type 0 where
  pub name : String
  pub env : List String

pub record CdiSpec : Type 0 where
  pub version : String
  pub kind : String
  pub devices : List CdiDevice

pub record CdiLib (R : Type 0) : Type 0 where
  pub refresh : R → Outcome (Unit {0}) × R
  pub minimum_required_version : CdiSpec → Outcome String
  pub generate_name_for_transient_spec : CdiSpec → String → Outcome String
  pub generate_transient_spec_name : String → String → String → String
  pub qualified_name : String → String → String → String
  pub write_spec : CdiSpec → String → R → Outcome (Unit {0}) × R
  pub remove_spec : String → R → Outcome (Unit {0}) × R

-- `builder.WriteString`, with a dash between the numbers.
unfoldable pub join_cpus : List AllocatedCpu → String → String
join_cpus [] builder = builder
join_cpus (cpu ∷ cpus) builder =
    join_cpus cpus
      (text_append (if builder == "" then builder else text_append builder "-") (itoa cpu.id))

-- The names of the CDI device of a claim: runtime and period of its first CPU, and its CPUs.
unfoldable pub cgroup_names : List AllocatedCpu → Outcome (List String)
unfolding join_cpus
cgroup_names [] = panic index_out_of_range
cgroup_names (cpu ∷ cpus) =
    let runtime = text_append "runtime-" (itoa cpu.runtime) in
    let period = text_append "period-" (itoa cpu.period) in
    ok (text_append runtime (text_append "." period) ∷ join_cpus (cpu ∷ cpus) "" ∷ [])

unfoldable pub cgroup_of : Option AllocatedRtCpu → Outcome (List String)
cgroup_of none = err (failed rtcpu_missing)
cgroup_of (some rt) =
    if rt.cgroup_uid == "" then err (failed cgroup_missing) else cgroup_names rt.cpuset

-- `WriteCgroupToCDI`
unfoldable pub write_cgroup_to_cdi : String → NodeAllocationStateSpec → Outcome (List String)
write_cgroup_to_cdi uid crd = elim (lookup uid (entries crd.allocated_claims)) [
  | none ↦ err (failed claim_missing)
  | some claim ↦ cgroup_of claim.rt_cpu
]

-- The devices of a claim's spec, numbered from `cpu_idx` on.
unfoldable pub claim_devices : ℕ → List PreparedRtCpuInfo → List CdiDevice
claim_devices cpu_idx [] = []
claim_devices cpu_idx (device ∷ devices) =
    record {
      name = text_append "cpu" (itoa device.id);
      env =
          text_append "RT_DEVICE_"
            (text_append (itoa (pos cpu_idx)) (text_append "=" (itoa device.id)))
          ∷ [];
    }
    ∷ claim_devices (suc cpu_idx) devices

module _ {R : Type 0} (lib : CdiLib R) where
  -- The version and the name of a spec.
  unfoldable pub named_spec : CdiSpec → Outcome (CdiSpec × String)
  named_spec spec = do
    version ← wrap_error spec_version (lib.minimum_required_version spec)
    let spec' : CdiSpec = record spec { version = version }
    name ← wrap_error spec_name (lib.generate_name_for_transient_spec spec' cdi_common_device_name)
    ok (spec', name)

  abbrev write_named : Outcome (CdiSpec × String) → R → Outcome (Unit {0}) × R
  write_named (ok (spec, name)) r = lib.write_spec spec name r
  write_named (err e) r = (err e, r)
  write_named (panic p) r = (panic p, r)

  -- `CreateCommonSpecFile` on the node with the name `node_name`
  unfoldable pub create_common_spec_file : String → R → Outcome (Unit {0}) × R
  unfolding named_spec
  create_common_spec_file node_name r =
      let spec : CdiSpec = record {
        version = "";
        kind = cdi_kind;
        devices =
            record {
              name = cdi_common_device_name;
              env =
                  text_append "RT_NODE_NAME=" node_name
                  ∷ text_append "DRA_RESOURCE_DRIVER_NAME=" driver_name
                  ∷ [];
            }
            ∷ [];
      } in
      write_named (named_spec spec) r

  -- `CreateClaimSpecFile`: the spec is made and its version found; nothing is written.
  unfoldable pub create_claim_spec_file : PreparedCpuset → Outcome (Unit {0})
  unfolding claim_devices
  create_claim_spec_file devices = elim devices.rt_cpu [
    | none ↦ err (failed unknown_device_type)
    | some rt ↦ do
      wrap_error spec_version (
          lib.minimum_required_version
            (record { version = ""; kind = cdi_kind; devices = claim_devices 0 rt.cpuset }))
      ok tt
  ]

  -- `DeleteClaimSpecFile`
  unfoldable pub delete_claim_spec_file : String → R → Outcome (Unit {0}) × R
  delete_claim_spec_file uid r =
      lib.remove_spec (lib.generate_transient_spec_name cdi_vendor cdi_class uid) r

  abbrev named_device : Option (List String) → Outcome (List String)
  named_device none = err (failed cdi_devices_nil)
  named_device (some (vendor ∷ cpus ∷ rest)) = ok (lib.qualified_name vendor "CPUSET" cpus ∷ [])
  named_device (some rest) = panic index_out_of_range

  -- `GetClaimDevices`; the slice `rtCDIDevices` may be nil.
  unfoldable pub get_claim_devices : PreparedCpuset → Option (List String) → Outcome (List String)
  get_claim_devices devices rt_cdi_devices =
      if prepared_type devices == rt_cpu_type
      then named_device rt_cdi_devices
      else err (failed unknown_device_type)
