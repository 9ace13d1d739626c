-- ===== src/Resource.antt =====
-- What the controller reads and writes of the Kubernetes types `ResourceClaim`, `ResourceClass`,
-- `Pod`, `AllocationResult` and `controller.ClaimAllocation`.
use dra_rt_driver.Prelude.{String, Option, List, Bool}
use dra_rt_driver.Prelude.Outcome.{Error}
use dra_rt_driver.Params.{RtClaimParametersSpec, DeviceClassParametersSpec}

pub record ParametersRef : Type 0 where
  pub api_group : String
  pub kind : String
  pub name : String

pub record NodeSelectorRequirement : Type 0 where
  pub key : String
  pub operator : String
  pub values : List String

pub record NodeSelectorTerm : Type 0 where
  pub match_fields : List NodeSelectorRequirement

pub record AllocationResult : Type 0 where
  pub available_on_nodes : Option (List NodeSelectorTerm)
  pub shareable : Bool

pub record ResourceClaim : Type 0 where
  pub uid : String
  pub namespace : String
  pub parameters_ref : Option ParametersRef
  pub allocation : Option AllocationResult

pub record ResourceClass : Type 0 where
  pub parameters_ref : Option ParametersRef

pub record Pod : Type 0 where
  pub uid : String

-- The dynamic type of the `interface{}` that holds a claim's parameters.
pub data ClaimParameters : Type 0 where
  rt_claim : RtClaimParametersSpec → ClaimParameters
  other_parameters : ClaimParameters

pub record ClaimAllocation : Type 0 where
  pub claim : ResourceClaim
  pub class : ResourceClass
  pub claim_parameters : ClaimParameters
  pub class_parameters : Option DeviceClassParametersSpec
  pub unsuitable_nodes : List String
  pub allocation : Option AllocationResult
  pub error : Option Error
