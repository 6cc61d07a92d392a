-- ===== src/Tekton.antt =====
-- internal/tektontypes/types.go: the Tekton objects that the engine reads. An optional pointer is
-- an `Option`, a duration or a quantity is its text. What Kubernetes' own packages define is
-- carried and never read, so its types are those of a parameter `Kube`.
pub mod Rows
use tkn_act.Base.{ℕ, String, Bool, Option, List, Map}
use tkn_act.Base.Integers.{ℤ}

-- k8s.io/api/core/v1, which is not part of the repository
pub record Kube : Type 1 where
  pub SecurityContext : Type 0
  pub EnvFromSource : Type 0
  pub EnvVarSource : Type 0

pub data ParamType : Type 0 where
  unset string array object : ParamType

pub record ParamValue : Type 0 where
  pub type : ParamType
  pub string_val : String
  pub array_val : List String
  pub object_val : Map String

pub record Param : Type 0 where
  pub name : String
  pub value : ParamValue

pub record ParamSpec : Type 0 where
  pub name : String
  pub default : Option ParamValue

pub record WhenExpression : Type 0 where
  pub input : String
  pub operator : String
  pub values : List String

pub record MatrixParam : Type 0 where
  pub name : String
  pub value : List String

pub record MatrixInclude : Type 0 where
  pub name : String
  pub params : List Param

pub record Matrix : Type 0 where
  pub params : List MatrixParam
  pub includes : List MatrixInclude

pub record MatrixInfo : Type 0 where
  pub parent : String
  pub index : ℕ
  pub of : ℕ
  pub params : Map String
  pub include_name : String

pub record TaskRef : Type 0 where
  pub name : String
  pub resolver : String
  pub resolver_params : List Param

pub record WorkspaceBinding : Type 0 where
  pub name : String
  pub workspace : String
  pub sub_path : String

pub record WorkspaceDecl : Type 0 where
  pub name : String
  pub mount_path : String
  pub optional : Bool

pub record VolumeMount : Type 0 where
  pub name : String
  pub mount_path : String
  pub sub_path : String

pub record StepResources : Type 0 where
  pub limits : Map String
  pub requests : Map String

-- The sources of a volume, each by the field that is read: medium, path and the names.
pub record Volume : Type 0 where
  pub name : String
  pub empty_dir : Option String
  pub host_path : Option String
  pub config_map : Option String
  pub secret : Option String

-- A declared result.
pub record ResultSpec : Type 0 where
  pub name : String
  pub type : String

pub record PipelineResultSpec : Type 0 where
  pub name : String
  pub value : ParamValue

pub record Timeouts : Type 0 where
  pub pipeline : String
  pub tasks : String
  pub finally : String

module _ (k : Kube) where
  open k use {SecurityContext, EnvFromSource, EnvVarSource}

  pub record EnvVar : Type 0 where
    pub name : String
    pub value : String
    pub value_from : Option EnvVarSource

  pub record StepTemplate : Type 0 where
    pub image : String
    pub command : List String
    pub args : List String
    pub env : List EnvVar
    pub working_dir : String
    pub resources : Option StepResources
    pub image_pull_policy : String
    pub security_context : Option SecurityContext
    pub env_from : List EnvFromSource

  pub record Step : Type 0 where
    pub name : String
    pub display_name : String
    pub ref : Option String
    pub params : List Param
    pub image : String
    pub command : List String
    pub args : List String
    pub script : String
    pub env : List EnvVar
    pub working_dir : String
    pub resources : Option StepResources
    pub image_pull_policy : String
    pub security_context : Option SecurityContext
    pub env_from : List EnvFromSource
    pub timeout : String
    pub on_error : String
    pub results : List ResultSpec
    pub volume_mounts : List VolumeMount

  pub record Sidecar : Type 0 where
    pub name : String
    pub image : String
    pub command : List String
    pub args : List String
    pub script : String
    pub env : List EnvVar
    pub working_dir : String
    pub volume_mounts : List VolumeMount
    pub security_context : Option SecurityContext
    pub env_from : List EnvFromSource

  pub record StepAction : Type 0 where
    pub name : String
    pub params : List ParamSpec
    pub results : List ResultSpec
    pub image : String
    pub command : List String
    pub args : List String
    pub script : String
    pub env : List EnvVar
    pub working_dir : String
    pub image_pull_policy : String
    pub resources : Option StepResources
    pub volume_mounts : List VolumeMount

  pub record TaskSpec : Type 0 where
    pub params : List ParamSpec
    pub workspaces : List WorkspaceDecl
    pub steps : List Step
    pub timeout : String
    pub step_template : Option StepTemplate
    pub sidecars : List Sidecar
    pub results : List ResultSpec
    pub volumes : List Volume

  pub record PipelineTask : Type 0 where
    pub name : String
    pub display_name : String
    pub task_ref : Option TaskRef
    pub task_spec : Option TaskSpec
    pub params : List Param
    pub workspaces : List WorkspaceBinding
    pub run_after : List String
    pub when : List WhenExpression
    pub retries : ℤ
    pub timeout : String
    pub matrix : Option Matrix
    pub matrix_info : Option MatrixInfo

  pub record Pipeline : Type 0 where
    pub name : String
    pub params : List ParamSpec
    pub workspaces : List String
    pub tasks : List PipelineTask
    pub finally : List PipelineTask
    pub results : List PipelineResultSpec
    pub timeouts : Option Timeouts
