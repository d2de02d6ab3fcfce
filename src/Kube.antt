-- ===== src/Kube.antt =====
-- The Kubernetes objects that the controller builds and reads (of batch/v1 and core/v1, the fields
-- that it uses), and its view of the API server: the client calls as operations on a world.
pub mod Laws
pub mod Environment
use hal_agent_operator.Base.{ℕ, ℤ, Text, Bool, Option, List, Error, Result}
use hal_agent_operator.Api.{IssueResolution, Condition}

pub data EnvSource : Type 0 where
  literal : Text → EnvSource
  secret_key_ref : (secret key : Text) → EnvSource

pub record EnvVar : Type 0 where
  pub name : Text
  pub source : EnvSource

pub data SeccompProfile : Type 0 where
  runtime_default unconfined : SeccompProfile

pub data RestartPolicy : Type 0 where
  always on_failure never : RestartPolicy

-- corev1.PodSecurityContext
pub record PodSecurityContext : Type 0 where
  pub run_as_non_root : Option Bool
  pub run_as_user : Option ℤ  -- *int64
  pub seccomp_profile : Option SeccompProfile

-- corev1.SecurityContext
pub record SecurityContext : Type 0 where
  pub allow_privilege_escalation : Option Bool
  pub read_only_root_filesystem : Option Bool
  pub drop : List Text

pub record VolumeMount : Type 0 where
  pub name : Text
  pub mount_path : Text

-- The one volume source that the code uses is an empty directory.
pub data VolumeSource : Type 0 where
  empty_dir : VolumeSource

pub record Volume : Type 0 where
  pub name : Text
  pub source : VolumeSource

pub record Container : Type 0 where
  pub name : Text
  pub image : Text
  pub command : List Text
  pub security : SecurityContext
  pub env : List EnvVar
  pub volume_mounts : List VolumeMount

pub record PodSpec : Type 0 where
  pub restart_policy : RestartPolicy
  pub service_account_name : Text
  pub automount_service_account_token : Option Bool
  pub security : PodSecurityContext
  pub containers : List Container
  pub volumes : List Volume
  pub runtime_class_name : Option Text

abbrev pub Labels : Type 0
Labels = List (Text × Text)

-- `owner` is the name of the controller reference, `succeeded` and `failed` count pods.
pub record Job : Type 0 where
  pub name : Text
  pub namespace : Text
  pub labels : Labels
  pub owner : Option Text
  pub uid : Text
  pub backoff_limit : Option ℤ  -- *int32
  pub active_deadline_seconds : Option ℤ  -- *int64
  pub ttl_seconds_after_finished : Option ℤ  -- *int32
  pub template_labels : Labels
  pub template : PodSpec
  pub succeeded : ℤ  -- int32
  pub failed : ℤ  -- int32

-- The state of a container that has terminated.
pub record Terminated : Type 0 where
  pub exit_code : ℤ  -- int32
  pub message : Text

-- `terminated` is nil for a container that waits or runs.
pub record ContainerStatus : Type 0 where
  pub terminated : Option Terminated

pub record Pod : Type 0 where
  pub labels : Labels
  pub container_statuses : List ContainerStatus

-- metav1.NamespacedName
pub record ObjectKey : Type 0 where
  pub namespace : Text
  pub name : Text

-- The calls that leave the program: the controller-runtime client, whose reads depend on the world
-- and whose writes change it, controllerutil.SetControllerReference and meta.SetStatusCondition.
pub record Cluster (World : Type 0) : Type 0 where
  pub get_issue : World → ObjectKey → Result IssueResolution
  pub patch_status : World → (orig changed : IssueResolution) → World × Option Error
  pub get_job : World → ObjectKey → Result Job
  pub create_job : World → Job → World × Option Error
  pub list_pods : World → (namespace : Text) → Labels → Result (List Pod)
  pub set_controller_reference : IssueResolution → Job → Result Job
  pub set_status_condition : List Condition → Condition → List Condition
