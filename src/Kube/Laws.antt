-- ===== src/Kube/Laws.antt =====
-- What the program relies on of the API server and of the two library helpers, as named laws over
-- two views of a world: the stored objects, and the Jobs that were ever created.
use hal_agent_operator.Base.{List, [], ◌∷◌, Option, some, ok, ◌≡◌, ◌⊎◌, false, pos}
use hal_agent_operator.Api.{IssueResolution, IssueResolutionStatus, unset}
use hal_agent_operator.Kube.{Job, ObjectKey, Cluster}

abbrev pub key_of : IssueResolution → ObjectKey
key_of ir = record { namespace = ir.namespace; name = ir.name }

-- The status of an object that the operator has not seen.
abbrev pub new_status : IssueResolutionStatus
new_status = record {
  phase = unset;
  observed_generation = pos 0;
  triage = record {
    in_scope = false;
    suspicious = false;
    summary = [];
    model = [];
    parse_error = false;
  };
  plan = record { comment_url = []; summary = [] };
  execution = record {
    attempt = pos 0;
    job_name = [];
    branch = [];
    pr_url = [];
    pr_number = pos 0;
  };
  message = [];
  conditions = [];
}

-- A write may fail and have been applied all the same. A read answers what the API server stores: the
-- cache of the manager's client has caught up. The status patch is client.MergeFrom, which sends what
-- differs between the two objects: where the stored status is still the one it starts from, the result
-- is the new status (without resourceVersion in it, nothing else is checked).
pub record IsCluster {World : Type 0} (c : Cluster World) : Type 0 where
  pub stored : World → ObjectKey → Option IssueResolution
  pub created : World → List Job
  pub get-stored :
      (w : World) (k : ObjectKey) (ir : IssueResolution)
      → c.get_issue w k ≡ ok ir
      → (stored w k ≡ some ir) × (key_of ir ≡ k)
  pub stored-patch :
      (w : World) (orig changed : IssueResolution) (k : ObjectKey) (x : IssueResolution)
      → ((y : IssueResolution) → stored w (key_of changed) ≡ some y → y.status ≡ orig.status)
      → stored (c.patch_status w orig changed).0 k ≡ some x
      → (stored w k ≡ some x) ⊎ ((k ≡ key_of changed) × (x.status ≡ changed.status))
  pub created-patch :
      (w : World) (orig changed : IssueResolution)
      → created (c.patch_status w orig changed).0 ≡ created w
  pub stored-create :
      (w : World) (job : Job) (k : ObjectKey) → stored (c.create_job w job).0 k ≡ stored w k
  pub created-create :
      (w : World) (job : Job)
      → (created (c.create_job w job).0 ≡ created w)
        ⊎ (created (c.create_job w job).0 ≡ job ∷ created w)
  pub set_controller_reference_owner :
      (ir : IssueResolution) (job job' : Job)
      → c.set_controller_reference ir job ≡ ok job'
      → job' ≡ record job { owner = job'.owner }
