-- ===== src/Controller/Security.antt =====
-- What buildTriageJob and buildFixJob promise of the pods: the hardening of both, the secrets that
-- each may read, and the labels by which its report is found.
use hal_agent_operator.Base.{
  Bool, true, false, Text, text_eq, text_eq_refl, utf8, List, [], ◌∷◌, ◌++◌, some, ◌&&◌, ◌||◌,
  arith, ◌≡◌, refl, sym, subst, All, All-map, if_intro, is_empty, ℤ,
}
use hal_agent_operator.Api.{IssueResolution}
use hal_agent_operator.Kube.{
  EnvVar, literal, secret_key_ref, runtime_default, never, PodSpec, Container, Labels, Job, Cluster,
}
use hal_agent_operator.Kube.Laws.{IsCluster}
use hal_agent_operator.Controller.Config.{
  Reconciler, gemini_secret_name, gemini_secret_key, github_triage_secret_name,
  github_fix_secret_name, github_secret_key,
}
use hal_agent_operator.Controller.Jobs.{
  triage_job, fix_job, triage_env, fix_env, apply_job_pod_runtime_class, job_role_triage,
  job_role_fix, label_job_controller_uid,
}
use hal_agent_operator.Controller.Results.{Json, job_pod_labels}
use hal_agent_operator.Controller.Runs.{History, Run}
use hal_agent_operator.Controller.Gate.{IsLicensed, for_triage, for_fix, created-IsLicensed}

abbrev pub IsHardenedContainer : Container → Type 0
IsHardenedContainer x =
    (x.security.allow_privilege_escalation ≡ some false)
    × (x.security.read_only_root_filesystem ≡ some true)
    × (x.security.drop ≡ utf8 "ALL" ∷ [])

-- No root, no token of the cluster, no privilege to gain, and nothing to write outside the volumes.
pub record IsHardened (p : PodSpec) : Type 0 where
  pub non_root : p.security.run_as_non_root ≡ some true
  pub seccomp : p.security.seccomp_profile ≡ some runtime_default
  pub no_token : p.automount_service_account_token ≡ some false
  pub never_restarted : p.restart_policy ≡ never
  pub hardened_containers : All IsHardenedContainer p.containers

apply-IsHardened :
    (r : Reconciler) (p : PodSpec) → IsHardened p → IsHardened (apply_job_pod_runtime_class r p)
unfolding apply_job_pod_runtime_class
apply-IsHardened r p h =
    if_intro IsHardened (is_empty r.job_runtime_class_name) (λ _. h)
      (λ _. record {
        non_root = h.non_root;
        seccomp = h.seccomp;
        no_token = h.no_token;
        never_restarted = h.never_restarted;
        hardened_containers = h.hardened_containers;
      })

triage_job-IsHardened :
    (r : Reconciler) (ir : IssueResolution) → IsHardened (triage_job r ir).template
unfolding triage_job
triage_job-IsHardened r ir = apply-IsHardened r _ (record {
  non_root = refl;
  seccomp = refl;
  no_token = refl;
  never_restarted = refl;
  hardened_containers = ((refl, refl, refl), tt);
})

fix_job-IsHardened :
    (r : Reconciler) (ir : IssueResolution) (attempt : ℤ) (branch : Text)
    → IsHardened (fix_job r ir attempt branch).template
unfolding fix_job
fix_job-IsHardened r ir attempt branch = apply-IsHardened r _ (record {
  non_root = refl;
  seccomp = refl;
  no_token = refl;
  never_restarted = refl;
  hardened_containers = ((refl, refl, refl), tt);
})

-- The secrets that an environment refers to.
pub secret_refs : List EnvVar → List (Text × Text)
secret_refs [] = []
secret_refs (e ∷ env) = elim e.source [
  | literal v ↦ secret_refs env
  | secret_key_ref secret key ↦ (secret, key) ∷ secret_refs env
]

-- Whether the labels of a pod have all of a selector: client.MatchingLabels.
pub has_label : Labels → Text → Text → Bool
has_label [] k v = false
has_label ((k', v') ∷ labels) k v = (text_eq k' k && text_eq v' v) || has_label labels k v

pub matches : Labels → Labels → Bool
matches [] labels = true
matches ((k, v) ∷ selector) labels = has_label labels k v && matches selector labels

-- The labels of a pod of a Job: those of the template, and the one that the Job controller adds.
abbrev pub pod_labels : Job → Labels
pod_labels job = job.template_labels ++ (label_job_controller_uid, job.uid) ∷ []

module _ {World : Type 0} (c : Cluster World) (laws : IsCluster c) (j : Json) (r : Reconciler) where
  -- Every Job that was created in a run has hardened pods.
  pub created-IsHardened :
      {w : World} {h : History}
      → Run c laws j r w h
      → All (λ (job : Job). IsHardened job.template) (laws.created w)
  created-IsHardened run = All-map _ hardened (created-IsLicensed c laws j r run)
    where
      hardened : {h : History} (job : Job) → IsLicensed c laws j r h job → IsHardened job.template
      hardened job (for_triage ir _ _ e) =
          subst (λ (x : Job). IsHardened x.template) (sym e) (triage_job-IsHardened r ir)
      hardened job (for_fix ir _ _ _ e) =
          subst (λ (x : Job). IsHardened x.template) (sym e) (fix_job-IsHardened r ir _ _)

-- The triage container reads the Gemini key and the triage token, the fix container the Gemini key
-- and the fix token, and neither any other secret.
pub secrets_of_roles :
    (r : Reconciler) (ir : IssueResolution) (attempt : ℤ) (branch : Text)
    → (secret_refs (triage_env r ir)
        ≡ (gemini_secret_name r, gemini_secret_key r)
          ∷ (github_triage_secret_name r, github_secret_key r)
          ∷ [])
      × (secret_refs (fix_env r ir attempt branch)
          ≡ (gemini_secret_name r, gemini_secret_key r)
            ∷ (github_fix_secret_name r, github_secret_key r)
            ∷ [])
unfolding secret_refs triage_env fix_env
secrets_of_roles r ir attempt branch = (refl, ground arith)

-- The selector of each reader finds the pods of its own Job, whatever UID the Job was given, and
-- never those of the other role.
pub reports_are_found :
    (r : Reconciler) (ir : IssueResolution) (attempt : ℤ) (branch uid : Text) (other : Job)
    → let fix = record (fix_job r ir attempt branch) { uid = uid } in
      let triage = record (triage_job r ir) { uid = uid } in
      (matches (job_pod_labels ir job_role_fix fix) (pod_labels fix) ≡ true)
      × (matches (job_pod_labels ir job_role_triage triage) (pod_labels triage) ≡ true)
      × (matches (job_pod_labels ir job_role_fix other) (pod_labels triage) ≡ false)
      × (matches (job_pod_labels ir job_role_triage other) (pod_labels fix) ≡ false)
unfolding fix_job triage_job matches has_label job_pod_labels utf8
reports_are_found r ir attempt branch uid other = (
  rw (text_eq_refl ir.name) (rw (text_eq_refl uid)),
  rw (text_eq_refl ir.name) (rw (text_eq_refl uid)),
  rw (text_eq_refl ir.name),
  rw (text_eq_refl ir.name),
)
