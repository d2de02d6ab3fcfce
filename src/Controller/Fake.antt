-- ===== src/Controller/Fake.antt =====
-- A cluster in memory with one object, which runs the scenarios and shows that the laws of a
-- cluster can hold.
use hal_agent_operator.Base.{
  Bool, true, text_eq, text_eq_iff, text_eq_refl, utf8, List, [], ◌∷◌, Option, none, some, ◌&&◌,
  not_found, Result, ok, err, if◌then◌else◌, arith, ◌≡◌, refl, ◌⊎◌, inl, inr, sym, ap, subst, ◌∙◌,
  Bool-cases,
}
use hal_agent_operator.Api.{IssueResolution, Condition}
use hal_agent_operator.Kube.{Job, Pod, ObjectKey, Cluster}
use hal_agent_operator.Kube.Laws.{IsCluster, key_of}

-- The pods are those that the reader's selector finds.
pub record Fake : Type 0 where
  pub issue : Option IssueResolution
  pub jobs : List Job
  pub history : List Job
  pub pods : List Pod

abbrev key_eq : ObjectKey → ObjectKey → Bool
key_eq a b = text_eq a.namespace b.namespace && text_eq a.name b.name

key_eq-eq : (a b : ObjectKey) → key_eq a b ≡ true → a ≡ b
key_eq-eq a b h = ground (arith, text_eq_iff a.namespace b.namespace, text_eq_iff a.name b.name)

-- The object under a key.
unfoldable pub stored_at : Option IssueResolution → ObjectKey → Option IssueResolution
stored_at none k = none
stored_at (some ir) k = if key_eq k (key_of ir) then some ir else none

unfoldable pub found : {A : Type 0} → Option A → Result A
found none = err (not_found (utf8 "not found"))
found (some a) = ok a

unfoldable pub find_job : List Job → ObjectKey → Option Job
find_job [] k = none
find_job (job ∷ jobs) k =
    if text_eq job.namespace k.namespace && text_eq job.name k.name
    then some job
    else find_job jobs k

unfoldable pub patched : Option IssueResolution → IssueResolution → Option IssueResolution
patched none changed = none
patched (some ir) changed =
    if key_eq (key_of ir) (key_of changed)
    then some (record ir { status = changed.status })
    else some ir

unfoldable pub set_in : List Condition → Condition → List Condition
set_in [] x = x ∷ []
set_in (y ∷ ys) x = if text_eq y.kind x.kind then x ∷ ys else y ∷ set_in ys x

abbrev pub fake : Cluster Fake
fake = record {
  get_issue = λ w k. found (stored_at w.issue k);
  patch_status = λ w orig changed. (record w { issue = patched w.issue changed }, none);
  get_job = λ w k. found (find_job w.jobs k);
  create_job = λ w job. (record w { jobs = job ∷ w.jobs; history = job ∷ w.history }, none);
  list_pods = λ w namespace selector. ok w.pods;
  set_controller_reference = λ ir job. ok (record job { owner = some ir.name });
  set_status_condition = set_in;
}

pub found-ok : {A : Type 0} (o : Option A) (a : A) → found o ≡ ok a → o ≡ some a
unfolding found
found-ok none a e = cc
found-ok (some b) a e = ground arith

pub stored_at-some :
    (y : IssueResolution) (k : ObjectKey) (x : IssueResolution)
    → stored_at (some y) k ≡ some x
    → (x ≡ y) × (k ≡ key_of y)
unfolding stored_at
stored_at-some y k x e = elim (Bool-cases (key_eq k (key_of y))) [
  | inl t ↦ (ground arith, key_eq-eq k (key_of y) t)
  | inr n ↦ ground arith
]

pub stored_at-key :
    (o : Option IssueResolution) (k : ObjectKey) (ir : IssueResolution)
    → stored_at o k ≡ some ir
    → key_of ir ≡ k
stored_at-key none k ir e = unfold stored_at in cc
stored_at-key (some y) k ir e =
    let (same, key) = stored_at-some y k ir e in ap key_of same ∙ sym key

patched-cases :
    (ir changed : IssueResolution)
    → (patched (some ir) changed ≡ some ir)
      ⊎ ((patched (some ir) changed ≡ some (record ir { status = changed.status }))
          × (key_of ir ≡ key_of changed))
unfolding patched
patched-cases ir changed = elim (Bool-cases (key_eq (key_of ir) (key_of changed))) [
  | inl t ↦ inr (rw t, key_eq-eq (key_of ir) (key_of changed) t)
  | inr n ↦ inl (rw n)
]

pub stored_at-patched :
    (o : Option IssueResolution) (changed : IssueResolution) (k : ObjectKey) (x : IssueResolution)
    → stored_at (patched o changed) k ≡ some x
    → (stored_at o k ≡ some x) ⊎ ((k ≡ key_of changed) × (x.status ≡ changed.status))
stored_at-patched none changed k x e = inl (unfold patched in e)
stored_at-patched (some ir) changed k x e = elim (patched-cases ir changed) [
  | inl same ↦ inl (subst (λ o. stored_at o k ≡ some x) same e)
  | inr (new, key) ↦
      let (eq, at_key) =
        stored_at-some (record ir { status = changed.status }) k x
          (subst (λ o. stored_at o k ≡ some x) new e) in
      inr (at_key ∙ key, ap (λ (z : IssueResolution). z.status) eq)
]

pub stored_at_self :
    (ir : IssueResolution) (k : ObjectKey) → k ≡ key_of ir → stored_at (some ir) k ≡ some ir
unfolding stored_at
stored_at_self ir k e = rw e (rw (text_eq_refl ir.namespace) (rw (text_eq_refl ir.name)))

pub owned :
    (ir : IssueResolution) (job job' : Job)
    → fake.set_controller_reference ir job ≡ ok job'
    → job' ≡ record job { owner = job'.owner }
owned ir job job' e = ground arith

abbrev pub fake_laws : IsCluster fake
fake_laws = record {
  stored = λ w. stored_at w.issue;
  created = λ w. w.history;
  get-stored = λ w k ir e. (found-ok _ ir e, stored_at-key w.issue k ir (found-ok _ ir e));
  stored-patch = λ w orig changed k x current e. stored_at-patched w.issue changed k x e;
  created-patch = λ w orig changed. refl;
  stored-create = λ w job k. refl;
  created-create = λ w job. inr refl;
  set_controller_reference_owner = owned;
}
