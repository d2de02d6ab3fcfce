-- ===== src/Triage/Silent.antt =====
-- cmd/triage: finishTriage does not ask the model anything.
use hal_agent_operator.Base.{
  Text, List, [], ◌∷◌, Option, none, some, Error, Result, ok, err, ◌≡◌, refl, ◌∙◌, arith,
}
use hal_agent_operator.Gemini.Call.{Request}
use hal_agent_operator.Triage.Report.{TriageResult}
use hal_agent_operator.Triage.Labels.{
  IssueRef, CallError, remove_labels, after_remove, ensure_label, ensure_labels, label_color,
  created, after_ensure, added, triage_label_plan, sync_triage_labels,
}
use hal_agent_operator.Triage.Finish.{
  Surroundings, post_triage_feedback, post_to, after_comment, after_sync, write_termination, logged,
  after_feedback, finish_triage,
}
use hal_agent_operator.Triage.Run.{Model}

-- The requests of a world: only a call of Gemini adds one.
pub record IsLog {World : Type 0} (s : Surroundings World) (m : Model World)
    (asked : World → List Request) : Type 0 where
  pub asks : (w : World) (r : Request) → asked (m.genai.generate w r).0 ≡ r ∷ asked w
  pub comments :
      (w : World) (i : IssueRef) (body : Text)
      → asked (s.github.create_comment w i body).0 ≡ asked w
  pub removes :
      (w : World) (i : IssueRef) (l : Text) → asked (s.github.remove_label w i l).0 ≡ asked w
  pub creates :
      (w : World) (i : IssueRef) (n c : Text) → asked (s.github.create_label w i n c).0 ≡ asked w
  pub adds :
      (w : World) (i : IssueRef) (ls : List Text) → asked (s.github.add_labels w i ls).0 ≡ asked w
  pub logs : (w : World) (t : Text) → asked (s.write_log w t).0 ≡ asked w

module _ {World : Type 0} (s : Surroundings World) (m : Model World) (asked : World → List Request)
    (log : IsLog s m asked) where
  -- A step of the feedback that ends in a world.
  abbrev Same : {A : Type 0} → World → World × A → Type 0
  Same w x = asked x.0 ≡ asked w

  after_remove-Same :
      (w : World) (i : IssueRef) (name : Text) (rest : World × Option Error)
      (x : World × Option CallError)
      → Same w rest
      → Same w x
      → Same w (after_remove s.github i name rest x)
  unfolding after_remove
  after_remove-Same w i name rest (w1, none) r h = r
  after_remove-Same w i name rest (w1, some e) r h = ground arith

  remove_labels-Same :
      (w : World) (i : IssueRef) (names : List Text) → Same w (remove_labels s.github i w names)
  unfolding remove_labels
  remove_labels-Same w i [] = refl
  remove_labels-Same w i (name ∷ names) =
      let answer = s.github.remove_label w i name in
      after_remove-Same w i name (remove_labels s.github i answer.0 names) answer
        (remove_labels-Same answer.0 i names ∙ log.removes w i name) (log.removes w i name)

  created-Same :
      (w : World) (i : IssueRef) (name : Text) (x : World × Option CallError)
      → Same w x
      → Same w (created s.github i name x)
  unfolding created
  created-Same w i name (w1, none) h = h
  created-Same w i name (w1, some e) h = ground arith

  after_ensure-Same :
      (w : World) (i : IssueRef) (x rest : World × Option Error)
      → Same w x
      → Same w rest
      → Same w (after_ensure s.github i x rest)
  unfolding after_ensure
  after_ensure-Same w i (w1, none) rest h r = r
  after_ensure-Same w i (w1, some e) rest h r = h

  ensure_label-Same :
      (w : World) (i : IssueRef) (name : Text) → Same w (ensure_label s.github i w name)
  unfolding ensure_label
  ensure_label-Same w i name =
      created-Same w i name (s.github.create_label w i name (label_color name))
        (log.creates w i name (label_color name))

  ensure_labels-Same :
      (w : World) (i : IssueRef) (names : List Text) → Same w (ensure_labels s.github i w names)
  unfolding ensure_labels
  ensure_labels-Same w i [] = refl
  ensure_labels-Same w i (name ∷ names) =
      let made = ensure_label s.github i w name in
      let one = ensure_label-Same w i name in
      after_ensure-Same w i made (ensure_labels s.github i made.0 names) one
        (ensure_labels-Same made.0 i names ∙ one)

  added-Same :
      (w : World) (i : IssueRef) (x : World × Option CallError)
      → Same w x
      → Same w (added s.github i x)
  unfolding added
  added-Same w i (w1, none) h = h
  added-Same w i (w1, some e) h = h

  sync-Same :
      (w : World) (i : IssueRef) (result : TriageResult)
      → Same w (sync_triage_labels s.github i w result)
  unfolding sync_triage_labels
  sync-Same w i result =
      let plan = triage_label_plan result in
      let removed = remove_labels s.github i w plan.1 in
      let made = ensure_labels s.github i removed.0 plan.0 in
      let a = remove_labels-Same w i plan.1 in
      let b = ensure_labels-Same removed.0 i plan.0 ∙ a in
      let put = s.github.add_labels made.0 i plan.0 in
      let c = added-Same w i put (log.adds made.0 i plan.0 ∙ b) in
      after_ensure-Same w i removed (after_ensure s.github i made (added s.github i put)) a
        (after_ensure-Same w i made (added s.github i put) b c)

  after_sync-Same :
      (w : World) (x : World × Option Error) (url : Text) → Same w x → Same w (after_sync s x url)
  unfolding after_sync
  after_sync-Same w (w1, none) url h = h
  after_sync-Same w (w1, some e) url h = h

  after_comment-Same :
      (w : World) (i : IssueRef) (result : TriageResult) (x : World × (Text × Option CallError))
      → Same w x
      → Same w (after_comment s i result x)
  unfolding after_comment
  after_comment-Same w i result (w1, (url, some e)) h = h
  after_comment-Same w i result (w1, ([], none)) h = h
  after_comment-Same w i result (w1, (c ∷ url, none)) h =
      after_sync-Same w _ _ (sync-Same w1 i result ∙ h)

  post_to-Same :
      (w : World) (p : Result IssueRef) (result : TriageResult) → Same w (post_to s w p result)
  unfolding post_to
  post_to-Same w (err e) result = refl
  post_to-Same w (ok i) result = after_comment-Same w i result _ (log.comments w i _)

  logged-Same : (w : World) (x : World × Option Error) → Same w x → Same w (logged s x)
  unfolding logged
  logged-Same w (w1, none) h = h
  logged-Same w (w1, some e) h = h

  after_feedback-Same :
      (w : World) (result : TriageResult) (x : World × Result Text)
      → Same w x
      → Same w (after_feedback s result x)
  unfolding after_feedback write_termination
  after_feedback-Same w result (w1, err e) h = log.logs w1 _ ∙ h
  after_feedback-Same w result (w1, ok url) h = logged-Same w _ (log.logs w1 _ ∙ h)

  pub finish_triage-Same :
      (w : World) (repo number : Text) (result : TriageResult)
      → Same w (finish_triage s w repo number result)
  unfolding finish_triage post_triage_feedback
  finish_triage-Same w repo number result = after_feedback-Same w result _ (post_to-Same w _ result)
