-- ===== src/Triage/Finished.antt =====
-- cmd/triage: what finishTriage has done where it returns no error.
use hal_agent_operator.Base.{
  Text, [], ◌∷◌, Option, none, some, Error, Result, ok, err, utf8, ◌≡◌, ◌≢◌, refl, sym, ap, arith,
}
use hal_agent_operator.Triage.Report.{TriageResult}
use hal_agent_operator.Triage.Labels.{IssueRef, CallError, sync_triage_labels}
use hal_agent_operator.Triage.Feedback.{format_triage_comment}
use hal_agent_operator.Triage.Finish.{
  Surroundings, issue_ref, after_sync, after_comment, post_to, post_triage_feedback, compact,
  write_termination, logged, after_feedback, finish_triage,
}

module _ {World : Type 0} (s : Surroundings World) where
  -- The steps of finishTriage without an error.
  pub record Finished (w w' : World) (repo issue_number : Text) (result : TriageResult)
      : Type 0 where
    pub place : IssueRef
    pub url : Text
    pub commented : World
    pub synced : World
    pub place_read : issue_ref s (s.getenv (utf8 "GITHUB_TOKEN")) repo issue_number ≡ ok place
    pub comment :
        s.github.create_comment w place (format_triage_comment result) ≡ (commented, (url, none))
    pub url_given : url ≢ []
    pub labels : sync_triage_labels s.github place commented result ≡ (synced, none)
    pub report :
        s.write_log synced (s.marshal (compact s (record result { comment_url = url })))
        ≡ (w', none)

  logged-none : (x : World × Option Error) (w' : World) → logged s x ≡ (w', none) → x ≡ (w', none)
  unfolding logged
  logged-none (w, none) w' h = h
  logged-none (w, some e) w' h = ground arith

  after_sync-ok :
      (x : World × Option Error) (url : Text) (w' : World) (u : Text)
      → after_sync s x url ≡ (w', ok u)
      → (x ≡ (w', none)) × (u ≡ url)
  unfolding after_sync
  after_sync-ok (w, none) url w' u h = ground arith
  after_sync-ok (w, some e) url w' u h = ground arith

  after_feedback-none :
      (result : TriageResult) (x : World × Result Text) (w' : World)
      → after_feedback s result x ≡ (w', none)
      → (w1 : World) × (url : Text) × (x ≡ (w1, ok url))
        × (write_termination s w1 (record result { comment_url = url }) ≡ (w', none))
  unfolding after_feedback
  after_feedback-none result (w1, err e) w' h = ground arith
  after_feedback-none result (w1, ok url) w' h = (w1, url, refl, logged-none _ w' h)

  post_to-ok :
      (w : World) (p : Result IssueRef) (result : TriageResult) (w1 : World) (url : Text)
      → post_to s w p result ≡ (w1, ok url)
      → (i : IssueRef) × (p ≡ ok i)
        × (after_comment s i result (s.github.create_comment w i (format_triage_comment result))
            ≡ (w1, ok url))
  unfolding post_to
  post_to-ok w (err e) result w1 url h = ground arith
  post_to-ok w (ok i) result w1 url h = (i, refl, h)

  after_comment-ok :
      (i : IssueRef) (result : TriageResult) (x : World × (Text × Option CallError)) (w1 : World)
      (url : Text)
      → after_comment s i result x ≡ (w1, ok url)
      → (wc : World) × (x ≡ (wc, (url, none)))
        × (url ≢ [])
        × (sync_triage_labels s.github i wc result ≡ (w1, none))
  unfolding after_comment
  after_comment-ok i result (wc, (u, some e)) w1 url h = ground arith
  after_comment-ok i result (wc, ([], none)) w1 url h = ground arith
  after_comment-ok i result (wc, (c ∷ u, none)) w1 url h =
      let (l, same) = after_sync-ok (sync_triage_labels s.github i wc result) (c ∷ u) w1 url h in
      (wc, ap (λ (v : Text). (wc, (v, none))) (sym same), λ n. ground (arith, same, n), l)

  -- Where finishTriage returns no error the issue has the comment and its labels, in this order, and
  -- the report that was written last names the comment.
  pub finish_triage-Finished :
      (w w' : World) (repo issue_number : Text) (result : TriageResult)
      → finish_triage s w repo issue_number result ≡ (w', none)
      → Finished w w' repo issue_number result
  unfolding finish_triage post_triage_feedback write_termination
  finish_triage-Finished w w' repo issue_number result h =
      let (w1, url, posted, r) = after_feedback-none result _ w' h in
      let (i, place, commented) = post_to-ok w _ result w1 url posted in
      let (wc, c, n, l) = after_comment-ok i result _ w1 url commented in
      record {
        place = i;
        url = url;
        commented = wc;
        synced = w1;
        place_read = place;
        comment = c;
        url_given = n;
        labels = l;
        report = r;
      }
