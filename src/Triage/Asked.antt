-- ===== src/Triage/Asked.antt =====
-- cmd/triage/main.go: what the model is asked.
use hal_agent_operator.Base.{
  Text, List, [], ◌∷◌, ◌++◌, utf8, ok, err, ◌≡◌, ◌⊎◌, inl, inr, refl, ap, ◌∙◌, Act, Outcome, panics,
  returns, bind-post, Keeps, perform-Keeps, require-Keeps, keeps, sym, attempt, ◌>>=◌,
}
use hal_agent_operator.Gemini.Call.{Request, CallOptions, request, call}
use hal_agent_operator.Triage.Report.{TriageResult}
use hal_agent_operator.Triage.Finish.{Surroundings, write_termination}
use hal_agent_operator.Triage.Suspicious.{ScanFinding, scan_suspicious}
use hal_agent_operator.Triage.Sanitize.{sanitize_for_model}
use hal_agent_operator.Triage.Silent.{IsLog, finish_triage-Same}
use hal_agent_operator.Triage.Run.{
  Issue, read_issue, Model, triage_system, triage_user, default_options, finishing, ask_model,
  decide, triage, run, exit, main,
}

either : {A B C : Type 0} → (A → C) → (B → C) → A ⊎ B → C
either f g (inl a) = f a
either f g (inr b) = g b

-- The user's part of the prompt, of a title and a body: it names them and the issue, and no more.
abbrev pub prompt : Issue → (title body : Text) → Text
prompt i title body =
    utf8 "Repository: "
    ++ (i.repo
        ++ (utf8 "\nIssue #"
            ++ (i.number
                ++ (utf8 "\nAuthor: "
                    ++ (i.author
                        ++ (utf8 "\nTitle: " ++ (title ++ (utf8 "\n\nBody:\n" ++ body))))))))

-- The request that may be sent: the raw title and body reach it through sanitizeForModel only.
abbrev pub question : Issue → Request
question i =
    request i.api_key i.model triage_system
      (prompt i (sanitize_for_model i.title).0 (sanitize_for_model i.body).0)
      (record { response_mime_type = []; max_output_tokens = 0 })

module _ {World : Type 0} (s : Surroundings World) (m : Model World) (asked : World → List Request)
    (log : IsLog s m asked) where
  finishing-Keeps : (i : Issue) (result : TriageResult) → Keeps asked (finishing s m i result)
  finishing-Keeps i result =
      perform-Keeps asked _ _ (λ w. finish_triage-Same s m asked log w i.repo i.number result)

  -- At most one request is added, and it is this one.
  record Asks (r : Request) {A : Type 0} (n : Act World A) : Type 0 where
    once : (w : World) → (asked (n w).0 ≡ asked w) ⊎ (asked (n w).0 ≡ r ∷ asked w)

  Keeps-Asks : {A : Type 0} (r : Request) (n : Act World A) → Keeps asked n → Asks r n
  Keeps-Asks r n k = record { once = λ w. inl (k.same w) }

  asked_then :
      {r : Request} {w w1 w2 : World}
      → (asked w1 ≡ asked w) ⊎ (asked w1 ≡ r ∷ asked w)
      → asked w2 ≡ asked w1
      → (asked w2 ≡ asked w) ⊎ (asked w2 ≡ r ∷ asked w)
  asked_then (inl e) k = inl (k ∙ e)
  asked_then (inr e) k = inr (k ∙ e)

  then_asked :
      {r : Request} {w w1 w2 : World}
      → asked w1 ≡ asked w
      → (asked w2 ≡ asked w1) ⊎ (asked w2 ≡ r ∷ asked w1)
      → (asked w2 ≡ asked w) ⊎ (asked w2 ≡ r ∷ asked w)
  then_asked k (inl e) = inl (e ∙ k)
  then_asked {r = r} k (inr e) = inr (e ∙ ap (λ (l : List Request). r ∷ l) k)

  bind-Asks :
      {A B : Type 0} (r : Request) (n : Act World A) (f : A → Act World B)
      → Asks r n
      → ((a : A) → Keeps asked (f a))
      → Asks r (n >>= f)
  bind-Asks r n f h k = record {
    once = λ w.
        bind-post (λ w'. (asked w' ≡ asked w) ⊎ (asked w' ≡ r ∷ asked w)) n f w (h.once w)
          λ w1 a e p. asked_then p ((k a).same w1);
  }

  Keeps-bind-Asks :
      {A B : Type 0} (r : Request) (n : Act World A) (f : A → Act World B)
      → Keeps asked n
      → ((a : A) → Asks r (f a))
      → Asks r (n >>= f)
  Keeps-bind-Asks r n f k h = record {
    once = λ w.
        bind-post (λ w'. (asked w' ≡ asked w) ⊎ (asked w' ≡ r ∷ asked w)) n f w (inl (k.same w))
          λ w1 a e p. then_asked (ap (λ x. asked x.0) (sym e) ∙ k.same w) ((h a).once w1);
  }

  attempt-Asks :
      {A : Type 0} (r : Request) (f : World → World × A)
      → ((w : World) → asked (f w).0 ≡ r ∷ asked w)
      → Asks r (attempt f)
  unfolding attempt
  attempt-Asks r f h = record { once = λ w. inr (h w) }

  call-Asks :
      (key model system user : Text) (opts : CallOptions)
      → Asks (request key model system user opts) (call m.genai key model system user opts)
  unfolding call
  call-Asks key model system user opts =
      let r = request key model system user opts in
      Keeps-bind-Asks r _ _ (perform-Keeps asked _ _ (λ w. refl))
        λ u. bind-Asks r _ _ (attempt-Asks r _ (λ w. log.asks w r)) λ answer. search (keeps)

  ask_model-Asks : (i : Issue) → Asks (question i) (ask_model s m i)
  unfolding ask_model triage_user
  ask_model-Asks i = Keeps-bind-Asks _ _ _ (require-Keeps asked _ _) λ u.
      bind-Asks _ _ _ (call-Asks i.api_key i.model triage_system (triage_user i) default_options)
        λ raw. finishing-Keeps i _

  exit-Same : (x : World × Outcome (Unit {0})) → asked (exit s m x).0 ≡ asked x.0
  unfolding exit write_termination
  exit-Same (w, panics) = refl
  exit-Same (w, returns (ok u)) = refl
  exit-Same (w, returns (err e)) = log.logs w _

  decide-once :
      (i : Issue) (findings : List ScanFinding) (w : World)
      → (asked (decide s m i findings w).0 ≡ asked w)
        ⊎ ((findings ≡ []) × (asked (decide s m i findings w).0 ≡ question i ∷ asked w))
  unfolding decide
  decide-once i (f ∷ findings) w = inl ((finishing-Keeps i _).same w)
  decide-once i [] w = either inl (λ e. inr (refl, e)) ((ask_model-Asks i).once w)

  -- However the triage ends, the model is asked nothing where a rule of the prefilter matches the raw
  -- title or body; where none does it is asked once at most, and what is sent is a fixed prompt with
  -- the repository, number and author, in which title and body are what sanitizeForModel makes of
  -- them. That no other call asks the model anything is the condition.
  pub main-asked :
      (w : World)
      → let i = read_issue s.getenv in
        (asked (main s m w).0 ≡ asked w)
        ⊎ ((scan_suspicious m.unicode i.title i.body ≡ [])
            × (asked (main s m w).0 ≡ question i ∷ asked w))
  unfolding main run triage
  main-asked w =
      let same = exit-Same (run s m w) in
      either (λ e. inl (same ∙ e)) (λ h. inr (h.0, same ∙ h.1)) (decide-once _ _ w)
