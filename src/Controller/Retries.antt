-- ===== src/Controller/Retries.antt =====
-- handleFixFailure in a row: the retries end, after exactly spec.maxFixAttempts failures.
use hal_agent_operator.Base.{
  ℕ, zero, suc, ◌+◌, ◌<◌, ℤ, pos, add32, ◌≤ℤ◌, ◌<ℤ◌, Text, some, arith, ◌≡◌, refl, ap, ◌∙◌,
  add32-pos, ◌^◌,
}
use hal_agent_operator.Api.{ready, failed, IssueResolution, IssueResolutionSpec}
use hal_agent_operator.Kube.{Cluster}
use hal_agent_operator.Controller.Handlers.{attempt_of, max_attempts_of, handle_fix_failure}
use hal_agent_operator.Controller.Diagram.{max_of}

attempt_of-suc :
    (ir : IssueResolution) (a : ℕ)
    → ir.status.execution.attempt ≡ pos (a + 1)
    → attempt_of ir ≡ pos (a + 1)
unfolding attempt_of
attempt_of-suc ir a e = ground arith

attempt_of-zero :
    (ir : IssueResolution) → ir.status.execution.attempt ≡ pos 0 → attempt_of ir ≡ pos 1
unfolding attempt_of
attempt_of-zero ir e = ground arith

module _ {World : Type 0} (c : Cluster World) (msg : Text) where
  -- The object after a number of failed attempts in a row.
  pub after_failures : ℕ → IssueResolution → IssueResolution
  after_failures zero ir = ir
  after_failures (suc n) ir =
      let ir' = after_failures n ir in
      (handle_fix_failure c ir' (attempt_of ir') (max_of ir') msg).0

  retried_fields :
      (ir : IssueResolution) (attempt max_attempts : ℤ)
      → attempt <ℤ max_attempts
      → let ir' = (handle_fix_failure c ir attempt max_attempts msg).0 in
        (ir'.status.phase ≡ ready)
        × (ir'.status.execution.attempt ≡ add32 attempt (pos 1))
        × (ir'.spec ≡ ir.spec)
  unfolding handle_fix_failure
  retried_fields ir attempt max_attempts l = ground arith

  given_up_phase :
      (ir : IssueResolution) (attempt max_attempts : ℤ)
      → max_attempts ≤ℤ attempt
      → (handle_fix_failure c ir attempt max_attempts msg).0.status.phase ≡ failed
  unfolding handle_fix_failure
  given_up_phase ir attempt max_attempts l = ground arith

  -- One failure of attempt `a` below the cap `m`.
  retry :
      (ir : IssueResolution) (a m : ℕ)
      → attempt_of ir ≡ pos a
      → max_of ir ≡ pos m
      → a < m
      → m < 2 ^ 31
      → let ir' = (handle_fix_failure c ir (attempt_of ir) (max_of ir) msg).0 in
        (attempt_of ir' ≡ pos (a + 1)) × (ir'.status.phase ≡ ready) × (max_of ir' ≡ pos m)
  retry ir a m ea em l int32 =
      let (p, e, s) = retried_fields ir (attempt_of ir) (max_of ir) (ground arith) in
      (
        attempt_of-suc _ a (e ∙ ap (λ x. add32 x (pos 1)) ea ∙ add32-pos a (omega arith)),
        p,
        ap (λ (x : IssueResolutionSpec). max_attempts_of x.max_fix_attempts) s ∙ em,
      )

  give_up :
      (ir : IssueResolution) (m : ℕ)
      → attempt_of ir ≡ pos m
      → max_of ir ≡ pos m
      → (handle_fix_failure c ir (attempt_of ir) (max_of ir) msg).0.status.phase ≡ failed
  unfolding handle_fix_failure
  give_up ir m ea em = given_up_phase ir (attempt_of ir) (max_of ir) (ground arith)

  failures_so_far :
      (n m : ℕ) (ir : IssueResolution)
      → attempt_of ir ≡ pos 1
      → max_of ir ≡ pos m
      → ir.status.phase ≡ ready
      → m < 2 ^ 31
      → n < m
      → (attempt_of (after_failures n ir) ≡ pos (n + 1))
        × ((after_failures n ir).status.phase ≡ ready)
        × (max_of (after_failures n ir) ≡ pos m)
  unfolding after_failures
  failures_so_far zero m ir a e p int32 l = (a ∙ ap pos (omega arith), p, e)
  failures_so_far (suc n) m ir a e p int32 l =
      let (a', p', e') = failures_so_far n m ir a e p int32 (omega arith) in
      let (a'', p'', e'') = retry (after_failures n ir) (n + 1) m a' e' (omega arith) int32 in
      (a'' ∙ ap pos (omega arith), p'', e'')

  -- From the first attempt and with the cap m, at least 1, an object whose attempts all fail is
  -- ready for attempt n + 1 after n < m failures, and Failed after m: the retries end.
  pub failures_end :
      (m : ℕ) (ir : IssueResolution)
      → ir.status.execution.attempt ≡ pos 0
      → ir.spec.max_fix_attempts ≡ some (pos m)
      → ir.status.phase ≡ ready
      → 0 < m
      → m < 2 ^ 31
      → ((n : ℕ)
          → n < m
          → (attempt_of (after_failures n ir) ≡ pos (n + 1))
            × ((after_failures n ir).status.phase ≡ ready))
        × ((after_failures m ir).status.phase ≡ failed)
  failures_end m ir a e p low int32 = (λ n l. (let x = so_far n l in (x.0, x.1)), last m refl)
    where
      first : attempt_of ir ≡ pos 1
      first = attempt_of-zero ir a

      so_far :
          (n : ℕ)
          → n < m
          → (attempt_of (after_failures n ir) ≡ pos (n + 1))
            × ((after_failures n ir).status.phase ≡ ready)
            × (max_of (after_failures n ir) ≡ pos m)
      so_far n l =
          failures_so_far n m ir first (unfold max_attempts_of in ap max_attempts_of e) p int32 l

      last : (k : ℕ) → k ≡ m → (after_failures k ir).status.phase ≡ failed
      last zero k = absurd (omega arith)
      last (suc n) k =
          let (a', p', e') = so_far n (omega arith) in
          unfold after_failures in give_up (after_failures n ir) m (a' ∙ ap pos (omega arith)) e'
