-- ===== src/Operator/Service.antt =====
-- cmd/main.go: what the operator's process has done where it ends with status 0.
use hal_agent_operator.Base.{
  Text, List, [], ◌∷◌, false, none, Outcome, panics, returns, ok, err, utf8, ◌≡◌, refl, ◌∙◌, arith,
  Returned, after_perform, perform-ok,
}
use hal_agent_operator.Operator.Flags.{Flags, Setting, default_flags, parsed_flags}
use hal_agent_operator.Operator.Options.{
  tls_protos, webhook_options, metrics_options, manager_options, reconciler,
}
use hal_agent_operator.Operator.Process.{
  Manager, registration, setup_with_manager, serve, status, main,
}
use hal_agent_operator.Operator.Settings.{IsConfigured, reconciler-IsConfigured}

-- Without --enable-http2 both servers speak HTTP/1.1 only, and the metrics are behind authentication
-- just where they are served by HTTPS.
pub record IsGuarded (f : Flags) : Type 0 where
  pub webhook_protos :
      f.enable_http2 ≡ false → (manager_options f).webhook.next_protos ≡ utf8 "http/1.1" ∷ []
  pub metrics_protos :
      f.enable_http2 ≡ false → (manager_options f).metrics.next_protos ≡ utf8 "http/1.1" ∷ []
  pub filtered : (manager_options f).metrics.filtered ≡ (manager_options f).metrics.secure_serving

flags-IsGuarded : (f : Flags) → IsGuarded f
unfolding manager_options webhook_options metrics_options tls_protos
flags-IsGuarded f = record {
  webhook_protos = λ off. ground (arith, off);
  metrics_protos = λ off. ground (arith, off);
  filtered = ground arith;
}

module _ {World : Type 0} (m : Manager World) (getenv : Text → Text) (settings : List Setting) where
  abbrev flags : Flags
  flags = parsed_flags settings (default_flags getenv)

  -- The steps of main, each in the world that the one before has left.
  pub record Service (w w' : World) : Type 0 where
    pub managed : World
    pub registered : World
    pub healthy : World
    pub reachable : World
    pub manager : m.new_manager w (manager_options flags) ≡ (managed, none)
    pub guarded : IsGuarded flags
    pub setup : m.complete managed (registration (reconciler flags)) ≡ (registered, none)
    pub configured : IsConfigured getenv settings (reconciler flags)
    pub health : m.add_healthz_check registered (utf8 "healthz") ≡ (healthy, none)
    pub ready : m.add_readyz_check healthy (utf8 "readyz") ≡ (reachable, none)
    pub started : m.start reachable ≡ (w', none)

  serve-Service : (w w' : World) → Returned (serve m flags w) w' tt → Service w w'
  unfolding serve setup_with_manager
  serve-Service w w' h = after_perform _ _ _ h λ w1 manager h1.
      after_perform _ _ _ h1 λ w2 setup h2. after_perform _ _ _ h2 λ w3 health h3.
        after_perform _ _ _ h3 λ w4 ready h4. record {
          managed = w1;
          registered = w2;
          healthy = w3;
          reachable = w4;
          manager = manager;
          guarded = flags-IsGuarded flags;
          setup = setup;
          configured = reconciler-IsConfigured getenv settings;
          health = health;
          ready = ready;
          started = perform-ok _ _ h4;
        }

  status-Service :
      (w w' : World) (x : World × Outcome (Unit {0}))
      → serve m flags w ≡ x
      → status m x ≡ (w', 0)
      → Service w w'
  unfolding status
  status-Service w w' (w1, panics) e h = ground arith
  status-Service w w' (w1, returns (err x)) e h = ground arith
  status-Service w w' (w1, returns (ok u)) e h = serve-Service w w' (e ∙ ground arith)

  -- The operator's process ends with status 0 only where it has made its manager, registered the
  -- reconciler and both checks, and then run the manager, in this order. Each setting that the
  -- reconciler gives to the Jobs is the last value on the command line, else that of the
  -- environment, else the built-in one, which also stands for an empty value (the runtime class has
  -- no built-in value and may be empty); HTTP/2 is off on both
  -- servers unless it was enabled, and metrics that are served by HTTPS are behind authentication.
  pub main-Service : (w w' : World) → main m getenv settings w ≡ (w', 0) → Service w w'
  unfolding main
  main-Service w w' h = status-Service w w' (serve m flags w) refl h
