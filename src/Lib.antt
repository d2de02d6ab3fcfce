-- ===== src/Lib.antt =====
-- hal-agent-operator: a Kubernetes operator that takes a GitHub issue through a triage by a model, a
-- human approval and an automated fix that ends in a pull request.
--
-- Parts. A custom resource IssueResolution (api/v1alpha1) holds an issue and the state of its
-- handling. The controller (internal/controller) reads it, starts a triage Job (cmd/triage) and a
-- fix Job (cmd/fix) for it, reads the reports that their pods leave in the termination message, and
-- writes the status. Nothing is kept between two passes but what the cluster holds.
--
-- Files.
--   Base            names shared by all files; Base/GoText has Go's strings as lists of UTF-8 bytes,
--                   Base/Int signed integers with the wrap-around of int32, Base/Results errors,
--                   Base/Effects, Base/Steps and Base/Unchanged code that calls the outside world,
--                   Base/Paths, Base/Walks and Base/Dots path/filepath.
--   Api             api/v1alpha1/issueresolution_types.go: Phase, spec, status, the object.
--   Defaults        internal/defaults/defaults.go.
--   Kube            the Kubernetes types that the controller fills or reads, and the record Cluster
--                   of the client's calls; Kube/Laws has what the properties rely on (IsCluster),
--                   Kube/Environment how the kubelet sets variables (IsEnvironment).
--   Controller      internal/controller/issueresolution_controller.go:
--     Config        IssueResolutionReconciler, its accessors, firstNonEmpty
--     Jobs          names, labels, buildFixJob, buildTriageJob, applyJobPodRuntimeClass
--     Results       triageJobResult, fixJobResult, readFixResult, readTriageResult
--     Handlers      reconcilePendingValidation, handleFixFailure
--     Triage, Fix   reconcileTriage, reconcileFix: one definition for each part between two calls
--     Reconcile     Reconcile: dispatch on the phase, the status patch
--     Diagram       the state diagram as a step relation; Passes relates the handlers to it
--     Runs          runs of the operator in a cluster that others change too, with the list of the
--                   objects that passes read; Frame, Launches and Runs/* support the inductions
--     Gate, Attempts, Retries, Safety, Security, Reports, Progress    the properties, by subject
--     Fake, Scenarios    a cluster in memory that has the laws, the tests and the examples
--   Gemini          internal/gemini/gemini.go: TruncateRunes (Truncate), what it keeps (Truncation),
--                   Call (Call).
--   Fix             cmd/fix/main.go: loadConfig (Config) and the environment that the controller gives
--                   it (Environment), validateEdits and applyEdits (Edits, Validation, Rewrites),
--                   parseMarkerEdits (Markers, Blocks, Print, RoundTrip), parseEdits, parseJSONEdits,
--                   parseLocatePath and stripCodeFences (Answers, Proposals; extractJSONObject is in
--                   Base/Answer), listGoFiles (GoFiles, Listing), what the worker calls (Tools),
--                   cloneRepo, locateFile, rewriteFile, commitAndPush, openPR (Steps), run,
--                   writeTermination, fail and main (Run); what the parts of a run have done (Phases),
--                   whole runs (Success, Unpushed), where the changed file lies (Inside), a worker in
--                   memory (Fake).
--   Triage          cmd/triage: triageResult (Report), triageLabelPlan, syncTriageLabels, ensureLabel,
--                   labelColor (Labels, Sync), formatTriageComment (Feedback),
--                   postTriageFeedback, finishTriage, writeTermination (Finish, Finished), the
--                   labels against the controller's phases (Agreement), GitHub in memory (Fake),
--                   redactBase64Blocks and looksBase64Block (Scan, Redaction, Prose), reShellExfil
--                   (Shell, Variables), sanitizeForModel with its expressions (Sanitize, Comments,
--                   Hidden),
--                   scanSuspicious and what it calls (Suspicious, Prefilter), run, parseResult and
--                   main (Run, Silent, Asked).
--   Operator        cmd/main.go: the flags (Flags), the options and the reconciler that are made of them
--                   (Options), main and the controller's SetupWithManager (Process), the settings that
--                   the Jobs get (Settings), whole runs (Service).
--
-- State. The cluster is a type World and the record Cluster of the operations on it: Get, Create, List,
-- the status patch, controllerutil.SetControllerReference and meta.SetStatusCondition. A handler
-- takes the world and the object and returns the world and the object with ctrl.Result, or the
-- error; the object that Go changes in place is passed on. The laws of IsCluster say that Create
-- adds the Job that it is given or fails, that reads are current, and that a status patch whose base is
-- the stored status sets the new status of the one object and changes nothing else. A pass of Reconcile
-- is one step of a run; between passes others may change specs, Jobs and pods, and delete and add
-- objects, which come with an empty status, but write no status.
--
-- The workers are computations that take a world and return it with a value, an error or a panic
-- (Base/Effects), on the records of what they call: Tools, GenAi, Decoding, Surroundings, GitHub, Model.
-- A call takes the world and returns it changed; what was done before an error stays done.
--
-- Bounds. int32 is an integer whose addition wraps (add32). A message is its bytes. The loops over
-- pods and containers are by recursion on the lists, so no fuel is needed; the loop of
-- parseMarkerEdits has as much fuel as the text has bytes, and each round takes some.
--
-- Regular expressions are matchers: on runes for reZeroWidth and reShellExfil, and on bytes for
-- reHTMLComment and reRedactDataURI, which only look for characters that no other encoding contains.
--
-- Not modelled: reads from a cache that is behind the API server, and moves of others between the read
-- and the patch of one pass (the patch carries no resourceVersion, so it does not notice them);
-- encoding/json (the parameter Json, the fields marshal and unmarshal), what is printed
-- to the console, contexts and their deadlines (a call that runs into one returns an error), how
-- package flag reads a command line (it is given as the settings that it makes), zap's flags,
-- generated deep copies; of golang.org/x/text and package unicode NFKC and the lower case outside of
-- ASCII (Unicode).
pub mod Base
pub mod Api
pub mod Defaults
pub mod Kube
pub mod Controller
pub mod Gemini
pub mod Fix
pub mod Triage
pub mod Operator
