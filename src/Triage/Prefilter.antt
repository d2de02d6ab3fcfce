-- ===== src/Triage/Prefilter.antt =====
-- cmd/triage/scan.go: when scanSuspicious reports something, and that it reports nothing twice.
use hal_agent_operator.Base.{
  Text, List, [], ◌∷◌, Bool, true, false, ◌||◌, ◌≡◌, ◌≢◌, ◌↔◌, refl, arith, All, runes,
  contains_text,
}
use hal_agent_operator.Triage.Shell.{shell_exfil}
use hal_agent_operator.Triage.Suspicious.{
  ScanFinding, Unicode, any_invisible, normalize_for_match, suspicious_substrings, is_seen, add,
  add_if, zero_width, exfiltration, substring_finding, scan_substrings, scanned_text,
  scan_suspicious,
}

-- No rule matches the text or its normalized copy.
pub record IsClear (u : Unicode) (text : Text) : Type 0 where
  pub visible : any_invisible (runes text) ≡ false
  pub no_shell : shell_exfil text ≡ false
  pub no_hidden_shell : shell_exfil (normalize_for_match u text) ≡ false
  pub no_phrase :
      All (λ p. contains_text (normalize_for_match u text) p.1 ≡ false) suspicious_substrings

add-nonempty : (f : ScanFinding) (findings : List ScanFinding) → add f findings ≢ []
unfolding add is_seen
add-nonempty f [] e = ground arith
add-nonempty f (g ∷ findings) e = ground arith

add_if-nil :
    (b : Bool) (f : ScanFinding) (findings : List ScanFinding)
    → (add_if b f findings ≡ []) ↔ ((b ≡ false) × (findings ≡ []))
add_if-nil true f findings = (λ e. absurd (add-nonempty f findings e), λ h. ground arith)
add_if-nil false f findings = (λ e. (refl, e), λ h. h.1)

scan_substrings-nil :
    (normalized : Text) (rules : List (Text × Text)) (findings : List ScanFinding)
    → (scan_substrings normalized rules findings ≡ [])
      ↔ ((findings ≡ []) × All (λ p. contains_text normalized p.1 ≡ false) rules)
unfolding scan_substrings
scan_substrings-nil normalized [] findings = (λ e. (e, tt), λ h. h.0)
scan_substrings-nil normalized (p ∷ rules) findings =
    let b = contains_text normalized p.1 in
    let f = substring_finding p in
    let later = scan_substrings-nil normalized rules (add_if b f findings) in
    let here = add_if-nil b f findings in
    (
      λ e. ((here.0 (later.0 e).0).1, ((here.0 (later.0 e).0).0, (later.0 e).1)),
      λ h. later.1 (here.1 (h.1.0, h.0), h.1.1),
    )

both_false : (a b : Bool) → ((a || b) ≡ false) ↔ ((a ≡ false) × (b ≡ false))
both_false true b = ground arith
both_false false b = ground arith

-- The prefilter reports nothing just where the raw title and body have no invisible rune, neither
-- they nor their normalized copy show a shell command that leaks a variable, and the normalized copy
-- has none of the suspicious phrases.
pub scan_suspicious-IsClear :
    (u : Unicode) (title body : Text)
    → (scan_suspicious u title body ≡ []) ↔ IsClear u (scanned_text title body)
unfolding scan_suspicious
scan_suspicious-IsClear u title body =
    let text = scanned_text title body in
    let normalized = normalize_for_match u text in
    let shell = shell_exfil text || shell_exfil normalized in
    let first = add_if (any_invisible (runes text)) zero_width [] in
    let a =
      scan_substrings-nil normalized suspicious_substrings (add_if shell exfiltration first) in
    let b = add_if-nil shell exfiltration first in
    let c = add_if-nil (any_invisible (runes text)) zero_width [] in
    let d = both_false (shell_exfil text) (shell_exfil normalized) in
    (
      λ e.
          let (s, f) = b.0 (a.0 e).0 in
          record {
            visible = (c.0 f).0;
            no_shell = (d.0 s).0;
            no_hidden_shell = (d.0 s).1;
            no_phrase = (a.0 e).1;
          },
      λ h. a.1 (b.1 (d.1 (h.no_shell, h.no_hidden_shell), c.1 (h.visible, refl)), h.no_phrase),
    )
