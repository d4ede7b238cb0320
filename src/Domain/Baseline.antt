-- ===== src/Domain/Baseline.antt =====
-- domain/baseline.go: fingerprints of findings, and the baseline of those that are known. The digest
-- of a message, a SHA-256 over a regular expression's replacement, is a parameter: on the parts of a
-- message, and in `migrate` on its text.
pub mod Laws
mod Tests
use shingan.Prelude.{
  ℕ, String, Bool, false, not, ◌&&◌, ◌==◌, Option, none, some, List, [], ◌∷◌, map, any,
  if◌then◌else◌,
}
use shingan.Domain.Finding.{Finding, Message}

pub record FindingFingerprint : Type 0 where
  pub rule_name : String
  pub node_id : String
  pub source_file : String
  pub message_digest : String

pub record Baseline : Type 0 where
  pub version : ℕ
  pub generated_at : ℕ
  pub findings : List FindingFingerprint

-- `==` on fingerprints
unfoldable pub same_fingerprint : FindingFingerprint → FindingFingerprint → Bool
same_fingerprint a b =
    a.rule_name == b.rule_name
    && a.node_id == b.node_id
    && a.source_file == b.source_file
    && a.message_digest == b.message_digest

abbrev pub baseline_schema_version : ℕ
baseline_schema_version = 2

-- A stored fingerprint as decoded, with the message that old versions stored.
pub record StoredFingerprint : Type 0 where
  pub fingerprint : FindingFingerprint
  pub legacy_message : String

module _ (digest_from_message : Message → String) where
  unfoldable pub message_digest : Finding → String
  message_digest f =
      if f.message_template_id == "" then digest_from_message f.message else f.message_template_id

  unfoldable pub fingerprint_of : Finding → FindingFingerprint
  unfolding message_digest
  fingerprint_of f = record {
    rule_name = f.rule_name;
    node_id = f.node_id;
    source_file = f.source_file;
    message_digest = message_digest f;
  }

  unfoldable pub in_baseline : Option Baseline → Finding → Bool
  unfolding fingerprint_of same_fingerprint any
  in_baseline none f = false
  in_baseline (some b) f = any (λ fp. same_fingerprint fp (fingerprint_of f)) b.findings

  -- NewBaselineFromFindings, at a time.
  unfoldable pub new_baseline_from_findings : ℕ → List Finding → Baseline
  unfolding fingerprint_of
  new_baseline_from_findings now findings = record {
    version = baseline_schema_version;
    generated_at = now;
    findings = map fingerprint_of findings;
  }

-- UnmarshalJSON after the document is decoded; the parameter is digestFromMessage, on a text.
unfoldable pub migrate : (String → String) → StoredFingerprint → FindingFingerprint
migrate digest_from_text stored =
    let fp = stored.fingerprint in
    if fp.message_digest == "" && not (stored.legacy_message == "")
    then record fp { message_digest = digest_from_text stored.legacy_message }
    else fp
