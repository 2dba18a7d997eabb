-- ===== src/Tracker/Access/Rules.antt =====
-- What the access rules say of an operation, told apart from the code
-- (src/LayerMount.dll/impl/ProcessTracker.cpp: CheckAccess).
use layer_mount.Base.{Bool, true, false, not, List, [], ◌∷◌, ◌≡◌, refl, inl, inr}
use layer_mount.Base.{Bool-cases, if◌then◌else◌}
use layer_mount.Layer.Disk.{WString}
use layer_mount.Layer.Names.{TextService}
use layer_mount.Tracker.{wildcard_match}
use layer_mount.Tracker.Access.{AccessRule, apply_rule, evaluate_rules, denial_reason}
use layer_mount.Tracker.Operations.{
  OperationType, is_read_op, is_write_op, is_delete_op, is_execute_op, create, open_op, read, write,
  overwrite, delete, rename, get_info, set_info, set_size, get_security, set_security,
  read_directory, flush, cleanup, close,
}

-- The right of a rule that an operation needs. The end of a handle's life needs none.
abbrev pub right_of : AccessRule → OperationType → Bool
right_of rule create = rule.allow_write
right_of rule open_op = rule.allow_read
right_of rule read = rule.allow_read
right_of rule write = rule.allow_write
right_of rule overwrite = rule.allow_write
right_of rule delete = rule.allow_delete
right_of rule rename = rule.allow_write
right_of rule get_info = rule.allow_read
right_of rule set_info = rule.allow_write
right_of rule set_size = rule.allow_write
right_of rule get_security = rule.allow_read
right_of rule set_security = rule.allow_write
right_of rule read_directory = rule.allow_read
right_of rule flush = rule.allow_write
right_of rule cleanup = true
right_of rule close = true

granted :
    (right : Bool) (reason : WString)
    → (if◌then◌else◌ {A = Bool × WString} (not right) (false, reason) (true, [])).0 ≡ right
granted true reason = refl
granted false reason = refl

apply_rule_lem :
    (rule : AccessRule) (op : OperationType) → (apply_rule rule op).0 ≡ right_of rule op
unfolding apply_rule is_read_op is_write_op is_delete_op is_execute_op
apply_rule_lem rule create = granted rule.allow_write (denial_reason rule)
apply_rule_lem rule open_op = granted rule.allow_read (denial_reason rule)
apply_rule_lem rule read = granted rule.allow_read (denial_reason rule)
apply_rule_lem rule write = granted rule.allow_write (denial_reason rule)
apply_rule_lem rule overwrite = granted rule.allow_write (denial_reason rule)
apply_rule_lem rule delete = granted rule.allow_delete (denial_reason rule)
apply_rule_lem rule rename = granted rule.allow_write (denial_reason rule)
apply_rule_lem rule get_info = granted rule.allow_read (denial_reason rule)
apply_rule_lem rule set_info = granted rule.allow_write (denial_reason rule)
apply_rule_lem rule set_size = granted rule.allow_write (denial_reason rule)
apply_rule_lem rule get_security = granted rule.allow_read (denial_reason rule)
apply_rule_lem rule set_security = granted rule.allow_write (denial_reason rule)
apply_rule_lem rule read_directory = granted rule.allow_read (denial_reason rule)
apply_rule_lem rule flush = granted rule.allow_write (denial_reason rule)
apply_rule_lem rule cleanup = refl
apply_rule_lem rule close = refl

module _ (text : TextService) (name path : WString) (op : OperationType) where
  -- The decision on an operation: by the first rule whose two patterns match, and without one the
  -- operation is allowed.
  pub data Decides : List AccessRule → Bool → Type 0 where
    unruled : Decides [] true
    other_process :
        {rule : AccessRule} {rules : List AccessRule} {decision : Bool}
        → wildcard_match text rule.process_name_pattern name ≡ false
        → Decides rules decision
        → Decides (rule ∷ rules) decision
    other_path :
        {rule : AccessRule} {rules : List AccessRule} {decision : Bool}
        → wildcard_match text rule.path_pattern path ≡ false
        → Decides rules decision
        → Decides (rule ∷ rules) decision
    ruled :
        {rule : AccessRule} {rules : List AccessRule}
        → wildcard_match text rule.process_name_pattern name ≡ true
        → wildcard_match text rule.path_pattern path ≡ true
        → Decides (rule ∷ rules) (right_of rule op)

  pub evaluate_rules-Decides :
      (rules : List AccessRule) → Decides rules (evaluate_rules text rules name path op).0
  unfolding evaluate_rules
  evaluate_rules-Decides [] = unruled
  evaluate_rules-Decides (rule ∷ rules) =
      elim (Bool-cases (wildcard_match text rule.process_name_pattern name)) [
        | inr other ↦ rw other (other_process other (evaluate_rules-Decides rules))
        | inl named ↦ elim (Bool-cases (wildcard_match text rule.path_pattern path)) [
          | inr other ↦ rw (named, other) (other_path other (evaluate_rules-Decides rules))
          | inl below ↦ rw (named, below, apply_rule_lem rule op) (ruled named below)
        ]
      ]

  -- A decision is the one that the code takes.
  pub Decides-evaluate_rules :
      (rules : List AccessRule) (decision : Bool)
      → Decides rules decision
      → (evaluate_rules text rules name path op).0 ≡ decision
  unfolding evaluate_rules
  Decides-evaluate_rules _ _ unruled = refl
  Decides-evaluate_rules (rule ∷ rules) decision (other_process other rest) =
      rw other (Decides-evaluate_rules rules decision rest)
  Decides-evaluate_rules (rule ∷ rules) decision (other_path other rest) =
      elim (Bool-cases (wildcard_match text rule.process_name_pattern name)) [
        | inr unnamed ↦ rw unnamed (Decides-evaluate_rules rules decision rest)
        | inl named ↦ rw (named, other) (Decides-evaluate_rules rules decision rest)
      ]
  Decides-evaluate_rules (rule ∷ rules) _ (ruled named below) =
      rw (named, below) (apply_rule_lem rule op)
