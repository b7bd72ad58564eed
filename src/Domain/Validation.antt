-- ===== src/Domain/Validation.antt =====
-- crates/midnight-did-domain/src/did_document.rs: `ValidationIssue` and `ValidationError`.
use midnight_did_rs.Common.{
  List, [], ◌∷◌, ◌++◌, Text, codes, is_empty, if◌then◌else◌, join_with, Result, ok, err, map,
}

pub record ValidationIssue : Type 0 where
  pub message : Text
  pub path : List Text

pub record ValidationError : Type 0 where
  pub summary : Text
  pub issues : List ValidationIssue

unfoldable pub issue : Text → ValidationIssue
issue message = record { message = message; path = [] }

unfoldable pub issue_at : Text → List Text → ValidationIssue
issue_at message path = record { message = message; path = path }

-- One entry of the summary.
describe : ValidationIssue → Text
describe i =
    if is_empty i.path
    then i.message
    else i.message ++ (codes " at " ++ join_with (codes ".") i.path)

unfoldable pub from_issues : List ValidationIssue → ValidationError
unfolding describe
from_issues issues = record {
  summary = join_with (codes "; ") (map describe issues);
  issues = issues;
}

-- `if issues.is_empty() { Ok(value) } else { Err(ValidationError::from_issues(issues)) }`
abbrev pub checked : {A : Type 0} → A → List ValidationIssue → Result ValidationError A
checked a [] = ok a
checked a (i ∷ is) = err (from_issues (i ∷ is))
