-- ===== src/Errors/Classification/Tests.antt =====
-- Classification at concrete inputs.
use gress.Common.{codes, ◌≡◌, ◌↔◌, refl, true, false, none, some}
use gress.Errors.Classification.{
  Error, Bytes, contains, to_lower, classify_error, fatal, is_retriable, is_fatal,
}
use gress.Errors.Classification.Fatal.{IsFatal, is_fatal_iff}
use gress.Errors.Classification.Substring.{Occurs, contains_iff}

abbrev refused : Bytes
refused = codes "dial: Connection Refused"

abbrev parse_failure : Error
parse_failure = record {
  classified = none;
  is_canceled = false;
  is_deadline_exceeded = false;
  is_eof = false;
  is_unexpected_eof = false;
  net_error = none;
  errno = none;
  message = codes "Parse error at 3";
}

found_refused : contains refused (codes "connection refused") ≡ true
unfolding contains
found_refused = refl

parse_failure_fatal : classify_error (some parse_failure) ≡ fatal
unfolding classify_error
parse_failure_fatal = refl

contains_iff_example :
    (contains refused (codes "connection refused") ≡ true)
    ↔ Occurs (to_lower (codes "connection refused")) (to_lower refused)
contains_iff_example = contains_iff refused (codes "connection refused")

-- Unless it also tells of the network.
abbrev broken_pipe : Error
broken_pipe = record parse_failure { message = codes "Parse error: Broken pipe" }

broken_pipe_retriable : is_retriable (some broken_pipe) ≡ true
unfolding is_retriable classify_error
broken_pipe_retriable = refl

is_fatal_iff_example :
    ((is_fatal (some parse_failure) ≡ true) ↔ IsFatal (some parse_failure))
    × ((is_retriable (some parse_failure) ≡ false) ↔ IsFatal (some parse_failure))
is_fatal_iff_example = is_fatal_iff (some parse_failure)

parse_failure_reason : IsFatal (some parse_failure)
unfolding is_fatal classify_error
parse_failure_reason = (is_fatal_iff (some parse_failure)).0.0 refl
