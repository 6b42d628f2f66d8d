-- ===== src/Errors/Classification.antt =====
-- pkg/errors/classification.go. What errors.As and errors.Is find in an error's chain is a record of
-- the error; strings are their bytes, and the texts that are looked for are ASCII.
pub mod Substring
pub mod Fatal
mod Tests
use gress.Common.{
  ℕ, zero, suc, ◌+◌, ◌-◌, String, Bool, true, false, ◌&&◌, ◌||◌, Option, none, some, List, [], ◌∷◌,
  leb, ◌==◌, if◌then◌else◌, length, codes,
}

pub data ErrorCategory : Type 0 where
  retriable fatal transient : ErrorCategory

pub category_name : ErrorCategory → String
category_name retriable = "retriable"
category_name fatal = "fatal"
category_name transient = "transient"

abbrev pub Bytes : Type 0
Bytes = List ℕ

-- toLower
abbrev pub lower_byte : ℕ → ℕ
lower_byte c = if leb 65 c && leb c 90 then c + 32 else c

pub to_lower : Bytes → Bytes
to_lower [] = []
to_lower (c ∷ s) = lower_byte c ∷ to_lower s

-- The inner loop of findSubstring, on the bytes from a place on.
pub matches_here : Bytes → Bytes → Bool
matches_here s [] = true
matches_here [] (b ∷ substr) = false
matches_here (c ∷ s) (b ∷ substr) = c == b && matches_here s substr

abbrev pub rest : Bytes → Bytes
rest [] = []
rest (c ∷ s) = s

-- The outer loop of findSubstring: the places that are left, the place, and the bytes from it on.
pub find_from : ℕ → ℕ → Bytes → Bytes → Option ℕ
unfolding matches_here
find_from zero i s substr = none
find_from (suc places) i s substr =
    let later = find_from places (suc i) (rest s) substr in
    if matches_here s substr then some i else later

-- findSubstring; `none` is -1. No place is tried where the substring is longer.
pub find_substring : Bytes → Bytes → Option ℕ
unfolding find_from
find_substring s substr = find_from (length s + 1 - length substr) 0 s substr

abbrev pub is_found : Option ℕ → Bool
is_found none = false
is_found (some i) = true

-- containsExact
pub contains_exact : Bytes → Bytes → Bool
unfolding find_substring
contains_exact s substr = leb (length substr) (length s) && is_found (find_substring s substr)

-- contains and containsAny
pub contains : Bytes → Bytes → Bool
unfolding contains_exact to_lower
contains s substr = contains_exact (to_lower s) (to_lower substr)

pub contains_any : Bytes → List String → Bool
unfolding contains
contains_any s [] = false
contains_any s (substr ∷ substrings) = contains s (codes substr) || contains_any s substrings

-- The error numbers that classifySyscallError names; EWOULDBLOCK is EAGAIN.
pub data Errno : Type 0 where
  econnrefused econnreset econnaborted enetunreach ehostunreach etimedout epipe : Errno
  eagain emfile enfile : Errno
  einval eacces eperm enoent eexist : Errno
  other_errno : ℕ → Errno

-- classifySyscallError
pub classify_syscall_error : Errno → ErrorCategory
classify_syscall_error eagain = transient
classify_syscall_error emfile = transient
classify_syscall_error enfile = transient
classify_syscall_error einval = fatal
classify_syscall_error eacces = fatal
classify_syscall_error eperm = fatal
classify_syscall_error enoent = fatal
classify_syscall_error eexist = fatal
classify_syscall_error _ = retriable

-- The two tests of a net.Error.
pub record NetError : Type 0 where
  pub timeout : Bool
  pub temporary : Bool

pub record Error : Type 0 where
  pub classified : Option ErrorCategory
  pub is_canceled : Bool
  pub is_deadline_exceeded : Bool
  pub is_eof : Bool
  pub is_unexpected_eof : Bool
  pub net_error : Option NetError
  pub errno : Option Errno
  pub message : Bytes

abbrev pub network_messages : List String
network_messages =
    "connection refused" ∷ "connection reset" ∷ "broken pipe" ∷ "no route to host"
    ∷ "network is unreachable" ∷ []

abbrev pub fatal_messages : List String
fatal_messages =
    "invalid argument" ∷ "invalid syntax" ∷ "parse error" ∷ "unmarshal" ∷ "marshal" ∷ []

abbrev pub resource_messages : List String
resource_messages =
    "timeout" ∷ "deadline exceeded" ∷ "too many open files" ∷ "resource temporarily unavailable"
    ∷ []

pub classify_message : Bytes → ErrorCategory
unfolding contains_any
classify_message message =
    if contains_any message network_messages
    then retriable
    else if contains_any message fatal_messages
    then fatal
    else if contains_any message resource_messages
    then retriable
    else retriable

abbrev pub classify_errno : Option Errno → Bytes → ErrorCategory
classify_errno (some errno) message = classify_syscall_error errno
classify_errno none message = classify_message message

abbrev pub classify_net : Option NetError → Error → ErrorCategory
classify_net (some net) e =
    if net.timeout then retriable else if net.temporary then transient else retriable
classify_net none e = classify_errno e.errno e.message

abbrev pub classify_new : Option ErrorCategory → Error → ErrorCategory
classify_new (some category) e = category
classify_new none e =
    if e.is_canceled
    then fatal
    else if e.is_deadline_exceeded
    then retriable
    else if e.is_eof || e.is_unexpected_eof
    then retriable
    else classify_net e.net_error e

-- ClassifyError; `none` is nil
pub classify_error : Option Error → ErrorCategory
unfolding classify_message classify_syscall_error
classify_error none = fatal
classify_error (some e) = classify_new e.classified e

abbrev pub same_category : ErrorCategory → ErrorCategory → Bool
same_category retriable retriable = true
same_category fatal fatal = true
same_category transient transient = true
same_category _ _ = false

-- IsRetriable, IsFatal and IsTransient
unfoldable pub is_retriable : Option Error → Bool
is_retriable e =
    same_category (classify_error e) retriable || same_category (classify_error e) transient

pub is_fatal : Option Error → Bool
is_fatal e = same_category (classify_error e) fatal

pub is_transient : Option Error → Bool
is_transient e = same_category (classify_error e) transient
