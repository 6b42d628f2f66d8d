-- ===== src/Errors/Classification/Fatal.antt =====
-- Which errors are fatal, and so not tried again.
use gress.Common.{
  ◌≡◌, ◌⊎◌, ◌↔◌, inl, inr, refl, ap, sym, false≢true, ◌∙◌, Bool, true, false, ◌||◌, String, Option,
  none, some, List, [], ◌∷◌, if◌then◌else◌, arith, Bool-cases, codes,
}
use gress.Errors.Classification.{
  Bytes, Error, ErrorCategory, Errno, NetError, retriable, fatal, transient, einval, eacces, eperm,
  enoent, eexist, to_lower, contains, contains_any, network_messages, fatal_messages,
  resource_messages, classify_syscall_error, classify_message, classify_errno, classify_net,
  classify_new, classify_error, is_retriable, is_fatal, same_category,
}
use gress.Errors.Classification.Substring.{Occurs, contains_iff}

-- One of the texts stands somewhere in the message, with ASCII letters of either case alike.
abbrev pub AnyOccurs : Bytes → List String → Type 0
AnyOccurs message [] = ⊥
AnyOccurs message (text ∷ texts) =
    Occurs (to_lower (codes text)) (to_lower message) ⊎ AnyOccurs message texts

-- An error number of a request that cannot succeed.
abbrev pub IsBadErrno : Errno → Type 0
IsBadErrno errno =
    (errno ≡ einval) ⊎ (errno ≡ eacces) ⊎ (errno ≡ eperm) ⊎ (errno ≡ enoent) ⊎ (errno ≡ eexist)

-- An error that nothing classifies but its number or its message.
pub record IsPlain (e : Error) : Type 0 where
  pub unclassified : e.classified ≡ none
  pub not_canceled : e.is_canceled ≡ false
  pub in_time : e.is_deadline_exceeded ≡ false
  pub not_eof : e.is_eof ≡ false
  pub not_unexpected_eof : e.is_unexpected_eof ≡ false
  pub not_net : e.net_error ≡ none

-- Why an error is fatal.
pub data FatalReason (e : Error) : Type 0 where
  marked : e.classified ≡ some fatal → FatalReason e
  canceled : e.classified ≡ none → e.is_canceled ≡ true → FatalReason e
  bad_errno : (errno : Errno) → IsPlain e → e.errno ≡ some errno → IsBadErrno errno → FatalReason e
  bad_message :
      IsPlain e
      → e.errno ≡ none
      → ¬ AnyOccurs e.message network_messages
      → AnyOccurs e.message fatal_messages
      → FatalReason e

abbrev pub IsFatal : Option Error → Type 0
IsFatal none = Unit
IsFatal (some e) = FatalReason e

contains_any_iff :
    (message : Bytes) (texts : List String)
    → (contains_any message texts ≡ true) ↔ AnyOccurs message texts
unfolding contains_any
contains_any_iff message [] = (λ h. ground (arith, h), λ h. absurd h)
contains_any_iff message (text ∷ texts) =
    let (found, here) = contains_iff message (codes text) in
    let (later, there) = contains_any_iff message texts in
    (
      λ h. elim (Bool-cases (contains message (codes text))) [
        | inl c ↦ inl (found c)
        | inr c ↦ inr (later (rw c at h))
      ],
      λ h. elim h [ inl o ↦ ground (arith, here o) | inr o ↦ ground (arith, there o) ],
    )

errno_fatal : (errno : Errno) → classify_syscall_error errno ≡ fatal → IsBadErrno errno
unfolding classify_syscall_error
errno_fatal einval h = inl refl
errno_fatal eacces h = inr (inl refl)
errno_fatal eperm h = inr (inr (inl refl))
errno_fatal enoent h = inr (inr (inr (inl refl)))
errno_fatal eexist h = inr (inr (inr (inr refl)))
errno_fatal errno h = absurd (ground (arith, h))

fatal_errno : (errno : Errno) → IsBadErrno errno → classify_syscall_error errno ≡ fatal
unfolding classify_syscall_error
fatal_errno errno bad = elim bad [
  | inl e ↦ rw e refl
  | inr (inl e) ↦ rw e refl
  | inr (inr (inl e)) ↦ rw e refl
  | inr (inr (inr (inl e))) ↦ rw e refl
  | inr (inr (inr (inr e))) ↦ rw e refl
]

tested :
    (network bad resource : Bool)
    → (if network
        then retriable
        else if bad
        then fatal
        else if resource
        then retriable
        else retriable)
      ≡ fatal
    → (network ≡ false) × (bad ≡ true)
tested network bad resource h = ground (arith, h)

message_fatal :
    (message : Bytes)
    → classify_message message ≡ fatal
    → (¬ AnyOccurs message network_messages) × AnyOccurs message fatal_messages
unfolding classify_message
message_fatal message h =
    let network = contains_any_iff message network_messages in
    let bad = contains_any_iff message fatal_messages in
    let (quiet, found) =
      tested (contains_any message network_messages) (contains_any message fatal_messages)
        (contains_any message resource_messages) h in
    (λ o. absurd (false≢true (sym quiet ∙ network.1 o)), bad.0 found)

fatal_message :
    (message : Bytes)
    → ¬ AnyOccurs message network_messages
    → AnyOccurs message fatal_messages
    → classify_message message ≡ fatal
unfolding classify_message
fatal_message message none_of bad = elim (Bool-cases (contains_any message network_messages)) [
  | inl c ↦ absurd (none_of ((contains_any_iff message network_messages).0 c))
  | inr c ↦ rw c (rw ((contains_any_iff message fatal_messages).1 bad) refl)
]

module _ (e : Error) where
  from_errno :
      (o : Option Errno)
      → IsPlain e
      → e.errno ≡ o
      → classify_errno o e.message ≡ fatal
      → FatalReason e
  from_errno (some errno) plain same h = bad_errno errno plain same (errno_fatal errno h)
  from_errno none plain same h =
      let (no_network, bad) = message_fatal e.message h in bad_message plain same no_network bad

  from_net :
      (o : Option NetError)
      → (e.net_error ≡ none → IsPlain e)
      → e.net_error ≡ o
      → classify_net o e ≡ fatal
      → FatalReason e
  from_net (some net) plain same h = absurd (ground (arith, h))
  from_net none plain same h = from_errno e.errno (plain same) refl h

  from_new :
      (o : Option ErrorCategory) → e.classified ≡ o → classify_new o e ≡ fatal → FatalReason e
  from_new (some category) same h = marked (same ∙ ap some h)
  from_new none same h = elim (Bool-cases e.is_canceled) [
    | inl c ↦ canceled same c
    | inr c ↦
        from_net e.net_error
          (λ no_net. record {
            unclassified = same;
            not_canceled = c;
            in_time = ground (arith, h, c);
            not_eof = ground (arith, h, c);
            not_unexpected_eof = ground (arith, h, c);
            not_net = no_net;
          })
          refl (ground (arith, h, c))
  ]

  from_plain :
      IsPlain e → classify_errno e.errno e.message ≡ fatal → classify_error (some e) ≡ fatal
  unfolding classify_error
  from_plain plain h =
      ap (λ o. classify_new o e) plain.unclassified
      ∙ ground (
        arith,
        plain.not_canceled,
        plain.in_time,
        plain.not_eof,
        plain.not_unexpected_eof,
        ap (λ o. classify_net o e) plain.not_net ∙ h,
      )

  to_fatal : FatalReason e → classify_error (some e) ≡ fatal
  unfolding classify_error
  to_fatal (marked h) = ap (λ o. classify_new o e) h
  to_fatal (canceled h c) = ap (λ o. classify_new o e) h ∙ ground (arith, c)
  to_fatal (bad_errno errno plain same bad) =
      from_plain plain (ap (λ o. classify_errno o e.message) same ∙ fatal_errno errno bad)
  to_fatal (bad_message plain same no_network bad) =
      from_plain plain
        (ap (λ o. classify_errno o e.message) same ∙ fatal_message e.message no_network bad)

refusals :
    (c : ErrorCategory)
    → ((same_category c fatal ≡ true) ↔ (c ≡ fatal))
      × (((same_category c retriable || same_category c transient) ≡ false) ↔ (c ≡ fatal))
refusals retriable = (
  (λ h. absurd (ground (arith, h)), λ h. absurd (ground (arith, h))),
  (λ h. absurd (ground (arith, h)), λ h. absurd (ground (arith, h))),
)
refusals fatal = ((λ h. refl, λ h. refl), (λ h. refl, λ h. refl))
refusals transient = (
  (λ h. absurd (ground (arith, h)), λ h. absurd (ground (arith, h))),
  (λ h. absurd (ground (arith, h)), λ h. absurd (ground (arith, h))),
)

pub is_fatal_iff :
    (o : Option Error) → ((is_fatal o ≡ true) ↔ IsFatal o) × ((is_retriable o ≡ false) ↔ IsFatal o)
unfolding is_fatal is_retriable classify_error
is_fatal_iff none = ((λ h. tt, λ h. refl), (λ h. tt, λ h. refl))
is_fatal_iff (some e) =
    let ((fatally, fatal_if), (refused, refused_if)) = refusals (classify_error (some e)) in
    (
      (λ h. from_new e e.classified refl (fatally h), λ r. fatal_if (to_fatal e r)),
      (λ h. from_new e e.classified refl (refused h), λ r. refused_if (to_fatal e r)),
    )
