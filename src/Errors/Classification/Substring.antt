-- ===== src/Errors/Classification/Substring.antt =====
-- The search for a text in an error's message.
use gress.Common.{
  ℕ, zero, suc, ◌+◌, ◌-◌, ◌≤◌, ◌≡◌, ◌↔◌, refl, ap, true, [], ◌∷◌, ◌++◌, length, length-append,
  arith, Bool-cases, inl, inr,
}
use gress.Errors.Classification.{
  Bytes, matches_here, find_from, find_substring, is_found, contains_exact, contains, to_lower,
}

-- The text stands somewhere in the bytes.
pub record Occurs (substr s : Bytes) : Type 0 where
  pub before : Bytes
  pub after : Bytes
  pub split : s ≡ before ++ (substr ++ after)

matches_here_split :
    (s substr : Bytes) → matches_here s substr ≡ true → (after : Bytes) × (s ≡ substr ++ after)
unfolding matches_here
matches_here_split s [] h = (s, refl)
matches_here_split [] (b ∷ substr) h = absurd (ground (arith, h))
matches_here_split (c ∷ s) (b ∷ substr) h =
    let (after, e) = matches_here_split s substr (ground (arith, h)) in
    let same : c ≡ b = ground (arith, h) in (after, rw same (ap (λ xs. b ∷ xs) e))

matches_here-append : (substr after : Bytes) → matches_here (substr ++ after) substr ≡ true
unfolding matches_here
matches_here-append [] after = refl
matches_here-append (b ∷ substr) after = ground (arith, matches_here-append substr after)

find_from-Occurs :
    (places i : ℕ) (s substr : Bytes)
    → is_found (find_from places i s substr) ≡ true
    → Occurs substr s
unfolding find_from
find_from-Occurs zero i s substr h = absurd (ground (arith, h))
find_from-Occurs (suc places) i [] substr h = elim (Bool-cases (matches_here [] substr)) [
  | inl here ↦
      let (after, e) = matches_here_split [] substr here in
      record { before = []; after = after; split = e }
  | inr elsewhere ↦ find_from-Occurs places (suc i) [] substr (rw elsewhere at h)
]
find_from-Occurs (suc places) i (c ∷ s) substr h = elim (Bool-cases (matches_here (c ∷ s) substr)) [
  | inl here ↦
      let (after, e) = matches_here_split (c ∷ s) substr here in
      record { before = []; after = after; split = e }
  | inr elsewhere ↦
      let o = find_from-Occurs places (suc i) s substr (rw elsewhere at h) in
      record { before = c ∷ o.before; after = o.after; split = ap (λ xs. c ∷ xs) o.split }
]

find_from_complete :
    (places i : ℕ) (before substr after : Bytes)
    → length before + 1 ≤ places
    → is_found (find_from places i (before ++ (substr ++ after)) substr) ≡ true
unfolding find_from
find_from_complete zero i before substr after h = absurd (omega (arith, h))
find_from_complete (suc places) i [] substr after h = rw (matches_here-append substr after) refl
find_from_complete (suc places) i (c ∷ before) substr after h =
    elim (Bool-cases (matches_here (c ∷ before ++ (substr ++ after)) substr)) [
      | inl here ↦ rw here refl
      | inr elsewhere ↦
          rw elsewhere (find_from_complete places (suc i) before substr after (omega (arith, h)))
    ]

contains_exact-Occurs : (s substr : Bytes) → contains_exact s substr ≡ true → Occurs substr s
unfolding contains_exact find_substring
contains_exact-Occurs s substr h =
    find_from-Occurs (length s + 1 - length substr) 0 s substr (ground (arith, h))

Occurs-contains_exact : (s substr : Bytes) → Occurs substr s → contains_exact s substr ≡ true
unfolding contains_exact find_substring
Occurs-contains_exact s substr o =
    let whole = o.before ++ (substr ++ o.after) in
    let found =
      find_from_complete (length whole + 1 - length substr) 0 o.before substr o.after
        (omega (arith, length-append o.before (substr ++ o.after), length-append substr o.after)) in
    rw o.split (
      ground
        (arith, found, length-append o.before (substr ++ o.after), length-append substr o.after))

-- The search is by bytes, with ASCII letters of either case alike: it says yes exactly where the text
-- in lower case stands somewhere in the message in lower case.
pub contains_iff :
    (s substr : Bytes) → (contains s substr ≡ true) ↔ Occurs (to_lower substr) (to_lower s)
unfolding contains
contains_iff s substr = (
  contains_exact-Occurs (to_lower s) (to_lower substr),
  Occurs-contains_exact (to_lower s) (to_lower substr),
)
