-- ===== src/Operators/Branches.antt =====
-- What waits in the output channels of a branch operator.
use gress.Common.{
  ◌≡◌, refl, ap, ◌∙◌, String, Bool, true, false, Option, none, some, List, [], ◌∷◌, if◌then◌else◌,
  take, string_key, Bool-cases, inl, inr,
}
use gress.Common.Dict.{Dict, get}
use gress.Common.Channel.{new_channel, offer, offer_all, items-offer_all-new}
use gress.Stream.{Event}
use gress.Operators.{Branch, new_branches, route, route_all, branch_process}

module _ {V : Type 0} where
  pub branch_all : List (Event V) → Dict String (Branch V) → Dict String (Branch V)
  branch_all [] branches = branches
  branch_all (event ∷ events) branches = branch_all events (branch_process event branches).0

  abbrev pub accepted : (Event V → Bool) → List (Event V) → List (Event V)
  accepted predicate [] = []
  accepted predicate (event ∷ events) =
      let rest = accepted predicate events in if predicate event then event ∷ rest else rest

  abbrev pub output_of : Option (Branch V) → Option (List (Event V))
  output_of none = none
  output_of (some branch) = some branch.output.items

  abbrev pub first_hundred : List (Event V) → Option (Event V → Bool) → Option (List (Event V))
  first_hundred events none = none
  first_hundred events (some predicate) = some (take 100 (accepted predicate events))

  abbrev pub route_events : List (Event V) → Branch V → Branch V
  route_events [] branch = branch
  route_events (event ∷ events) branch = route_events events (route event branch)

  abbrev pub over : (Branch V → Branch V) → Option (Branch V) → Option (Branch V)
  over f none = none
  over f (some branch) = some (f branch)

  get-route_all :
      (event : Event V) (branches : Dict String (Branch V)) (name : String)
      → get (route_all event branches) name ≡ over (route event) (get branches name)
  unfolding get route_all
  get-route_all event [] name = refl
  get-route_all event ((k, branch) ∷ branches) name = elim (Bool-cases (string_key.beq k name)) [
    | inl e ↦ rw e refl
    | inr e ↦ rw e (get-route_all event branches name)
  ]

  over-over :
      (o : Option (Branch V)) (f g : Branch V → Branch V)
      → over f (over g o) ≡ over (λ b. f (g b)) o
  over-over none f g = refl
  over-over (some b) f g = refl

  get-branch_all :
      (events : List (Event V)) (branches : Dict String (Branch V)) (name : String)
      → get (branch_all events branches) name ≡ over (route_events events) (get branches name)
  unfolding branch_all branch_process
  get-branch_all [] branches name = go (get branches name)
    where
      go : (o : Option (Branch V)) → o ≡ over (route_events []) o
      go none = refl
      go (some b) = refl
  get-branch_all (event ∷ events) branches name =
      get-branch_all events (route_all event branches) name
      ∙ (rw (get-route_all event branches name)
          (over-over (get branches name) (route_events events) (route event)))

  route_accepted :
      (event : Event V) (branch : Branch V)
      → branch.predicate event ≡ true
      → route event branch ≡ record branch { output = offer event branch.output }
  unfolding route
  route_accepted event branch h = rw h refl

  route_refused :
      (event : Event V) (branch : Branch V)
      → branch.predicate event ≡ false
      → route event branch ≡ branch
  unfolding route
  route_refused event branch h = rw h refl

  -- A branch takes the events that its predicate accepts.
  output-route_events :
      (events : List (Event V)) (branch : Branch V)
      → (route_events events branch).output
        ≡ offer_all (accepted branch.predicate events) branch.output
  unfolding offer_all
  output-route_events [] branch = refl
  output-route_events (event ∷ events) branch = elim (Bool-cases (branch.predicate event)) [
    | inl h ↦
        ap (λ b. (route_events events b).output) (route_accepted event branch h)
        ∙ rw h (output-route_events events (record branch { output = offer event branch.output }))
    | inr h ↦
        ap (λ b. (route_events events b).output) (route_refused event branch h)
        ∙ rw h (output-route_events events branch)
  ]

  abbrev started : Option (Event V → Bool) → Option (Branch V)
  started none = none
  started (some predicate) = some (record { predicate = predicate; output = new_channel 100 })

  get-new_branches :
      (predicates : Dict String (Event V → Bool)) (name : String)
      → get (new_branches predicates) name ≡ started (get predicates name)
  unfolding get new_branches
  get-new_branches [] name = refl
  get-new_branches ((k, p) ∷ predicates) name = elim (Bool-cases (string_key.beq k name)) [
    | inl e ↦ rw e refl
    | inr e ↦ rw e (get-new_branches predicates name)
  ]

  -- With no reader, the channel of every branch of a new operator holds, after any events, the first
  -- hundred of those that its predicate accepts, and no other name has a channel.
  pub get-branch_all-new :
      (events : List (Event V)) (predicates : Dict String (Event V → Bool)) (name : String)
      → output_of (get (branch_all events (new_branches predicates)) name)
        ≡ first_hundred events (get predicates name)
  get-branch_all-new events predicates name =
      rw (get-branch_all events (new_branches predicates) name)
        (rw (get-new_branches predicates name) (go (get predicates name)))
    where
      go :
          (o : Option (Event V → Bool))
          → output_of (over (route_events events) (started o)) ≡ first_hundred events o
      go none = refl
      go (some predicate) =
          ap (λ ch. some ch.items)
            (output-route_events events
              (record { predicate = predicate; output = new_channel 100 }))
          ∙ ap some (items-offer_all-new (accepted predicate events) 100)
