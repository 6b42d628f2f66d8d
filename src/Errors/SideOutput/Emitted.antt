-- ===== src/Errors/SideOutput/Emitted.antt =====
-- What waits in the channels of a collector after events were emitted.
use text.Mathlib.TextEquality.{eq_iff}
use gress.Common.{
  ℕ, ◌≡◌, refl, ap, ◌∙◌, sym, String, Bool, ◌&&◌, true, false, Option, none, some, List, [], ◌∷◌,
  if◌then◌else◌, take, arith, string_key, Bool-cases, inl, inr,
}
use gress.Common.Dict.{get, put, get-put}
use gress.Common.Channel.{Channel, new_channel, offer_all, items-offer_all-new}
use gress.Errors.SideOutput.{
  SideOutputEvent, SideOutputCollector, emit, sent, register, create_collector, SideOutputConfig,
  error_side_output,
}

enabled-create_collector :
    (V Err : Type 0) (config : SideOutputConfig)
    → (create_collector {V = V} {Err = Err} config).enabled ≡ true
unfolding create_collector register
enabled-create_collector V Err config = ground arith

module _ {V Err : Type 0} where
  pub emit_all :
      List (SideOutputEvent V Err) → SideOutputCollector V Err → SideOutputCollector V Err
  emit_all [] c = c
  emit_all (event ∷ events) c = emit_all events (emit false event c)

  abbrev pub of_tag : String → List (SideOutputEvent V Err) → List (SideOutputEvent V Err)
  of_tag tag [] = []
  of_tag tag (event ∷ events) =
      let rest = of_tag tag events in if string_key.beq event.tag tag then event ∷ rest else rest

  -- A channel after offers, if there is one.
  abbrev pub offered :
      List (SideOutputEvent V Err)
      → Option (Channel (SideOutputEvent V Err))
      → Option (Channel (SideOutputEvent V Err))
  offered events none = none
  offered events (some ch) = some (offer_all events ch)

  outputs-sent :
      (event : SideOutputEvent V Err) (tag : String) (c : SideOutputCollector V Err)
      (o : Option (Channel (SideOutputEvent V Err)))
      → get c.outputs event.tag ≡ o
      → get (sent event o c).outputs tag
        ≡ (if string_key.beq event.tag tag then offered (event ∷ []) o else get c.outputs tag)
  unfolding offer_all
  outputs-sent event tag c none e = elim (Bool-cases (string_key.beq event.tag tag)) [
    | inl h ↦ rw h (rw⁻¹ ((eq_iff event.tag tag).0 h) e)
    | inr h ↦ rw h refl
  ]
  outputs-sent event tag c (some ch) e = rw get-put (ground arith)

  offered-nil : (o : Option (Channel (SideOutputEvent V Err))) → offered [] o ≡ o
  unfolding offer_all
  offered-nil none = refl
  offered-nil (some ch) = refl

  emit_enabled :
      (event : SideOutputEvent V Err) (c : SideOutputCollector V Err)
      → c.enabled ≡ true
      → emit false event c ≡ sent event (get c.outputs event.tag) c
  unfolding emit
  emit_enabled event c on = simp on refl

  outputs-emit :
      (event : SideOutputEvent V Err) (tag : String) (c : SideOutputCollector V Err)
      → c.enabled ≡ true
      → get (emit false event c).outputs tag ≡ offered (of_tag tag (event ∷ [])) (get c.outputs tag)
  unfolding emit offer_all
  outputs-emit event tag c on =
      ap (λ d. get d.outputs tag) (emit_enabled event c on)
      ∙ (outputs-sent event tag c (get c.outputs event.tag) refl
          ∙ elim (Bool-cases (string_key.beq event.tag tag)) [
            | inl h ↦ rw h (rw⁻¹ ((eq_iff event.tag tag).0 h) refl)
            | inr h ↦ rw h (sym (offered-nil (get c.outputs tag)))
          ])

  enabled-emit :
      (event : SideOutputEvent V Err) (c : SideOutputCollector V Err)
      → (emit false event c).enabled ≡ c.enabled
  unfolding emit
  enabled-emit event c = go (get c.outputs event.tag)
    where
      go :
          (o : Option (Channel (SideOutputEvent V Err)))
          → (if c.enabled && (if false then false else true) then sent event o c else c).enabled
            ≡ c.enabled
      go none = ground arith
      go (some ch) = ground arith

  offered-append :
      (o : Option (Channel (SideOutputEvent V Err))) (event : SideOutputEvent V Err)
      (events : List (SideOutputEvent V Err))
      → offered events (offered (event ∷ []) o) ≡ offered (event ∷ events) o
  unfolding offer_all
  offered-append none event events = refl
  offered-append (some ch) event events = refl

  outputs-emit_all :
      (events : List (SideOutputEvent V Err)) (tag : String) (c : SideOutputCollector V Err)
      → c.enabled ≡ true
      → get (emit_all events c).outputs tag ≡ offered (of_tag tag events) (get c.outputs tag)
  unfolding emit_all
  outputs-emit_all [] tag c on = sym (offered-nil (get c.outputs tag))
  outputs-emit_all (event ∷ events) tag c on =
      outputs-emit_all events tag (emit false event c) (enabled-emit event c ∙ on)
      ∙ (rw (outputs-emit event tag c on) (elim (Bool-cases (string_key.beq event.tag tag)) [
        | inl h ↦ rw h (offered-append (get c.outputs tag) event (of_tag tag events))
        | inr h ↦ rw h (ap (offered (of_tag tag events)) (offered-nil (get c.outputs tag)))
      ]))

  -- The channel that a configuration makes for a tag.
  abbrev pub channel_if : Bool → ℕ → Option (Channel (SideOutputEvent V Err))
  channel_if enabled size = if enabled then some (new_channel size) else none

  abbrev pub items_of :
      Option (Channel (SideOutputEvent V Err)) → Option (List (SideOutputEvent V Err))
  items_of none = none
  items_of (some ch) = some ch.items

  items-offered :
      (events : List (SideOutputEvent V Err)) (enabled : Bool) (size : ℕ)
      → items_of (offered events (channel_if enabled size))
        ≡ (if enabled then some (take size events) else none)
  items-offered events true size = ap some (items-offer_all-new events size)
  items-offered events false size = refl

  errors-create_collector :
      (config : SideOutputConfig)
      → get (create_collector config).outputs error_side_output
        ≡ channel_if config.enable_error_side_output config.error_channel_size
  unfolding create_collector register get put
  errors-create_collector config = ground arith

  -- A new collector has, after any events were emitted while nothing was cancelled, the first error
  -- events in the channel of errors, as many as its configured size, if the configuration turns
  -- that side output on, and no such channel otherwise.
  pub items-emit_all-errors :
      (config : SideOutputConfig) (events : List (SideOutputEvent V Err))
      → items_of (get (emit_all events (create_collector config)).outputs error_side_output) ≡ (
          if config.enable_error_side_output
          then some (take config.error_channel_size (of_tag error_side_output events))
          else none)
  items-emit_all-errors config events =
      ap items_of (
        outputs-emit_all events error_side_output (create_collector config)
          (enabled-create_collector V Err config)
        ∙ ap (offered (of_tag error_side_output events)) (errors-create_collector config))
      ∙ items-offered (of_tag error_side_output events) config.enable_error_side_output
          config.error_channel_size
