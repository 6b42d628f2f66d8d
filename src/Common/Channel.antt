-- ===== src/Common/Channel.antt =====
-- A buffered channel of Go with no reader, and a send in a select with a default: it is skipped where
-- the buffer is full.
use Prim.Native.Nat.{ℕ, zero, suc, ◌+◌, ◌-◌, ◌≤◌}
use mathlib.Core.Path.{◌≡◌, refl, sym, ap, ◌∙◌}
use mathlib.Core.List.{List, [], ◌∷◌, ◌++◌, append-nil, append_assoc}
use native.Mathlib.Omega.{arith}
use native.Mathlib.Decide.{dec_le}
use gress.Common.Tests.{ltb, if◌then◌else◌}
use gress.Common.Lists.{length, take, length-append}

pub record Channel (E : Type 0) : Type 0 where
  pub items : List E
  pub capacity : ℕ

module _ {E : Type 0} where
  unfoldable pub new_channel : ℕ → Channel E
  new_channel capacity = record { items = []; capacity = capacity }

  unfoldable pub offer : E → Channel E → Channel E
  offer e ch =
      if ltb (length ch.items) ch.capacity then record ch { items = ch.items ++ e ∷ [] } else ch

  unfoldable pub offer_all : List E → Channel E → Channel E
  offer_all [] ch = ch
  offer_all (e ∷ es) ch = offer_all es (offer e ch)

  take-nil : (n : ℕ) → take {A = E} n [] ≡ []
  take-nil zero = refl
  take-nil (suc n) = refl

  fill_room :
      (n m : ℕ) (items es : List E) (e : E)
      → n ≡ suc m
      → (items ++ e ∷ []) ++ take m es ≡ items ++ take n (e ∷ es)
  fill_room n m items es e h = rw h (rw append_assoc refl)

  fill_full : (n : ℕ) (items es : List E) → n ≡ 0 → items ++ take n es ≡ items
  fill_full n items es h = rw h (append-nil items)

  offer_room :
      (e : E) (ch : Channel E)
      → length ch.items + 1 ≤ ch.capacity
      → offer e ch ≡ record ch { items = ch.items ++ e ∷ [] }
  unfolding offer
  offer_room e ch h = ground (arith, h)

  offer_full : (e : E) (ch : Channel E) → ch.capacity ≤ length ch.items → offer e ch ≡ ch
  unfolding offer
  offer_full e ch h = ground (arith, h)

  items-offer_all :
      (es : List E) (ch : Channel E)
      → (offer_all es ch).items ≡ ch.items ++ take (ch.capacity - length ch.items) es
  unfolding offer_all
  items-offer_all [] ch =
      sym
        (ap (λ xs. ch.items ++ xs) (take-nil (ch.capacity - length ch.items)) ∙ append-nil ch.items)
  items-offer_all (e ∷ es) ch =
      let room = ch.capacity - length ch.items in
      elim (dec_le ch.capacity (length ch.items)) [
        | yes full ↦
            ap (λ c. (offer_all es c).items) (offer_full e ch full)
            ∙ (items-offer_all es ch
                ∙ (fill_full room ch.items es (omega arith)
                    ∙ sym (fill_full room ch.items (e ∷ es) (omega arith))))
        | no left ↦
            let ch' = record ch { items = ch.items ++ e ∷ [] } in
            ap (λ c. (offer_all es c).items) (offer_room e ch (omega arith))
            ∙ (items-offer_all es ch'
                ∙ fill_room room (ch.capacity - length ch'.items) ch.items es e
                    (omega (arith, length-append ch.items (e ∷ []))))
      ]

  -- A new channel holds, after any offers, the first ones, as many as its capacity.
  pub items-offer_all-new :
      (es : List E) (capacity : ℕ) → (offer_all es (new_channel capacity)).items ≡ take capacity es
  unfolding new_channel
  items-offer_all-new es capacity =
      items-offer_all es (new_channel capacity) ∙ ap (λ n. take n es) (omega arith)
