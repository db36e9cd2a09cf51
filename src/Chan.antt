-- ===== src/Chan.antt =====
-- Go's buffered channels: a queue with a capacity, and a flag for `close`.
use plugo.Prelude.{
  ℕ, ◌++◌, Bool, true, false, List, [], ◌∷◌, Option, none, some, ltb, if◌then◌else◌, length, ◌≡◌,
  refl, ◌⊎◌, inl, inr, Bool-cases, ◌<◌, arith,
}

pub record Chan {ℓ} (A : Type ℓ) : Type ℓ where
  pub items : List A
  pub capacity : ℕ
  pub closed : Bool

-- A send goes through, blocks, or panics because the channel is closed.
pub data Sent {ℓ} (A : Type ℓ) : Type ℓ where
  sent : Chan A → Sent A
  blocks : Sent A
  crashes : Sent A

-- A receive gives the oldest item, the zero value of a closed channel (`!ok`), or blocks.
pub data Received {ℓ} (A : Type ℓ) : Type ℓ where
  got : A → Chan A → Received A
  drained : Received A
  empty : Received A

module _ {ℓ} {A : Type ℓ} where
  abbrev pub make : ℕ → Chan A
  make n = record { items = []; capacity = n; closed = false }

  abbrev pub send : A → Chan A → Sent A
  send a c =
      if c.closed
      then crashes
      else if ltb (length c.items) c.capacity
      then sent (record c { items = c.items ++ a ∷ [] })
      else blocks

  abbrev pub recv_from : Chan A → List A → Received A
  recv_from c (a ∷ rest) = got a (record c { items = rest })
  recv_from c [] = if c.closed then drained else empty

  abbrev pub recv : Chan A → Received A
  recv c = recv_from c c.items

  -- `close(c)` panics on a closed channel.
  abbrev pub close : Chan A → Option (Chan A)
  close c = if c.closed then none else some (record c { closed = true })

  -- A send on an open channel goes through or blocks.
  pub send_open :
      (a : A) (c : Chan A)
      → c.closed ≡ false
      → (send a c ≡ sent (record c { items = c.items ++ a ∷ [] })) ⊎ (send a c ≡ blocks)
  send_open a c h = elim (Bool-cases (ltb (length c.items) c.capacity)) [
    | inl room ↦ inl (rw (h, room))
    | inr full ↦ inr (rw (h, full))
  ]

  recv_from_cases :
      (c : Chan A) (l : List A)
      → ((a : A) × (rest : List A) × (recv_from c l ≡ got a (record c { items = rest })))
        ⊎ ((recv_from c l ≡ drained) ⊎ (recv_from c l ≡ empty))
  recv_from_cases c (a ∷ rest) = inl (a, rest, refl)
  recv_from_cases c [] = elim (Bool-cases c.closed) [
    | inl shut ↦ inr (inl (rw shut))
    | inr alive ↦ inr (inr (rw alive))
  ]

  -- A receive takes the oldest item, or finds none.
  pub recv_cases :
      (c : Chan A)
      → ((a : A) × (rest : List A) × (recv c ≡ got a (record c { items = rest })))
        ⊎ ((recv c ≡ drained) ⊎ (recv c ≡ empty))
  recv_cases c = recv_from_cases c c.items

  pub send_room :
      (a : A) (c : Chan A)
      → c.closed ≡ false
      → length c.items < c.capacity
      → send a c ≡ sent (record c { items = c.items ++ a ∷ [] })
  send_room a c h room = ground arith
