-- ===== src/System/Sound.antt =====
-- The invariant of a connection: every stream in the map is open and stands there under its own id,
-- what the read loop is about to send on is open, and the two queues close with the loop only.
use plugo.Prelude.{
  ℕ, ◌<◌, ◌++◌, ◌≡◌, ◌≢◌, ◌==◌, subst, refl, sym, ◌∙◌, Bool, true, false, List, [], ◌∷◌, Option,
  none, some, arith, length, get_elem?, set, lookup, insert, delete, lookup-insert, lookup-delete,
  nat_eq, nat_beq_iff, get_elem?-set_self, get_elem?-set_ne, get_elem?-append_lt, get_elem?-lt,
  Option-cases, inl, inr, Bool-cases,
}
use plugo.Reader.{close_at, close_all}
use plugo.Conn.{Stream, Loop, reading, push_frame, stopped, MessageConn, cancel_at, cancel_all}

abbrev pub IsOpen : ℕ → Option Stream → Type 0
IsOpen id none = ⊥
IsOpen id (some s) = (s.id ≡ id) × (s.recv_ch.closed ≡ false)

abbrev pub OpenAt : ℕ → ℕ → List Stream → Type 0
OpenAt id ref os = IsOpen id (get_elem? os ref)

abbrev pub Entries : List (ℕ × ℕ) → List Stream → Type 0
Entries [] os = Unit
Entries ((id, ref) ∷ m) os = OpenAt id ref os × (lookup id m ≡ none) × Entries m os

abbrev pub LoopHolds : Loop → List Stream → Type 0
LoopHolds (push_frame ref f) os = OpenAt f.stream_id ref os
LoopHolds _ os = Unit

abbrev pub QueuesOpen : Loop → Bool → Bool → Type 0
QueuesOpen stopped a c = Unit
QueuesOpen _ a c = (a ≡ false) × (c ≡ false)

pub record IsSound {V : Type 0} (m : MessageConn V) : Type 0 where
  pub entries : Entries m.streams m.objects
  pub held : LoopHolds m.loop m.objects
  pub queues : QueuesOpen m.loop m.accept_ch.closed m.raw_msg_ch.closed

-- A change of the streams that closes none.
abbrev pub Keeps : List Stream → List Stream → Type 0
Keeps os os' = (id ref : ℕ) → OpenAt id ref os → OpenAt id ref os'

pub Entries-Keeps :
    (m : List (ℕ × ℕ)) (os os' : List Stream) → Keeps os os' → Entries m os → Entries m os'
Entries-Keeps [] os os' k e = tt
Entries-Keeps ((id, ref) ∷ m) os os' k e = (k id ref e.0, e.1, Entries-Keeps m os os' k e.2)

pub LoopHolds-Keeps :
    (l : Loop) (os os' : List Stream) → Keeps os os' → LoopHolds l os → LoopHolds l os'
LoopHolds-Keeps (push_frame ref f) os os' k h = k f.stream_id ref h
LoopHolds-Keeps reading os os' k h = tt
LoopHolds-Keeps _ os os' k h = tt

pub Entries-lookup :
    (m : List (ℕ × ℕ)) (os : List Stream) (id ref : ℕ)
    → Entries m os
    → lookup id m ≡ some ref
    → OpenAt id ref os
Entries-lookup [] os id ref e h = ground arith
Entries-lookup ((j, r) ∷ m) os id ref e h = elim (Bool-cases (j == id)) [
  | inl hit ↦
      let i : j ≡ id = (nat_beq_iff j id).0 hit in
      let q : r ≡ ref = ground arith in
      subst (λ (n : ℕ). IsOpen n (get_elem? os ref)) i
        (subst (λ (n : ℕ). IsOpen j (get_elem? os n)) q e.0)
  | inr miss ↦ Entries-lookup m os id ref e.2 (rw miss at h)
]

pub Entries-insert :
    (m : List (ℕ × ℕ)) (os : List Stream) (id ref : ℕ)
    → Entries m os
    → OpenAt id ref os
    → Entries (insert id ref m) os
Entries-insert [] os id ref e h = (h, refl, tt)
Entries-insert ((j, r) ∷ m) os id ref e h = elim (Bool-cases (j == id)) [
  | inl hit ↦ rw hit (h, subst (λ (n : ℕ). lookup n m ≡ none) ((nat_beq_iff j id).0 hit) e.1, e.2)
  | inr miss ↦
      rw miss (e.0, ground (arith, lookup-insert id j ref m), Entries-insert m os id ref e.2 h)
]

pub Entries-delete :
    (m : List (ℕ × ℕ)) (os : List Stream) (id : ℕ) → Entries m os → Entries (delete id m) os
Entries-delete [] os id e = tt
Entries-delete ((j, r) ∷ m) os id e = elim (Bool-cases (j == id)) [
  | inl hit ↦ rw hit (Entries-delete m os id e.2)
  | inr miss ↦ rw miss (e.0, ground (arith, lookup-delete id j m), Entries-delete m os id e.2)
]

OpenAt-lt : (id ref : ℕ) (os : List Stream) → OpenAt id ref os → ref < length os
OpenAt-lt id ref os h = elim (Option-cases (get_elem? os ref)) [
  | inl e ↦ absurd (rw e at h)
  | inr (s, e) ↦ get_elem?-lt os ref s e
]

pub Keeps-append : (os : List Stream) (s : Stream) → Keeps os (os ++ s ∷ [])
Keeps-append os s id ref h = rw (get_elem?-append_lt os (s ∷ []) ref (OpenAt-lt id ref os h)) h

pub Keeps-set :
    (os : List Stream) (ref : ℕ) (s s' : Stream)
    → get_elem? os ref ≡ some s
    → s'.id ≡ s.id
    → s'.recv_ch.closed ≡ s.recv_ch.closed
    → Keeps os (set os ref s')
Keeps-set os ref s s' e i c id r h = elim (Bool-cases (ref == r)) [
  | inl hit ↦
      let q : ref ≡ r = (nat_beq_iff ref r).0 hit in
      ground (arith, get_elem?-set_self os ref s' (get_elem?-lt os ref s e))
  | inr miss ↦ rw (get_elem?-set_ne os ref r s' (ground arith)) h
]

pub Keeps-refl : (os : List Stream) → Keeps os os
Keeps-refl os id ref h = h

pub Keeps-cancel_at : (ref : ℕ) (os : List Stream) → Keeps os (cancel_at ref os)
Keeps-cancel_at ref os = elim (Option-cases (get_elem? os ref)) [
  | inl e ↦ rw (e, cancel_at) (Keeps-refl os)
  | inr (s, e) ↦ rw (e, cancel_at) (Keeps-set os ref s (record s { cancelled = true }) e refl refl)
]

pub Keeps-cancel_all : (m : List (ℕ × ℕ)) (os : List Stream) → Keeps os (cancel_all m os)
Keeps-cancel_all [] os j r h = h
Keeps-cancel_all ((id, ref) ∷ m) os j r h =
    Keeps-cancel_all m (cancel_at ref os) j r (Keeps-cancel_at ref os j r h)

-- A change that closes the stream of one id only.
abbrev pub KeepsBut : ℕ → List Stream → List Stream → Type 0
KeepsBut id os os' = (j ref : ℕ) → j ≢ id → OpenAt j ref os → OpenAt j ref os'

pub Entries-KeepsBut :
    (m : List (ℕ × ℕ)) (id : ℕ) (os os' : List Stream)
    → KeepsBut id os os'
    → lookup id m ≡ none
    → Entries m os
    → Entries m os'
Entries-KeepsBut [] id os os' k l e = tt
Entries-KeepsBut ((j, ref) ∷ m) id os os' k l e =
    (k j ref (ground arith) e.0, e.1, Entries-KeepsBut m id os os' k (ground arith) e.2)

-- Streams that stand under different ids are different.
apart :
    (id j ref r : ℕ) (s : Stream) (os : List Stream)
    → get_elem? os ref ≡ some s
    → s.id ≡ id
    → j ≢ id
    → ref ≡ r
    → OpenAt j r os
    → ⊥
apart id j ref r s os e i ne q p = let t : IsOpen j (some s) = rw (← q, e) at p in ne (sym t.0 ∙ i)

-- The close of an open stream does not panic, and closes no other.
pub close_at-OpenAt :
    (id ref : ℕ) (os : List Stream)
    → OpenAt id ref os
    → (os' : List Stream) × (close_at ref os ≡ some os') × KeepsBut id os os'
close_at-OpenAt id ref os h = elim (Option-cases (get_elem? os ref)) [
  | inl e ↦ absurd (rw e at h)
  | inr (s, e) ↦
      let o : (s.id ≡ id) × (s.recv_ch.closed ≡ false) = rw e at h in
      let s' : Stream = record s {
        recv_ch = record { items = s.recv_ch.items; capacity = s.recv_ch.capacity; closed = true };
        cancelled = true;
      } in
      (
        set os ref s',
        ground arith,
        λ j r ne p. rw (get_elem?-set_ne os ref r s' (λ q. apart id j ref r s os e o.0 ne q p)) p,
      )
]

pub close_all-Entries :
    (m : List (ℕ × ℕ)) (os : List Stream)
    → Entries m os
    → (os' : List Stream) × (close_all m os ≡ some os')
close_all-Entries [] os e = (os, refl)
close_all-Entries ((id, ref) ∷ m) os e =
    let (os₁, c, k) = close_at-OpenAt id ref os e.0 in
    let (os₂, d) = close_all-Entries m os₁ (Entries-KeepsBut m id os os₁ k e.1 e.2) in
    (os₂, rw (close_all, c) d)

-- The map without an id, over streams of which only that id's was closed.
pub Entries-delete-KeepsBut :
    (m : List (ℕ × ℕ)) (id : ℕ) (os os' : List Stream)
    → KeepsBut id os os'
    → Entries m os
    → Entries (delete id m) os'
Entries-delete-KeepsBut m id os os' k e =
    Entries-KeepsBut (delete id m) id os os' k (ground (arith, lookup-delete id id m))
      (Entries-delete m os id e)
