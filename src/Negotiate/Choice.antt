-- ===== src/Negotiate/Choice.antt =====
-- Which codec the plugin picks, and that the host knows it.
use plugo.Prelude.{
  ◌≡◌, ap, ◌∙◌, subst, ◌++◌, Bool, true, false, List, [], ◌∷◌, none, some, String, arith, ◌==◌,
  ◌||◌, ◌⊎◌, string_eq, Bool-cases, inl, inr, lookup, insert, lookup-insert, All, ◌⊎◌,
}
use plugo.Codec.{Codec}
use plugo.Negotiate.{contains, names, codec_map, select_codec}

none_ne_some {ℓ} : {A : Type ℓ} {a : A} → some a ≡ none → ⊥
none_ne_some e = cc

module _ {V : Type 0} where
  abbrev pub Unsupported : List String → Codec V → Type 0
  Unsupported supported c = contains supported c.name ≡ false

  -- The plugin's precedence decides: what it picks is supported by the host, and stands in its list
  -- behind codecs that the host does not support, and none else.
  pub select_codec-first :
      (supported : List String) (cs : List (Codec V)) (c : Codec V)
      → select_codec supported cs ≡ some c
      → (before after : List (Codec V)) × (cs ≡ before ++ c ∷ after)
        × All (Unsupported supported) before
        × (contains supported c.name ≡ true)
  unfolding select_codec
  select_codec-first supported [] c e = ground arith
  select_codec-first supported (d ∷ cs) c e = elim (Bool-cases (contains supported d.name)) [
    | inl hit ↦
        let p : some d ≡ some c = rw hit at e in
        let q : d ≡ c = cc in
        ([], cs, ap (λ x. x ∷ cs) q, tt, subst (λ x. contains supported x.name ≡ true) q hit)
    | inr miss ↦
        let ih = select_codec-first supported cs c (rw miss at e) in
        (d ∷ ih.0, ih.1, ap (◌∷◌ d) ih.2, (miss, ih.3), ih.4)
  ]

  -- It picks none exactly if the host supports none of its codecs.
  pub select_codec-none :
      (supported : List String) (cs : List (Codec V))
      → select_codec supported cs ≡ none
      → All (Unsupported supported) cs
  unfolding select_codec
  select_codec-none supported [] e = tt
  select_codec-none supported (d ∷ cs) e = elim (Bool-cases (contains supported d.name)) [
    | inl hit ↦ absurd (none_ne_some (rw hit at e))
    | inr miss ↦ (miss, select_codec-none supported cs (rw miss at e))
  ]

  -- A codec goes into the map: what was found is found, under its name or a name it had.
  in_map :
      (d : Codec V) (m : List (String × Codec V)) (s : String) (b : Bool)
      → ((c : Codec V) × (lookup s m ≡ some c) × (c.name ≡ s)) ⊎ ((d.name == s || b) ≡ true)
      → ((c : Codec V) × (lookup s (insert d.name d m) ≡ some c) × (c.name ≡ s)) ⊎ (b ≡ true)
  in_map d m s b h = elim (Bool-cases (d.name == s)) [
    | inl hit ↦ inl (d, lookup-insert d.name s d m ∙ rw hit, (string_eq.same_iff d.name s).0 hit)
    | inr miss ↦ elim h [
      | inl (c, l, n) ↦ inl (c, lookup-insert d.name s d m ∙ rw miss l, n)
      | inr k ↦ inr (rw miss at k)
    ]
  ]

  lookup-codec_map :
      (cs : List (Codec V)) (m : List (String × Codec V)) (s : String)
      → ((c : Codec V) × (lookup s m ≡ some c) × (c.name ≡ s)) ⊎ (contains (names cs) s ≡ true)
      → (c : Codec V) × (lookup s (codec_map cs m) ≡ some c) × (c.name ≡ s)
  unfolding codec_map
  lookup-codec_map [] m s (inl h) = h
  lookup-codec_map [] m s (inr h) = ground arith
  lookup-codec_map (d ∷ cs) m s h =
      lookup-codec_map cs (insert d.name d m) s (in_map d m s (contains (names cs) s) h)

  -- A name of the host's list is found in its map, as a codec of that name.
  pub codec_map-names :
      (cs : List (Codec V)) (s : String)
      → contains (names cs) s ≡ true
      → (c : Codec V) × (lookup s (codec_map cs []) ≡ some c) × (c.name ≡ s)
  codec_map-names cs s h = lookup-codec_map cs [] s (inr h)
