-- ===== src/Broker/System/Lookup.antt =====
-- The registry as a map from names to addresses, and which addresses it lists.
use mathlib.Core.Option
use mathlib.Core.Option.{some-injective}
use omni_mailbox.Base.{
  ℕ, ◌<◌, ◌≡◌, ◌⊎◌, refl, ap, false, Bool-cases, inl, inr, none, some, Option, List, [], ◌∷◌,
  if◌then◌else◌, ◌==◌, ==→eq, ≢→==, arith,
}
use omni_mailbox.Broker.{Name, ChannelState, same_name, find, is_some, contains, erase}
use omni_mailbox.Broker.Registry.{same_name-eq, Distinct, Below, contains-erase_same}
use omni_mailbox.Broker.System.{is_there, listed, address}

-- `find` where `contains` says no.
not_found : (name : Name) (ss : List ChannelState) → contains name ss ≡ false → find name ss ≡ none
unfolding contains
not_found name ss e = by_answer (find name ss) refl e
  where
    by_answer :
        (o : Option ChannelState) → find name ss ≡ o → is_some o ≡ false → find name ss ≡ none
    by_answer none same e = same
    by_answer (some s) same e = absurd (ground arith)

pub address-contains :
    (name : Name) (ss : List ChannelState) → is_there (address name ss) ≡ contains name ss
unfolding contains
address-contains name ss = by_answer (find name ss)
  where
    by_answer :
        (o : Option ChannelState)
        → is_there (Option.map (λ (t : ChannelState). t.queue) o) ≡ is_some o
    by_answer none = refl
    by_answer (some s) = refl

find-erase_other :
    (name other : Name) (ss : List ChannelState)
    → same_name name other ≡ false
    → find other (erase name ss) ≡ find other ss
unfolding find erase
find-erase_other name other [] ne = refl
find-erase_other name other (s ∷ ss) ne = elim (Bool-cases (same_name s.name name)) [
  | inl same ↦
      let e = same_name-eq s.name name same in rw (same, ap (λ t. same_name t other) e, ne) refl
  | inr differs ↦ elim (Bool-cases (same_name s.name other)) [
    | inl this ↦ rw (differs, this) refl
    | inr not_this ↦ rw (differs, not_this) (find-erase_other name other ss ne)
  ]
]

pub address-erase :
    (name other : Name) (ss : List ChannelState)
    → Distinct ss
    → address other (erase name ss) ≡ (if same_name name other then none else address other ss)
address-erase name other ss d = elim (Bool-cases (same_name name other)) [
  | inl same ↦
      rw
        (
          same,
          ← same_name-eq name other same,
          not_found name (erase name ss) (contains-erase_same name ss d),
        )
        refl
  | inr differs ↦ rw (differs, find-erase_other name other ss differs) refl
]

listed-Below :
    (a bound : ℕ) (ss : List ChannelState) → Below bound ss → a < bound ⊎ (listed a ss ≡ false)
listed-Below a bound [] b = inr refl
listed-Below a bound (t ∷ ts) (lt, b) = elim (Bool-cases (a == t.queue)) [
  | inl same ↦ inl (omega (arith, ==→eq a t.queue same))
  | inr differs ↦ elim (listed-Below a t.queue ts b) [
    | inl less ↦ inl (omega arith)
    | inr no_more ↦ inr (rw (differs, no_more) refl)
  ]
]

found-Below :
    (name : Name) (bound : ℕ) (ss : List ChannelState) (s : ChannelState)
    → find name ss ≡ some s
    → Below bound ss
    → s.queue < bound
unfolding find
found-Below name bound [] s e b = absurd (ground arith)
found-Below name bound (t ∷ ts) s e (lt, b) = elim (Bool-cases (same_name t.name name)) [
  | inl same ↦
      let found = some-injective _ _ (rw same at e) in
      omega (arith, ap (λ (t : ChannelState). t.queue) found)
  | inr other ↦ omega (arith, found-Below name t.queue ts s (rw other at e) b)
]

-- The newest entry's address is not listed again.
pub listed-above :
    (a bound : ℕ) (ss : List ChannelState) → Below bound ss → a ≡ bound → listed a ss ≡ false
listed-above a bound ss b e = elim (listed-Below a bound ss b) [
  | inl less ↦ absurd (omega arith)
  | inr no_more ↦ no_more
]

pub listed-erase :
    (a : ℕ) (name : Name) (bound : ℕ) (ss : List ChannelState) (s : ChannelState)
    → find name ss ≡ some s
    → Below bound ss
    → listed a (erase name ss) ≡ (if a == s.queue then false else listed a ss)
unfolding find erase
listed-erase a name bound [] s e b = absurd (ground arith)
listed-erase a name bound (t ∷ ts) s e (lt, b) = elim (Bool-cases (same_name t.name name)) [
  | inl same ↦
      let found = ap (λ (t : ChannelState). t.queue) (some-injective _ _ (rw same at e)) in
      rw (same, ← found)
        (elim (Bool-cases (a == t.queue)) [
          | inl this ↦ rw this (listed-above a t.queue ts b (==→eq a t.queue this))
          | inr other ↦ rw other refl
        ])
  | inr differs ↦
      let found = rw differs at e in
      let less = found-Below name t.queue ts s found b in
      rw differs (elim (Bool-cases (a == t.queue)) [
        | inl this ↦
            rw (this, ≢→== a s.queue (λ h. omega (arith, ==→eq a t.queue this, less, h))) refl
        | inr other ↦ rw other (listed-erase a name t.queue ts s found b)
      ])
]
