-- ===== src/Broker/Registry.antt =====
-- The registry as a finite map from names to entries.
use omni_mailbox.Base.{
  ℕ, suc, ◌<◌, ◌≤◌, ◌≡◌, ◌≢◌, refl, sym, ap, ◌∙◌, true, false, Bool-cases, inl, inr, Option, none,
  some, List, [], ◌∷◌, length, ◌==◌, ==→eq, eq→==, arith,
}
use mathlib.Core.Option.{some-injective}
use omni_mailbox.Spsc.{SpscQueue}
use omni_mailbox.Broker.{Name, ChannelState, same_name, find, is_some, contains, erase, put}

pub same_name_refl : (n : Name) → same_name n n ≡ true
unfolding same_name
same_name_refl [] = refl
same_name_refl (x ∷ xs) = rw (eq→== x x refl) (same_name_refl xs)

pub same_name-eq : (m n : Name) → same_name m n ≡ true → m ≡ n
unfolding same_name
same_name-eq [] [] e = refl
same_name-eq [] (y ∷ ys) e = absurd (ground arith)
same_name-eq (x ∷ xs) [] e = absurd (ground arith)
same_name-eq (x ∷ xs) (y ∷ ys) e = elim (Bool-cases (x == y)) [
  | inl same ↦ let rest = same_name-eq xs ys (rw same at e) in let head = ==→eq x y same in cc
  | inr other ↦ absurd (ground (arith, rw other at e))
]

pub same_name-symmetric : (m n : Name) → same_name m n ≡ false → same_name n m ≡ false
same_name-symmetric m n e = elim (Bool-cases (same_name n m)) [
  | inl same ↦ let eq = same_name-eq n m same in let r = same_name_refl n in absurd cc
  | inr other ↦ other
]

-- No name twice, and the newest address first, all of them below `bound`.
abbrev pub Distinct : List ChannelState → Type 0
Distinct [] = Unit {0}
Distinct (s ∷ ss) = (contains s.name ss ≡ false) × Distinct ss

abbrev pub Below : ℕ → List ChannelState → Type 0
Below bound [] = Unit {0}
Below bound (s ∷ ss) = (s.queue < bound) × Below s.queue ss

pub Below-le : (m n : ℕ) (ss : List ChannelState) → m ≤ n → Below m ss → Below n ss
Below-le m n [] h b = tt
Below-le m n (s ∷ ss) h (lt, b) = (omega arith, b)

-- The queue of every registered channel lies below the bound.
pub Below-find :
    (name : Name) (n : ℕ) (ss : List ChannelState) (s : ChannelState)
    → find name ss ≡ some s
    → Below n ss
    → s.queue < n
unfolding find
Below-find name n [] s e b = absurd (ground arith)
Below-find name n (x ∷ xs) s e (lt, b) = elim (Bool-cases (same_name x.name name)) [
  | inl same ↦
      let found = some-injective _ _ (rw same at e) in
      rw (← ap (λ (t : ChannelState). t.queue) found) lt
  | inr other ↦ let rest = Below-find name x.queue xs s (rw other at e) b in omega arith
]

pub put_same : (a : ℕ) (q : SpscQueue) (store : ℕ → SpscQueue) → put a q store a ≡ q
put_same a q store = rw (eq→== a a refl)

pub put_other :
    (a b : ℕ) (q : SpscQueue) (store : ℕ → SpscQueue) → a ≢ b → put a q store b ≡ store b
put_other a b q store ne = ground arith

module _ (P : SpscQueue → Type 0) where
  -- A property of every registered queue.
  abbrev pub Every : (ℕ → SpscQueue) → List ChannelState → Type 0
  Every store [] = Unit {0}
  Every store (s ∷ ss) = P (store s.queue) × Every store ss

  -- A write to an address above those of the registry changes none of its queues.
  pub Every-put_above :
      (a : ℕ) (q : SpscQueue) (store : ℕ → SpscQueue) (n : ℕ) (ss : List ChannelState)
      → Below n ss
      → n ≤ a
      → Every store ss
      → Every (put a q store) ss
  Every-put_above a q store n [] b h every = tt
  Every-put_above a q store n (s ∷ ss) (lt, b) h (this, rest) = (
    rw (put_other a s.queue q store (omega arith)) this,
    Every-put_above a q store s.queue ss b (omega arith) rest,
  )

  pub Every-put :
      (a : ℕ) (q : SpscQueue) (store : ℕ → SpscQueue) (ss : List ChannelState)
      → P q
      → Every store ss
      → Every (put a q store) ss
  Every-put a q store [] new every = tt
  Every-put a q store (s ∷ ss) new (this, rest) = (
    elim (Bool-cases (s.queue == a)) [ inl same ↦ rw same new | inr other ↦ rw other this ],
    Every-put a q store ss new rest,
  )

  pub Every-erase :
      (name : Name) (store : ℕ → SpscQueue) (ss : List ChannelState)
      → Every store ss
      → Every store (erase name ss)
  unfolding erase
  Every-erase name store [] every = tt
  Every-erase name store (s ∷ ss) (this, rest) = elim (Bool-cases (same_name s.name name)) [
    | inl same ↦ rw same rest
    | inr other ↦ rw other (this, Every-erase name store ss rest)
  ]

  pub Every-find :
      (name : Name) (store : ℕ → SpscQueue) (ss : List ChannelState) (s : ChannelState)
      → find name ss ≡ some s
      → Every store ss
      → P (store s.queue)
  unfolding find
  Every-find name store [] s e every = absurd (ground arith)
  Every-find name store (x ∷ xs) s e (this, rest) = elim (Bool-cases (same_name x.name name)) [
    | inl same ↦
        let found = some-injective _ _ (rw same at e) in
        rw (← ap (λ (t : ChannelState). t.queue) found) this
    | inr other ↦ Every-find name store xs s (rw other at e) rest
  ]

module _ (name : Name) where
  -- A name is registered exactly when `find` finds an entry.
  pub contains-find :
      (ss : List ChannelState)
      → contains name ss ≡ true
      → (s : ChannelState) × (find name ss ≡ some s)
  unfolding contains
  contains-find ss e = found (find name ss) refl e
    where
      found :
          (o : Option ChannelState)
          → find name ss ≡ o
          → is_some o ≡ true
          → (s : ChannelState) × (find name ss ≡ some s)
      found none eq e = absurd (ground arith)
      found (some s) eq e = (s, eq)

  pub length-erase :
      (ss : List ChannelState) → contains name ss ≡ true → suc (length (erase name ss)) ≡ length ss
  unfolding contains find erase
  length-erase [] e = absurd (ground arith)
  length-erase (s ∷ ss) e = elim (Bool-cases (same_name s.name name)) [
    | inl same ↦ rw same refl
    | inr other ↦ rw other (ap suc (length-erase ss (rw other at e)))
  ]

  -- Other names stay as they were.
  pub contains-erase_other :
      (other : Name) (ss : List ChannelState)
      → same_name name other ≡ false
      → contains other (erase name ss) ≡ contains other ss
  unfolding contains find erase
  contains-erase_other other [] ne = refl
  contains-erase_other other (s ∷ ss) ne = elim (Bool-cases (same_name s.name name)) [
    | inl same ↦
        let e = same_name-eq s.name name same in rw (same, ap (λ t. same_name t other) e, ne) refl
    | inr differs ↦ elim (Bool-cases (same_name s.name other)) [
      | inl this ↦ rw (differs, this) refl
      | inr not_this ↦ rw (differs, not_this) (contains-erase_other other ss ne)
    ]
  ]

  -- The erased name is gone, where no name is there twice.
  pub contains-erase_same :
      (ss : List ChannelState) → Distinct ss → contains name (erase name ss) ≡ false
  unfolding contains find erase
  contains-erase_same [] d = refl
  contains-erase_same (s ∷ ss) (fresh, d) = elim (Bool-cases (same_name s.name name)) [
    | inl same ↦ rw same (ap (λ t. contains t ss) (sym (same_name-eq s.name name same)) ∙ fresh)
    | inr differs ↦ rw (differs, differs) (contains-erase_same ss d)
  ]

  pub Distinct-erase : (ss : List ChannelState) → Distinct ss → Distinct (erase name ss)
  unfolding erase
  Distinct-erase [] d = tt
  Distinct-erase (s ∷ ss) (fresh, d) = elim (Bool-cases (same_name s.name name)) [
    | inl same ↦ rw same d
    | inr differs ↦ rw differs (
      contains-erase_other s.name ss (same_name-symmetric s.name name differs) ∙ fresh,
      Distinct-erase ss d,
    )
  ]

  pub Below-erase :
      (bound : ℕ) (ss : List ChannelState) → Below bound ss → Below bound (erase name ss)
  unfolding erase
  Below-erase bound [] b = tt
  Below-erase bound (s ∷ ss) (lt, b) = elim (Bool-cases (same_name s.name name)) [
    | inl same ↦ rw same (Below-le s.queue bound ss (omega arith) b)
    | inr differs ↦ rw differs (lt, Below-erase s.queue ss b)
  ]
