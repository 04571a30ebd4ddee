-- ===== src/Debugger/Break.antt =====
-- pm/vm_debugger.c: the table of breakpoints as a map from addresses, and its invariant.
use mathlib.Core.Option
use pocol_vm.Prelude.{
  ℕ, ◌+◌, ◌≤◌, ◌<◌, ◌≡◌, ◌≢◌, ◌↔◌, refl, Bool, true, Option, none, some, List, [], ◌∷◌, ◌++◌, arith,
  length, length-append, Bool-cases, Option-cases, inl, inr, leb, le→leb, lt→leb_false, ◌==◌,
  if◌then◌else◌,
}
use pocol_vm.Debugger.{
  debug_max_breakpoints, BreakPoint, Debugger, index_of, set_enabled, remove_first, first_at,
  find_breakpoint, new_breakpoint, add_breakpoint, remove_breakpoint, switch_breakpoint,
}

abbrev pub switched : Bool → BreakPoint → BreakPoint
switched on b = record b { enabled = on }

-- No two breakpoints have one address.
abbrev pub Unique : List BreakPoint → Type 0
Unique [] = Unit
Unique (b ∷ bs) = (first_at b.address bs ≡ none) × Unique bs

pub record IsValid (d : Debugger) : Type 0 where
  pub unique : Unique d.breakpoints
  pub fits : length d.breakpoints ≤ debug_max_breakpoints

first_at-set_enabled :
    (a j : ℕ) (on : Bool) (bs : List BreakPoint)
    → first_at j (set_enabled a on bs)
      ≡ (if a == j then Option.map (switched on) (first_at j bs) else first_at j bs)
unfolding first_at set_enabled
first_at-set_enabled a j on [] = ground arith
first_at-set_enabled a j on (b ∷ bs) = ground (arith, first_at-set_enabled a j on bs)

-- A new entry behind the others is found where they have none.
first_at-append :
    (j : ℕ) (b : BreakPoint) (bs : List BreakPoint)
    → first_at b.address bs ≡ none
    → first_at j (bs ++ b ∷ []) ≡ (if b.address == j then some b else first_at j bs)
unfolding first_at
first_at-append j b [] h = refl
first_at-append j b (c ∷ bs) h = ground (arith, first_at-append j b bs)

index_of-none : (a i : ℕ) (bs : List BreakPoint) → index_of a i bs ≡ none → first_at a bs ≡ none
unfolding index_of first_at
index_of-none a i [] h = refl
index_of-none a i (b ∷ bs) h = ground (arith, index_of-none a (i + 1) bs)

index_of-some : (a i k : ℕ) (bs : List BreakPoint) → index_of a i bs ≡ some k → first_at a bs ≢ none
unfolding index_of first_at
index_of-some a i k [] h = cc
index_of-some a i k (b ∷ bs) h = ground (arith, index_of-some a (i + 1) k bs)

first_at-remove_first :
    (a j : ℕ) (bs : List BreakPoint)
    → Unique bs
    → first_at j (remove_first a bs) ≡ (if a == j then none else first_at j bs)
unfolding first_at remove_first
first_at-remove_first a j [] u = ground arith
first_at-remove_first a j (b ∷ bs) (f, u) = ground (arith, first_at-remove_first a j bs)

Unique-set_enabled :
    (a : ℕ) (on : Bool) (bs : List BreakPoint) → Unique bs → Unique (set_enabled a on bs)
unfolding set_enabled
Unique-set_enabled a on [] u = tt
Unique-set_enabled a on (b ∷ bs) (f, u) = elim (Bool-cases (b.address == a)) [
  | inl here ↦ rw here (f, u)
  | inr there ↦
      rw there
        (ground (arith, first_at-set_enabled a b.address on bs), Unique-set_enabled a on bs u)
]

Unique-append :
    (b : BreakPoint) (bs : List BreakPoint)
    → first_at b.address bs ≡ none
    → Unique bs
    → Unique (bs ++ b ∷ [])
unfolding first_at
Unique-append b [] h u = (refl, tt)
Unique-append b (c ∷ bs) h (f, u) =
    (ground (arith, first_at-append c.address b bs), Unique-append b bs (ground arith) u)

Unique-remove_first : (a : ℕ) (bs : List BreakPoint) → Unique bs → Unique (remove_first a bs)
unfolding remove_first
Unique-remove_first a [] u = tt
Unique-remove_first a (b ∷ bs) (f, u) = elim (Bool-cases (b.address == a)) [
  | inl here ↦ rw here u
  | inr there ↦
      rw there (ground (arith, first_at-remove_first a b.address bs u), Unique-remove_first a bs u)
]

length-set_enabled :
    (a : ℕ) (on : Bool) (bs : List BreakPoint) → length (set_enabled a on bs) ≡ length bs
unfolding set_enabled
length-set_enabled a on [] = refl
length-set_enabled a on (b ∷ bs) = ground (arith, length-set_enabled a on bs)

length-remove_first : (a : ℕ) (bs : List BreakPoint) → length (remove_first a bs) ≤ length bs
unfolding remove_first
length-remove_first a [] = omega arith
length-remove_first a (b ∷ bs) = ground (arith, length-remove_first a bs)

-- Adding a breakpoint keeps the addresses of the table distinct and its count within the array.
pub add_breakpoint-IsValid : (d : Debugger) (a : ℕ) → IsValid d → IsValid (add_breakpoint d a).1
unfolding add_breakpoint
add_breakpoint-IsValid d a v = elim (Bool-cases d.initialized) [
  | inr off ↦ simp off v
  | inl on ↦ elim (Bool-cases (leb debug_max_breakpoints (length d.breakpoints))) [
    | inl full ↦ simp (on, full) v
    | inr room ↦ elim (Option-cases (index_of a 0 d.breakpoints)) [
      | inl new ↦
          simp (on, room, new)
            (record {
              unique =
                  Unique-append (new_breakpoint a) d.breakpoints
                    (index_of-none a 0 d.breakpoints new) v.unique;
              fits = ground (arith, length-append d.breakpoints (new_breakpoint a ∷ []));
            })
      | inr (i, old) ↦
          simp (on, room, old)
            (record {
              unique = Unique-set_enabled a true d.breakpoints v.unique;
              fits = omega (arith, length-set_enabled a true d.breakpoints, v.fits);
            })
    ]
  ]
]

-- Removing a breakpoint keeps the addresses of the table distinct and its count within the array.
pub remove_breakpoint-IsValid :
    (d : Debugger) (a : ℕ) → IsValid d → IsValid (remove_breakpoint d a).1
unfolding remove_breakpoint
remove_breakpoint-IsValid d a v = elim (Bool-cases d.initialized) [
  | inr off ↦ simp off v
  | inl on ↦ elim (Option-cases (index_of a 0 d.breakpoints)) [
    | inl absent ↦ simp (on, absent) v
    | inr (i, found) ↦
        simp (on, found)
          (record {
            unique = Unique-remove_first a d.breakpoints v.unique;
            fits = omega (arith, length-remove_first a d.breakpoints, v.fits);
          })
  ]
]

-- Enabling or disabling a breakpoint keeps the addresses of the table distinct and its count within
-- the array.
pub switch_breakpoint-IsValid :
    (on : Bool) (d : Debugger) (a : ℕ) → IsValid d → IsValid (switch_breakpoint on d a).1
unfolding switch_breakpoint
switch_breakpoint-IsValid on d a v = elim (Option-cases (find_breakpoint d a)) [
  | inl absent ↦ simp absent v
  | inr (b, found) ↦ simp found (record {
    unique = Unique-set_enabled a on d.breakpoints v.unique;
    fits = omega (arith, length-set_enabled a on d.breakpoints, v.fits);
  })
]

-- What adding a breakpoint leaves at its address: a new one, or the old one switched on.
abbrev pub added : ℕ → Option BreakPoint → BreakPoint
added a none = new_breakpoint a
added a (some b) = switched true b

switched_at :
    (a j : ℕ) (bs : List BreakPoint)
    → first_at a bs ≢ none
    → first_at j (set_enabled a true bs)
      ≡ (if a == j then some (added a (first_at a bs)) else first_at j bs)
switched_at a j bs some_old = elim (Option-cases (first_at a bs)) [
  | inl absent ↦ absurd (some_old absent)
  | inr (b, found) ↦ ground (arith, first_at-set_enabled a j true bs, found)
]

module _ (d : Debugger) (on : d.initialized ≡ true) (v : IsValid d) where
  -- Adding a breakpoint fails exactly when the array is full, and then changes nothing. Otherwise an
  -- enabled breakpoint stands at the address, which keeps the hits of one that stood there before,
  -- and what is found at every other address stays.
  pub find_breakpoint-add_breakpoint :
      (a j : ℕ)
      → (debug_max_breakpoints ≤ length d.breakpoints → add_breakpoint d a ≡ (none, d))
        × (length d.breakpoints < debug_max_breakpoints
            → ((add_breakpoint d a).0 ≢ none)
              × (find_breakpoint (add_breakpoint d a).1 j
                  ≡ (if a == j then some (added a (find_breakpoint d a)) else find_breakpoint d j)))
  unfolding find_breakpoint add_breakpoint
  find_breakpoint-add_breakpoint a j = (
    (λ full. simp (on, le→leb _ _ full)),
    λ room. elim (Option-cases (index_of a 0 d.breakpoints)) [
      | inl new ↦
          let absent = index_of-none a 0 d.breakpoints new in
          simp (on, lt→leb_false _ _ room, new, absent)
            ((λ q. cc), first_at-append j (new_breakpoint a) d.breakpoints absent)
      | inr (i, old) ↦
          simp (on, lt→leb_false _ _ room, old)
            ((λ q. cc), switched_at a j d.breakpoints (index_of-some a 0 i d.breakpoints old))
    ],
  )

  -- Removing a breakpoint succeeds exactly when one is found at the address. Then none is found
  -- there, and what is found at every other address stays.
  pub find_breakpoint-remove_breakpoint :
      (a j : ℕ)
      → ((remove_breakpoint d a).0 ≡ true ↔ (find_breakpoint d a ≢ none))
        × (find_breakpoint (remove_breakpoint d a).1 j
            ≡ (if a == j then none else find_breakpoint d j))
  unfolding find_breakpoint remove_breakpoint
  find_breakpoint-remove_breakpoint a j = elim (Option-cases (index_of a 0 d.breakpoints)) [
    | inl new ↦
        let absent = index_of-none a 0 d.breakpoints new in
        simp (on, new) (((λ q. cc), λ q. absurd (q absent)), ground (arith, absent))
    | inr (i, old) ↦
        simp (on, old)
          (
            ((λ _. index_of-some a 0 i d.breakpoints old), λ _. refl),
            first_at-remove_first a j d.breakpoints v.unique,
          )
  ]

  -- Switching a breakpoint on or off succeeds exactly when one is found at the address. It changes
  -- that one's flag and nothing else that is found.
  pub find_breakpoint-switch_breakpoint :
      (b : Bool) (a j : ℕ)
      → ((switch_breakpoint b d a).0 ≡ true ↔ (find_breakpoint d a ≢ none))
        × (find_breakpoint (switch_breakpoint b d a).1 j ≡ (
            if a == j then Option.map (switched b) (find_breakpoint d j) else find_breakpoint d j))
  unfolding find_breakpoint switch_breakpoint
  find_breakpoint-switch_breakpoint b a j = elim (Option-cases (first_at a d.breakpoints)) [
    | inl absent ↦ simp (on, absent) (((λ q. cc), λ q. absurd (q refl)), ground (arith, absent))
    | inr (p, found) ↦
        simp (on, found) (((λ _ q. cc), λ _. refl), first_at-set_enabled a j b d.breakpoints)
  ]
