-- ===== src/Machine/Stores.antt =====
-- Laws of the memory: what a store changes, and where a list of bytes stands.
use mathlib.Core.Path.{fun_ext, ◌∙◌, subst}
use pocol_vm.Prelude.{
  ℕ, zero, suc, ◌+◌, ◌≤◌, ◌<◌, ◌≡◌, refl, ◌⊎◌, inl, List, [], ◌∷◌, ◌++◌, arith, length, ap, ◌≢◌,
}
use pocol_vm.Machine.{Memory, Holds, store, store_list, load_list}

pub store_ne : (m : Memory) (a v b : ℕ) → a ≢ b → store m a v b ≡ m b
unfolding store
store_ne m a v b h = ground arith

pub store_self : (m : Memory) (a v : ℕ) → store m a v a ≡ v
unfolding store
store_self m a v = ground arith

-- A store of the byte that is there changes nothing.
pub store_same : (m : Memory) (a v : ℕ) → m a ≡ v → store m a v ≡ m
unfolding store
store_same m a v h = fun_ext λ b. ground arith

-- Storing a list changes no byte before it and none behind it.
pub store_list-outside :
    (m : Memory) (a : ℕ) (vs : List ℕ) (b : ℕ)
    → (b < a) ⊎ (a + length vs ≤ b)
    → store_list m a vs b ≡ m b
unfolding store_list
store_list-outside m a [] b h = refl
store_list-outside m a (v ∷ vs) b h =
    store_list-outside (store m a v) (a + 1) vs b (omega arith) ∙ store_ne m a v b (omega arith)

pub Holds-store_list : (m : Memory) (a : ℕ) (vs : List ℕ) → Holds (store_list m a vs) a vs
unfolding store_list
Holds-store_list m a [] = tt
Holds-store_list m a (v ∷ vs) = (
  store_list-outside (store m a v) (a + 1) vs a (inl (omega arith)) ∙ store_self m a v,
  Holds-store_list (store m a v) (a + 1) vs,
)

-- Storing the bytes that are there changes nothing.
pub store_list-same : (m : Memory) (a : ℕ) (vs : List ℕ) → Holds m a vs → store_list m a vs ≡ m
unfolding store_list
store_list-same m a [] h = refl
store_list-same m a (v ∷ vs) (e, h) = rw (store_same m a v e) (store_list-same m (a + 1) vs h)

pub Holds-append :
    (m : Memory) (a : ℕ) (xs ys : List ℕ)
    → Holds m a (xs ++ ys)
    → Holds m a xs × Holds m (a + length xs) ys
Holds-append m a [] ys h = (tt, subst (λ k. Holds m k ys) (omega arith) h)
Holds-append m a (x ∷ xs) ys (e, h) =
    let (l, r) = Holds-append m (a + 1) xs ys h in
    ((e, l), subst (λ k. Holds m k ys) (omega arith) r)

-- The bytes that are read from memory stand there.
pub Holds-load_list : (m : Memory) (a n : ℕ) → Holds m a (load_list m a n)
unfolding load_list
Holds-load_list m a zero = tt
Holds-load_list m a (suc n) = (refl, Holds-load_list m (a + 1) n)

pub length-load_list : (m : Memory) (a n : ℕ) → length (load_list m a n) ≡ n
unfolding load_list
length-load_list m a zero = refl
length-load_list m a (suc n) = ap suc (length-load_list m (a + 1) n)

pub Holds-join :
    (m : Memory) (a : ℕ) (xs ys : List ℕ)
    → Holds m a xs
    → Holds m (a + length xs) ys
    → Holds m a (xs ++ ys)
Holds-join m a [] ys h k = subst (λ i. Holds m i ys) (omega arith) k
Holds-join m a (x ∷ xs) ys (e, h) k =
    (e, Holds-join m (a + 1) xs ys h (subst (λ i. Holds m i ys) (omega arith) k))

-- What agrees up to the end of a list holds it too.
pub Holds-agree :
    (m n : Memory) (a : ℕ) (xs : List ℕ)
    → ((i : ℕ) → i < a + length xs → n i ≡ m i)
    → Holds m a xs
    → Holds n a xs
Holds-agree m n a [] same h = tt
Holds-agree m n a (x ∷ xs) same (e, h) = (
  same a (omega arith) ∙ e,
  Holds-agree m n (a + 1) xs (λ i below. same i (omega (arith, below))) h,
)
