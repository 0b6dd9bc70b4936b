-- ===== src/Schema/Naming.antt =====
-- Registrations keep the names of the registry distinct and described (internal/schema/registry.go).
use mock_salesforce.Base.{
  ◌≡◌, refl, sym, ap, ◌∙◌, inl, inr, Bool-cases, Option-cases, false, Option, none, some, List, [],
  ◌∷◌, ◌++◌, Bytes, str_eq, str_eq_iff, str_eq_refl, lookup, lookup-insert, any, All, arith, subst,
  if◌then◌else◌,
}
use mock_salesforce.Schema.{Registry, ObjectMeta, register}

abbrev pub empty_registry : Registry
empty_registry = record { registry = []; names = [] }

-- The registrations of a list, in order.
abbrev pub registered : List ObjectMeta → Registry → Registry
registered [] s = s
registered (m ∷ ms) s = registered ms (register m s)

-- The last description of a name in a list.
abbrev pub last_named : Bytes → List ObjectMeta → Option ObjectMeta → Option ObjectMeta
last_named n [] found = found
last_named n (m ∷ ms) found = last_named n ms (if str_eq m.name n then some m else found)

abbrev pub IsDistinct : List Bytes → Type 0
IsDistinct [] = Unit
IsDistinct (n ∷ ns) = (any (str_eq n) ns ≡ false) × IsDistinct ns

-- The name is registered with a description that bears it.
abbrev pub IsNamed : Registry → Bytes → Type 0
IsNamed s n = (m : ObjectMeta) × (lookup n s.registry ≡ some m) × (m.name ≡ n)

abbrev pub AreValid : Registry → List Bytes → Type 0
AreValid s ns = IsDistinct ns × All (IsNamed s) ns

abbrev pub IsValid : Registry → Type 0
IsValid s = AreValid s s.names

IsNamed-register :
    (m : ObjectMeta) (s : Registry) (n : Bytes) → IsNamed s n → IsNamed (register m s) n
unfolding register
IsNamed-register m s n (old, e, same) = elim (Bool-cases (str_eq m.name n)) [
  | inl h ↦ (m, rw (lookup-insert m.name n m s.registry, h) refl, (str_eq_iff m.name n).0 h)
  | inr h ↦ (old, rw (lookup-insert m.name n m s.registry, h) e, same)
]

All-IsNamed :
    (m : ObjectMeta) (s : Registry) (ns : List Bytes)
    → All (IsNamed s) ns
    → All (IsNamed (register m s)) ns
All-IsNamed m s [] h = tt
All-IsNamed m s (n ∷ ns) (h, hs) = (IsNamed-register m s n h, All-IsNamed m s ns hs)

All-snoc :
    (s : Registry) (n : Bytes) (ns : List Bytes)
    → All (IsNamed s) ns
    → IsNamed s n
    → All (IsNamed s) (ns ++ (n ∷ []))
All-snoc s n [] h p = (p, tt)
All-snoc s n (j ∷ ns) (h, hs) p = (h, All-snoc s n ns hs p)

any-snoc :
    (n k : Bytes) (ns : List Bytes)
    → any (str_eq n) ns ≡ false
    → str_eq n k ≡ false
    → any (str_eq n) (ns ++ (k ∷ [])) ≡ false
any-snoc n k [] h e = ground arith
any-snoc n k (j ∷ ns) h e = ground (arith, any-snoc n k ns)

named_ne :
    (s : Registry) (n k : Bytes) → IsNamed s n → lookup k s.registry ≡ none → str_eq n k ≡ false
named_ne s n k (m, e, same) h = elim (Bool-cases (str_eq n k)) [
  | inl q ↦
      let nk : n ≡ k = (str_eq_iff n k).0 q in
      let bad : some m ≡ none = sym e ∙ ap (λ x. lookup x s.registry) nk ∙ h in ground arith
  | inr q ↦ q
]

IsDistinct-snoc :
    (s : Registry) (k : Bytes) (ns : List Bytes)
    → IsDistinct ns
    → All (IsNamed s) ns
    → lookup k s.registry ≡ none
    → IsDistinct (ns ++ (k ∷ []))
IsDistinct-snoc s k [] d h e = (refl, tt)
IsDistinct-snoc s k (n ∷ ns) (d, ds) (h, hs) e =
    (any-snoc n k ns d (named_ne s n k h e), IsDistinct-snoc s k ns ds hs e)

pub register-names :
    (m : ObjectMeta) (s : Registry) (o : Option ObjectMeta)
    → lookup m.name s.registry ≡ o
    → (register m s).names ≡ elim o [ none ↦ s.names ++ (m.name ∷ []) | some _ ↦ s.names ]
unfolding register
register-names m s o e = rw (e, register) refl

IsNamed-self : (m : ObjectMeta) (s : Registry) → IsNamed (register m s) m.name
unfolding register
IsNamed-self m s = (m, rw (lookup-insert m.name m.name m s.registry, str_eq_refl m.name) refl, refl)

register-IsValid : (m : ObjectMeta) (s : Registry) → IsValid s → IsValid (register m s)
register-IsValid m s (d, h) = elim (Option-cases (lookup m.name s.registry)) [
  | inl e ↦ subst (AreValid (register m s)) (sym (register-names m s none e)) (
    IsDistinct-snoc s m.name s.names d h e,
    All-snoc (register m s) m.name s.names (All-IsNamed m s s.names h) (IsNamed-self m s),
  )
  | inr (old, e) ↦
      subst (AreValid (register m s)) (sym (register-names m s (some old) e))
        (d, All-IsNamed m s s.names h)
]

pub registered-IsValid :
    (ms : List ObjectMeta) (s : Registry) → IsValid s → IsValid (registered ms s)
registered-IsValid [] s h = h
registered-IsValid (m ∷ ms) s h = registered-IsValid ms (register m s) (register-IsValid m s h)
