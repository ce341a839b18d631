-- ===== src/Converters/Variants.antt =====
-- Variants of structures and of extension objects, and the lists of list_conversion_utils.h.
use opc_ua_modules.Base.{
  ◌≡◌, refl, sym, subst, Bool, Option, none, some, List, [], ◌∷◌, map, All, if◌then◌else◌,
  Bool-cases, inl, inr,
}

-- Values of the structures of several types, `k`, as `UA_Variant` holds them: nothing, one value, an
-- array, or extension objects with decoded content or without.
pub data Variant {ℓ} {K : Type 0} (S : K → Type ℓ) : Type ℓ where
  nothing : Variant S
  scalar : (k : K) → S k → Variant S
  array : (k : K) → List (S k) → Variant S
  extension_object : Option ((k : K) × S k) → Variant S
  extension_objects : List (Option ((k : K) × S k)) → Variant S

-- What the converter of a type has for each structure; none is an exception. `kind_of` is the
-- structure that an object goes to where no target is given.
pub record StructConverter {ℓ} {K : Type 0} (S : K → Type ℓ) (B : Type ℓ) : Type ℓ where
  pub supports : K → Bool
  pub to_daq_object : (k : K) → S k → Option B
  pub to_tms_type : (k : K) → B → Option (S k)
  pub kind_of : B → K

infixl 5 ◌>>=◌
abbrev pub ◌>>=◌ {ℓ κ} : {A : Type ℓ} {C : Type κ} → Option A → (A → Option C) → Option C
none >>= then_do = none
some a >>= then_do = then_do a

-- An exception for one element is one for the list.
abbrev pub traverse {ℓ κ} : {A : Type κ} {C : Type ℓ} → (A → Option C) → List A → Option (List C)
traverse f [] = some []
traverse f (a ∷ as') = f a >>= λ c. traverse f as' >>= λ cs. some (c ∷ cs)

module _ {ℓ} {K : Type 0} {S : K → Type ℓ} where
  -- `DecodeIfExtensionObject` and the cast of the data: the first value.
  abbrev pub decode : Variant S → Option ((k : K) × S k)
  decode nothing = none
  decode (scalar k s) = some (k, s)
  decode (array k []) = none
  decode (array k (s ∷ ss)) = some (k, s)
  decode (extension_object o) = o
  decode (extension_objects []) = none
  decode (extension_objects (o ∷ os)) = o

module _ {ℓ} {K : Type 0} {S : K → Type ℓ} {B : Type ℓ} (c : StructConverter S B) where
  -- `VariantConverter::ToDaqObject`
  abbrev pub to_daq_object : Variant S → Option B
  to_daq_object v = decode v >>= λ ks. c.to_daq_object ks.0 ks.1

  -- `VariantConverter::ToVariant`, with the target type.
  abbrev pub to_variant : Option K → B → Option (Variant S)
  to_variant none b = c.to_tms_type (c.kind_of b) b >>= λ s. some (scalar (c.kind_of b) s)
  to_variant (some k) b = c.to_tms_type k b >>= λ s. some (scalar k s)

  -- An element of `ExtensionObjectVariantToList`: none inside is an object that is not assigned.
  abbrev pub read_object : Option ((k : K) × S k) → Option (Option B)
  read_object none = some none
  read_object (some (k, s)) = c.to_daq_object k s >>= λ b. some (some b)

  -- An element of `VariantToList`.
  abbrev pub read_structure : (k : K) → S k → Option (Option B)
  read_structure k s = c.to_daq_object k s >>= λ b. some (some b)

  -- `VariantToList` and `ExtensionObjectVariantToList`: one value has no array length, and makes an
  -- empty list.
  abbrev pub to_daq_list : Variant S → Option (List (Option B))
  to_daq_list nothing = none
  to_daq_list (scalar k s) = if c.supports k then some [] else none
  to_daq_list (array k ss) = if c.supports k then traverse (read_structure k) ss else none
  to_daq_list (extension_object o) = some []
  to_daq_list (extension_objects os) = traverse read_object os

  -- `ToExtensionObjectArrayVariant` and `ToArrayVariant`
  abbrev pub to_array_variant : Option K → List B → Option (Variant S)
  to_array_variant none bs = traverse (λ b. to_variant none b >>= λ v. some (decode v)) bs >>= λ os.
      some (extension_objects os)
  to_array_variant (some k) bs =
      if c.supports k
      then (traverse (λ b. c.to_tms_type k b) bs >>= λ ss. some (array k ss))
      else none

-- Two lists of the same length whose elements are related.
pub data AllTwo {ℓ} {A : Type ℓ} {C : Type ℓ} (R : A → C → Type ℓ) : List A → List C → Type ℓ where
  no_more : AllTwo R [] []
  one_more :
      {a : A} {b : C} {as' : List A} {bs : List C}
      → R a b
      → AllTwo R as' bs
      → AllTwo R (a ∷ as') (b ∷ bs)

pub AllTwo-map {ℓ} :
    {A C : Type ℓ} {R S : A → C → Type ℓ} {as' : List A} {bs : List C}
    → ((a : A) (b : C) → R a b → S a b)
    → AllTwo R as' bs
    → AllTwo S as' bs
AllTwo-map f no_more = no_more
AllTwo-map f (one_more {a = a} {b = b} r rest) = one_more (f a b r) (AllTwo-map f rest)

-- What holds of everything holds of every element.
pub All-Unit {ℓ κ} : {A : Type ℓ} (as' : List A) → All {ℓ, κ} (λ a. Unit) as'
All-Unit [] = tt
All-Unit (a ∷ as') = (tt, All-Unit as')

pub some-eq {ℓ} : {A : Type ℓ} {a b : A} → some a ≡ some b → a ≡ b
some-eq h = cc

pub >>=-eq-some {ℓ κ} :
    {A : Type ℓ} {C : Type κ} (o : Option A) (then_do : A → Option C) {x : C}
    → (o >>= then_do) ≡ some x
    → (a : A) × (o ≡ some a) × (then_do a ≡ some x)
>>=-eq-some none then_do h = absurd (cc)
>>=-eq-some (some a) then_do h = (a, refl, h)

module _ {ℓ} {K : Type 0} {S : K → Type ℓ} {B : Type ℓ} (c : StructConverter S B) where
  -- The structure that an object goes to.
  abbrev pub structure_of : Option K → B → K
  structure_of none b = c.kind_of b
  structure_of (some k) b = k

  -- Whatever is written as a structure of a kind, of the objects in question, is read as a related
  -- object.
  abbrev pub IsReadAs : (B → Type ℓ) → (B → B → Type ℓ) → K → Type ℓ
  IsReadAs P R k =
      (b : B) (s : S k)
      → P b
      → c.to_tms_type k b ≡ some s
      → (b' : B) × (c.to_daq_object k s ≡ some b') × R b b'

  read_structures :
      (P : B → Type ℓ) (R : B → B → Type ℓ) (k : K)
      → IsReadAs P R k
      → (bs : List B) {ss : List (S k)} → All P bs
      → traverse (λ b. c.to_tms_type k b) bs ≡ some ss
      → (bs' : List B) × (traverse (read_structure c k) ss ≡ some (map some bs')) × AllTwo R bs bs'
  read_structures P R k law [] {ss} a h =
      ([], subst (λ t. traverse (read_structure c k) t ≡ some []) (some-eq h) refl, no_more)
  read_structures P R k law (b ∷ bs) {ss} a h =
      let (s, written, h1) = >>=-eq-some (c.to_tms_type k b) _ h in
      let (ss', written', h2) = >>=-eq-some (traverse (λ b. c.to_tms_type k b) bs) _ h1 in
      let (b', read, related) = law b s a.0 written in
      let (bs', read', related') = read_structures P R k law bs a.1 written' in
      (
        b' ∷ bs',
        subst (λ t. traverse (read_structure c k) t ≡ some (map some (b' ∷ bs'))) (some-eq h2)
            (rw read (rw read' refl)),
        one_more related related',
      )

  read_objects :
      (P : B → Type ℓ) (R : K → B → B → Type ℓ)
      → ((k : K) → IsReadAs P (R k) k)
      → (bs : List B) {os : List (Option ((k : K) × S k))} → All P bs
      → traverse (λ b. to_variant c none b >>= λ v. some (decode v)) bs ≡ some os
      → (bs' : List B) × (traverse (read_object c) os ≡ some (map some bs'))
        × AllTwo (λ b b'. R (c.kind_of b) b b') bs bs'
  read_objects P R law [] {os} a h =
      ([], subst (λ t. traverse (read_object c) t ≡ some []) (some-eq h) refl, no_more)
  read_objects P R law (b ∷ bs) {os} a h =
      let (o, first, h1) = >>=-eq-some (to_variant c none b >>= λ v. some (decode v)) _ h in
      let (os', written', h2) =
        >>=-eq-some (traverse (λ b. to_variant c none b >>= λ v. some (decode v)) bs) _ h1 in
      let (v, scalar_made, h3) = >>=-eq-some (to_variant c none b) _ first in
      let (s, written, h4) = >>=-eq-some (c.to_tms_type (c.kind_of b) b) _ scalar_made in
      let (b', read, related) = law (c.kind_of b) b s a.0 written in
      let (bs', read', related') = read_objects P R law bs a.1 written' in
      let content : some (c.kind_of b, s) ≡ o =
        subst (λ x. decode x ≡ o) (sym (some-eq h4)) (some-eq h3) in
      (
        b' ∷ bs',
        subst (λ t. traverse (read_object c) t ≡ some (map some (b' ∷ bs'))) (some-eq h2)
            (subst
              (λ t.
                (read_object c t >>= λ x. traverse (read_object c) os' >>= λ xs. some (x ∷ xs))
                ≡ some (map some (b' ∷ bs')))
              content (rw read (rw read' refl))),
        one_more related related',
      )

  -- What is written as one value is read as a related object.
  pub to_daq_object-to_variant :
      (P : B → Type ℓ) (R : K → B → B → Type ℓ)
      → ((k : K) → IsReadAs P (R k) k)
      → (target : Option K) (b : B) {v : Variant S} → P b
      → to_variant c target b ≡ some v
      → (b' : B) × (to_daq_object c v ≡ some b') × R (structure_of target b) b b'
  to_daq_object-to_variant P R law none b {v} p h =
      let (s, written, h1) = >>=-eq-some (c.to_tms_type (c.kind_of b) b) _ h in
      let (b', read, related) = law (c.kind_of b) b s p written in
      (b', subst (λ x. to_daq_object c x ≡ some b') (some-eq h1) read, related)
  to_daq_object-to_variant P R law (some k) b {v} p h =
      let (s, written, h1) = >>=-eq-some (c.to_tms_type k b) _ h in
      let (b', read, related) = law k b s p written in
      (b', subst (λ x. to_daq_object c x ≡ some b') (some-eq h1) read, related)

  -- A list that is written is read as a list of related objects, none of them missing, of the same
  -- length.
  pub to_daq_list-to_array_variant :
      (P : B → Type ℓ) (R : K → B → B → Type ℓ)
      → ((k : K) → IsReadAs P (R k) k)
      → (target : Option K) (bs : List B) {v : Variant S} → All P bs
      → to_array_variant c target bs ≡ some v
      → (bs' : List B) × (to_daq_list c v ≡ some (map some bs'))
        × AllTwo (λ b b'. R (structure_of target b) b b') bs bs'
  to_daq_list-to_array_variant P R law none bs {v} a h =
      let (os, written, h1) =
        >>=-eq-some (traverse (λ b. to_variant c none b >>= λ v. some (decode v)) bs) _ h in
      let (bs', read, related) = read_objects P R law bs a written in
      (bs', subst (λ x. to_daq_list c x ≡ some (map some bs')) (some-eq h1) read, related)
  to_daq_list-to_array_variant P R law (some k) bs {v} a h = elim (Bool-cases (c.supports k)) [
    | inr refused ↦ absurd (cc)
    | inl taken ↦
        let (ss, written, h1) =
          >>=-eq-some (traverse (λ b. c.to_tms_type k b) bs) _ (rw taken at h) in
        let (bs', read, related) = read_structures P (R k) k (law k) bs a written in
        (
          bs',
          subst (λ x. to_daq_list c x ≡ some (map some bs')) (some-eq h1) (rw taken read),
          related,
        )
  ]
