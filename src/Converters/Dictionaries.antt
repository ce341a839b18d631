-- ===== src/Converters/Dictionaries.antt =====
-- Dictionaries whose names differ, built entry by entry.
use opc_ua_modules.Base.{
  ◌≡◌, refl, sym, ap, ◌∙◌, false, List, [], ◌∷◌, ◌++◌, HasEq, ◌==◌, arith, Bool-cases, inl, inr,
}
use opc_ua_modules.Base.Dict.{put, contains, contains-put}

module _ {κ ℓ} {K : Type κ} {O : Type ℓ} ⦃e : HasEq K⦄ where
  -- The names of a dictionary differ.
  abbrev pub AreDistinct : List (K × O) → Type 0
  AreDistinct [] = Unit
  AreDistinct ((name, o) ∷ params) = (contains name params ≡ false) × AreDistinct params

  -- None of the names is among those of the other list.
  abbrev pub AllNew : List (K × O) → List (K × O) → Type 0
  AllNew acc [] = Unit
  AllNew acc ((name, o) ∷ params) = (contains name acc ≡ false) × AllNew acc params

  pub AllNew-nil : (params : List (K × O)) → AllNew [] params
  unfolding contains
  AllNew-nil [] = tt
  AllNew-nil ((name, o) ∷ params) = (refl, AllNew-nil params)

  pub put-absent :
      (name : K) (o : O) (acc : List (K × O))
      → contains name acc ≡ false
      → put name o acc ≡ acc ++ (name, o) ∷ []
  unfolding put contains
  put-absent name o [] h = refl
  put-absent name o ((n, x) ∷ acc) h = elim (Bool-cases (n == name)) [
    | inl hit ↦ absurd (ground arith)
    | inr miss ↦ rw miss (ap (λ t. (n, x) ∷ t) (put-absent name o acc (rw miss at h)))
  ]

  pub AllNew-put :
      (name : K) (o : O) (acc params : List (K × O))
      → contains name params ≡ false
      → AllNew acc params
      → AllNew (put name o acc) params
  unfolding contains
  AllNew-put name o acc [] h a = tt
  AllNew-put name o acc ((n, x) ∷ params) h a = (
    contains-put name n o acc ∙ ground (arith, e.same_iff n name, e.same_iff name n, a.0),
    AllNew-put name o acc params (ground arith) a.1,
  )

  pub append_one :
      (name : K) (o : O) (acc rest : List (K × O))
      → (acc ++ (name, o) ∷ []) ++ rest ≡ acc ++ (name, o) ∷ rest
  append_one name o [] rest = refl
  append_one name o (x ∷ acc) rest = ap (λ t. x ∷ t) (append_one name o acc rest)

  pub append_nil : (xs : List (K × O)) → xs ++ [] ≡ xs
  append_nil [] = refl
  append_nil (x ∷ xs) = ap (λ l. x ∷ l) (append_nil xs)

  -- The entries are set one after the other.
  unfoldable pub put_all : List (K × O) → List (K × O) → List (K × O)
  put_all [] acc = acc
  put_all ((name, o) ∷ params) acc = put_all params (put name o acc)

  put_all-append :
      (params acc : List (K × O))
      → AreDistinct params
      → AllNew acc params
      → put_all params acc ≡ acc ++ params
  unfolding put_all
  put_all-append [] acc distinct new = sym (append_nil acc)
  put_all-append ((name, o) ∷ params) acc distinct new =
      put_all-append params (put name o acc) distinct.1
        (AllNew-put name o acc params distinct.0 new.1)
      ∙ ap (λ t. t ++ params) (put-absent name o acc new.0)
      ∙ append_one name o acc params

  pub put_all-nil : (params : List (K × O)) → AreDistinct params → put_all params [] ≡ params
  put_all-nil params distinct = put_all-append params [] distinct (AllNew-nil params)
