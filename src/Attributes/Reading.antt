-- ===== src/Attributes/Reading.antt =====
-- What a reader has read.
use opc_ua_modules.Base.{
  ◌≡◌, refl, sym, ap, ◌∙◌, Bool, true, false, ◌&&◌, some, List, [], ◌∷◌, ◌++◌, HasEq, ◌==◌, nat_eq,
  nat_beq, if◌then◌else◌, length, map, concat, arith, Bool-cases, inl, inr, ==_sound,
}
use opc_ua_modules.Base.Dict.{put, contains, lookup-put, contains-put, lookup-eq_none}
use opc_ua_modules.Batches.{batches, batches_lem}
use opc_ua_modules.Attributes.{
  Attribute, ReadResult, ResultMap, ReadService, Reader, same_attribute, has_attribute, get_value,
  has_any_value, values_of, add_result, add_batch_to_result_map, read_batch, read_batches, read,
}

module _ {ℓ} {N : Type ℓ} ⦃e : HasEq N⦄ where
  same_attribute-true : (a b : Attribute N) → same_attribute a b ≡ true → a ≡ b
  unfolding same_attribute
  same_attribute-true a b h =
      let n : a.node_id ≡ b.node_id = ==_sound a.node_id b.node_id (ground arith) in
      let k : a.attribute_id ≡ b.attribute_id = ground arith in
      λ i. record { node_id = n i; attribute_id = k i }

  -- Whether one of the attributes is of the node.
  abbrev pub names_node : N → List (Attribute N) → Bool
  names_node n [] = false
  names_node n (a ∷ as') = if a.node_id == n then true else names_node n as'

module _ {ℓ} {N : Type ℓ} {V : Type 0} ⦃e : HasEq N⦄ where
  get_value-ensure :
      (a b : Attribute N) (m : ResultMap N V)
      → get_value a (if contains b.node_id m then m else put b.node_id [] m) ≡ get_value a m
  unfolding get_value
  get_value-ensure a b m = elim (Bool-cases (contains b.node_id m)) [
    | inl h ↦ rw h refl
    | inr h ↦ ground (
      arith,
      h,
      e.same_iff b.node_id a.node_id,
      lookup-put b.node_id a.node_id [] m,
      lookup-eq_none b.node_id m h,
    )
  ]

  get_value-put :
      (a b : Attribute N) (v : V) (m : ResultMap N V)
      → get_value a (put b.node_id (put b.attribute_id v (values_of b.node_id m)) m)
        ≡ (if same_attribute b a then some v else get_value a m)
  unfolding get_value same_attribute values_of
  get_value-put a b v m = ground (
    arith,
    e.same_iff b.node_id a.node_id,
    lookup-put b.node_id a.node_id (put b.attribute_id v (values_of b.node_id m)) m,
    lookup-put b.attribute_id a.attribute_id v (values_of b.node_id m),
  )

  get_value-add_result :
      (a b : Attribute N) (r : ReadResult V) (m : ResultMap N V)
      → get_value a (add_result b r m)
        ≡ (if r.is_good && same_attribute b a then some r.value else get_value a m)
  unfolding add_result
  get_value-add_result a b r m =
      let m' = if contains b.node_id m then m else put b.node_id [] m in
      elim (Bool-cases r.is_good) [
        | inl g ↦ rw g (get_value-put a b r.value m' ∙ rw (get_value-ensure a b m) refl)
        | inr g ↦ rw g (get_value-ensure a b m)
      ]

  contains-add_result :
      (n : N) (b : Attribute N) (r : ReadResult V) (m : ResultMap N V)
      → contains n (add_result b r m) ≡ (if b.node_id == n then true else contains n m)
  unfolding add_result
  contains-add_result n b r m =
      let m' = if contains b.node_id m then m else put b.node_id [] m in
      ground (
        arith,
        e.same_iff b.node_id n,
        contains-put b.node_id n [] m,
        contains-put b.node_id n (put b.attribute_id r.value (values_of b.node_id m')) m',
      )

  module _ (service : ReadService N V) (answer : Attribute N → ReadResult V) where
    -- The service answers each attribute in a fixed way.
    abbrev pub Answers : Type ℓ
    Answers = (as' : List (Attribute N)) → service as' ≡ some (map answer as')

    -- The results of reading the attributes one by one.
    pub add_all : List (Attribute N) → ResultMap N V → ResultMap N V
    add_all [] m = m
    add_all (a ∷ as') m = add_all as' (add_result a (answer a) m)

    add_batch-answers :
        (as' : List (Attribute N)) (m : ResultMap N V)
        → add_batch_to_result_map as' (map answer as') m ≡ add_all as' m
    unfolding add_batch_to_result_map add_all
    add_batch-answers [] m = refl
    add_batch-answers (a ∷ as') m = add_batch-answers as' (add_result a (answer a) m)

    add_all-append :
        (xs ys : List (Attribute N)) (m : ResultMap N V)
        → add_all (xs ++ ys) m ≡ add_all ys (add_all xs m)
    unfolding add_all
    add_all-append [] ys m = refl
    add_all-append (x ∷ xs) ys m = add_all-append xs ys (add_result x (answer x) m)

    length-answers :
        (as' : List (Attribute N)) → nat_beq (length (map answer as')) (length as') ≡ true
    length-answers [] = refl
    length-answers (a ∷ as') = ground (arith, length-answers as')

    read_batch-answers :
        (as' : List (Attribute N)) (m : ResultMap N V)
        → Answers
        → read_batch service as' m ≡ (add_all as' m, true)
    unfolding read_batch
    read_batch-answers as' m h =
        rw (h as', length-answers as', read_batch) (ap (λ t. (t, true)) (add_batch-answers as' m))

    read_batches-cons :
        (b : List (Attribute N)) (bs : List (List (Attribute N))) (m m' : ResultMap N V)
        → read_batch service b m ≡ (m', true)
        → read_batches service (b ∷ bs) m ≡ read_batches service bs m'
    unfolding read_batches
    read_batches-cons b bs m m' h = rw (ap (λ t. t.1) h, ap (λ t. t.0) h, read_batches) refl

    read_batches-answers :
        (bs : List (List (Attribute N))) (m : ResultMap N V)
        → Answers
        → read_batches service bs m ≡ (add_all (concat bs) m, true)
    unfolding read_batches
    read_batches-answers [] m h = unfold add_all in refl
    read_batches-answers (b ∷ bs) m h =
        read_batches-cons b bs m (add_all b m) (read_batch-answers b m h)
        ∙ read_batches-answers bs (add_all b m) h
        ∙ ap (λ t. (t, true)) (sym (add_all-append b (concat bs) m))

    get_value-add_all :
        (a : Attribute N) (as' : List (Attribute N)) (m : ResultMap N V)
        → get_value a (add_all as' m) ≡ (
            if has_attribute a as' && (answer a).is_good
            then some (answer a).value
            else get_value a m)
    unfolding add_all has_attribute
    get_value-add_all a [] m = refl
    get_value-add_all a (b ∷ bs) m =
        let ih = get_value-add_all a bs (add_result b (answer b) m) in
        let one = get_value-add_result a b (answer b) m in
        elim (Bool-cases (same_attribute b a)) [
          | inl same ↦
              let eq : answer b ≡ answer a = ap answer (same_attribute-true b a same) in
              ground (arith, ih, one, same, eq)
          | inr other ↦ ground (arith, ih, one, other)
        ]

    contains-add_all :
        (n : N) (as' : List (Attribute N)) (m : ResultMap N V)
        → contains n (add_all as' m) ≡ (if names_node n as' then true else contains n m)
    unfolding add_all
    contains-add_all n [] m = refl
    contains-add_all n (b ∷ bs) m = ground (
      arith,
      contains-add_all n bs (add_result b (answer b) m),
      contains-add_result n b (answer b) m,
    )

    -- Against a service that answers each attribute in a fixed way `read` returns, and then
    -- `getValue` of an attribute that was asked for with a good status is the answer's value, and of
    -- any other attribute what it was before. Neither the batch size nor the order has a part in it.
    pub get_value-read :
        (r : Reader N V) (a : Attribute N)
        → Answers
        → let t = read service r in
          (t.1 ≡ true)
          × (get_value a t.0.result_map ≡ (
              if has_attribute a r.attributes && (answer a).is_good
              then some (answer a).value
              else get_value a r.result_map))
    unfolding read
    get_value-read r a h =
        rw
          (
            read_batches-answers (batches r.max_batch_size r.attributes) r.result_map h,
            (batches_lem r.max_batch_size r.attributes).0,
          )
          (refl, get_value-add_all a r.attributes r.result_map)

    -- After such a `read` `hasAnyValue` holds of every node that an attribute was asked of, also
    -- where each of its attributes was answered with a bad status, so that no value is there.
    pub has_any_value-read :
        (r : Reader N V) (n : N)
        → Answers
        → has_any_value n (read service r).0.result_map
          ≡ (if names_node n r.attributes then true else has_any_value n r.result_map)
    unfolding read has_any_value
    has_any_value-read r n h =
        rw
          (
            read_batches-answers (batches r.max_batch_size r.attributes) r.result_map h,
            (batches_lem r.max_batch_size r.attributes).0,
          )
          (contains-add_all n r.attributes r.result_map)
