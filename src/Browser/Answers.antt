-- ===== src/Browser/Answers.antt =====
-- One level of `browseMultiple` against a server that answers each node in the same way.
use opc_ua_modules.Base.{
  ◌≡◌, ◌≢◌, refl, Bool, false, some, List, [], ◌∷◌, ◌++◌, HasEq, ◌∙◌, ap, map, concat,
}
use opc_ua_modules.Base.Dict.{put}
use opc_ua_modules.Browser.{
  Cache, BrowseResult, Service, StatusCode, good, bad_user_access_denied, bad_node_id_unknown,
  bad_other, Outcome, done, ◌>>=◌, no_references, mark_all, collect, discovered, process_result,
  process_browse_results, first_continues, continue_browse, browse_batch, browse_batches,
}
use opc_ua_modules.Browser.Levels.{
  Grows, Grows-trans, put-Grows, mark_all-Grows, IsCachedAll, IsCachedAll-Grows,
  mark_all-IsCachedAll, AreNew, AreNew-append, LeadsInto, discovered-AreNew,
}

module _ {ℓ} {N : Type ℓ} ⦃e : HasEq N⦄ where
  -- The service answers, for each node in a fixed way, with no status that throws and no
  -- continuation point; the forward references lead into a known set of nodes.
  pub record IsStatic (service : Service N) (known : N → Bool) (answer : N → BrowseResult N)
      : Type ℓ where
    pub answers : (ids : List N) → service.browse ids ≡ some (map answer ids)
    pub accessible : (id : N) → (answer id).status_code ≢ bad_other
    pub whole : (id : N) → (answer id).has_continuation_point ≡ false
    pub leads : (id : N) → LeadsInto known (answer id).references

  -- A run returns, the cache has grown, and what is to be browsed next is new.
  abbrev pub Returns : (N → Bool) → Cache N → Cache N → Outcome N → Type ℓ
  Returns known start c o =
      (d : Cache N) × (next : List N) × (o ≡ done d next) × Grows c d × AreNew known start next

  process_result_status :
      (known : N → Bool) (start c : Cache N) (id : N) (r : BrowseResult N) (next : List N)
      (s : StatusCode)
      → r.status_code ≡ s
      → s ≢ bad_other
      → LeadsInto known r.references
      → Grows start c
      → AreNew known start next
      → Returns known start c (process_result id r c next)
  process_result_status known start c id r next good h n l g a = (
    put id (collect r.references no_references) c,
    next ++ discovered (put id no_references c) r.references,
    unfold process_result in rw (h, process_result) refl,
    put-Grows id (collect r.references no_references) c,
    AreNew-append known start next (discovered (put id no_references c) r.references) a (
        discovered-AreNew known start (put id no_references c) r.references
          (Grows-trans start c (put id no_references c) g (put-Grows id no_references c)) l),
  )
  process_result_status known start c id r next bad_user_access_denied h n l g a =
      (c, next, unfold process_result in rw (h, process_result) refl, λ u k. k, a)
  process_result_status known start c id r next bad_node_id_unknown h n l g a =
      (c, next, unfold process_result in rw (h, process_result) refl, λ u k. k, a)
  process_result_status known start c id r next bad_other h n l g a = absurd (n refl)

  process-cons :
      (id : N) (r : BrowseResult N) (ids : List N) (rs : List (BrowseResult N)) (c : Cache N)
      (next : List N)
      → process_browse_results (id ∷ ids) (r ∷ rs) c next
        ≡ (process_result id r c next >>= process_browse_results ids rs)
  unfolding process_browse_results
  process-cons id r ids rs c next = refl

  browse_batches-cons :
      (service : Service N) (ids : List N) (bs : List (List N)) (c : Cache N) (next : List N)
      → browse_batches service (ids ∷ bs) c next
        ≡ (browse_batch service ids c next >>= browse_batches service bs)
  unfolding browse_batches
  browse_batches-cons service ids bs c next = refl

  module _ (service : Service N) (known : N → Bool) (answer : N → BrowseResult N)
      (static : IsStatic service known answer) where
    process-Returns :
        (start c : Cache N) (ids : List N) (next : List N)
        → Grows start c
        → AreNew known start next
        → Returns known start c (process_browse_results ids (map answer ids) c next)
    process-Returns start c [] next g a =
        (c, next, unfold process_browse_results in refl, λ u k. k, a)
    process-Returns start c (id ∷ ids) next g a =
        let (d, next', h, g', a') =
          process_result_status known start c id (answer id) next _ refl (static.accessible id)
            (static.leads id) g a in
        let (f, next'', h', g'', a'') =
          process-Returns start d ids next' (Grows-trans start c d g g') a' in
        (
          f,
          next'',
          process-cons id (answer id) ids (map answer ids) c next
              ∙ ap (λ o. o >>= process_browse_results ids (map answer ids)) h
              ∙ h',
          Grows-trans c d f g' g'',
          a'',
        )

    first_continues-map : (ids : List N) → first_continues (map answer ids) ≡ false
    unfolding first_continues
    first_continues-map [] = refl
    first_continues-map (id ∷ ids) = static.whole id

    continue_browse-map :
        (ids : List N) (c : Cache N) (next : List N)
        → continue_browse service ids (map answer ids) c next ≡ done c next
    unfolding continue_browse
    continue_browse-map ids c next = rw (first_continues-map ids, continue_browse) refl

    browse_batch-Returns :
        (start c : Cache N) (ids : List N) (next : List N)
        → Grows start c
        → AreNew known start next
        → (d : Cache N) × (next' : List N) × (browse_batch service ids c next ≡ done d next')
          × Grows c d
          × AreNew known start next'
          × IsCachedAll d ids
    browse_batch-Returns start c ids next g a =
        let m = mark_all ids c in
        let gm : Grows c m = mark_all-Grows ids c in
        let (d, next', h, g', a') =
          process-Returns start m ids next (Grows-trans start c m g gm) a in
        (
          d,
          next',
          unfold browse_batch in
              rw (static.answers ids, browse_batch)
                (ap (λ o. o >>= continue_browse service ids (map answer ids)) h
                  ∙ continue_browse-map ids d next'),
          Grows-trans c m d gm g',
          a',
          IsCachedAll-Grows m d ids g' (mark_all-IsCachedAll ids c),
        )

    IsCachedAll-append :
        (c : Cache N) (xs ys : List N)
        → IsCachedAll c xs
        → IsCachedAll c ys
        → IsCachedAll c (xs ++ ys)
    IsCachedAll-append c [] ys a b = b
    IsCachedAll-append c (x ∷ xs) ys a b = (a.0, IsCachedAll-append c xs ys a.1 b)

    -- After the level every requested node is in the cache, and the next level holds only nodes that
    -- were not in it when the level began.
    pub browse_batches-Returns :
        (start c : Cache N) (bs : List (List N)) (next : List N)
        → Grows start c
        → AreNew known start next
        → (d : Cache N) × (next' : List N) × (browse_batches service bs c next ≡ done d next')
          × Grows c d
          × AreNew known start next'
          × IsCachedAll d (concat bs)
    browse_batches-Returns start c [] next g a =
        (c, next, unfold browse_batches in refl, λ u k. k, a, tt)
    browse_batches-Returns start c (ids ∷ bs) next g a =
        let (d, next', h, g', a', k) = browse_batch-Returns start c ids next g a in
        let (f, next'', h', g'', a'', k') =
          browse_batches-Returns start d bs next' (Grows-trans start c d g g') a' in
        (
          f,
          next'',
          browse_batches-cons service ids bs c next
              ∙ ap (λ o. o >>= browse_batches service bs) h
              ∙ h',
          Grows-trans c d f g' g'',
          a'',
          IsCachedAll-append f ids (concat bs) (IsCachedAll-Grows d f ids g'' k) k',
        )
