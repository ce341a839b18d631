-- ===== src/Client/Requests/Methods.antt =====
-- Calls of methods in one request: each process function has its own result.
use opc_ua_modules.Base.{
  ◌≡◌, refl, ap, List, [], ◌∷◌, map, length, leb, nat_beq, arith, if◌then◌else◌, Bool-cases, inl,
  inr,
}
use opc_ua_modules.Client.Requests.{
  Answer, answered, refused, beyond_end, ReadResponse, process_results, call_methods,
}

-- Functions and results by their positions, as far as both go.
unfoldable pub zip : {H V : Type 0} → List H → List V → List (H × V)
zip [] vs = []
zip (h ∷ hs) [] = []
zip (h ∷ hs) (v ∷ vs) = (h, v) ∷ zip hs vs

abbrev pub functions : {Q H : Type 0} → List (Q × H) → List H
functions {Q} {H} = map (λ (p : Q × H). p.1)

abbrev pub requests : {Q H : Type 0} → List (Q × H) → List Q
requests {Q} {H} = map (λ (p : Q × H). p.0)

module _ {Q H V : Type 0} where
  process_results-zip :
      (ps : List (Q × H)) (vs : List V)
      → ((process_results ps vs).0 ≡ zip (functions ps) vs)
        × ((process_results ps vs).1 ≡ leb (length ps) (length vs))
  unfolding process_results zip
  process_results-zip [] vs = (refl, ground arith)
  process_results-zip (p ∷ ps) [] = (refl, ground arith)
  process_results-zip (p ∷ ps) (v ∷ vs) =
      let (calls, enough) = process_results-zip ps vs in
      (ap (λ l. (p.1, v) ∷ l) calls, ground arith)

  -- How calls of methods end that the server answers with `response`.
  unfoldable pub ending : List (Q × H) → ReadResponse V → List (H × V) × Answer (Unit {0})
  unfolding zip
  ending ps response =
      if nat_beq response.service_result 0
      then (
        zip (functions ps) response.results,
        if leb (length ps) (length response.results) then answered tt else beyond_end,
      )
      else ([], refused response.service_result)

  -- Methods that are called in one request, of which there is one at least: where the service
  -- succeeds, the process function of each request is called with the result at its own position, in
  -- order; with fewer results than requests the results are read beyond their end, after the process
  -- functions before. Where the service fails, its status is thrown and no function is called.
  pub call_methods_lem :
      (call : List Q → ReadResponse V) (p : Q × H) (ps : List (Q × H))
      → call_methods call (p ∷ ps) ≡ ending (p ∷ ps) (call (requests (p ∷ ps)))
  unfolding call_methods ending
  call_methods_lem call p ps =
      let r = call (requests (p ∷ ps)) in
      let (calls, enough) = process_results-zip (p ∷ ps) r.results in
      elim (Bool-cases (nat_beq r.service_result 0)) [
        | inl good ↦ rw good (rw (calls, enough) refl)
        | inr bad ↦ rw bad refl
      ]
