-- ===== src/MonitoredItem/Interval.antt =====
-- The sampling interval that a configuration gives.
use opc_ua_modules.Base.{◌<◌, ◌^◌, ◌-◌, ◌≡◌, refl, ◌⊎◌, inl, inr, arith, ◌||◌, ltb, leb, Bool-cases}
use opc_ua_modules.Base.Int.{ℤ, pos, negsuc}
use opc_ua_modules.MonitoredItem.State.{Item, update_statuses}
use opc_ua_modules.MonitoredItem.Configuration.{
  Properties, sampling_interval_of, default_sampling_interval, read_interval, read_properties,
}

sampling_interval_of-bounds :
    (z : ℤ)
    → let ms = (sampling_interval_of z).0 in
      (0 < ms) × (ms < 2 ^ 32) × ((z ≡ pos ms) ⊎ (ms ≡ default_sampling_interval))
unfolding sampling_interval_of
sampling_interval_of-bounds (negsuc n) = (omega arith, omega arith, inr refl)
sampling_interval_of-bounds (pos n) = elim (Bool-cases (leb n 0 || ltb (2 ^ 32 - 1) n)) [
  | inl h ↦ rw h (omega arith, omega arith, inr refl)
  | inr h ↦ rw h (ground arith, ground arith, inl refl)
]

module _ {ℓ} {N : Type ℓ} where
  update_statuses-interval :
      (i : Item N) → (update_statuses i).sampling_interval_ms ≡ i.sampling_interval_ms
  unfolding update_statuses
  update_statuses-interval i = ground arith

  -- After `readProperties` the sampling interval is positive and fits in 32 bits, whatever the
  -- properties are, and it is the property's value or the default.
  pub read_properties-interval :
      (p : Properties N) (i : Item N)
      → let ms = (read_properties p i).sampling_interval_ms in
        (0 < ms)
        × (ms < 2 ^ 32)
        × ((p.sampling_interval ≡ pos ms) ⊎ (ms ≡ default_sampling_interval))
  unfolding read_properties read_interval
  read_properties-interval p i =
      rw (update_statuses-interval _) (sampling_interval_of-bounds p.sampling_interval)
