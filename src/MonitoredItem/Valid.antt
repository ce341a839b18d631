-- ===== src/MonitoredItem/Valid.antt =====
-- What makes the answer to a read a valid one.
use opc_ua_modules.Base.{
  ℕ, ◌≡◌, ◌≢◌, refl, ◌⊎◌, inl, inr, arith, Bool, true, false, Option, none, some, String,
}
use opc_ua_modules.Base.Int.{ℤ, pos, negsuc}
use opc_ua_modules.MonitoredItem.Values.{
  Kind, float, double, sbyte, byte, int16, uint16, int32, uint32, int64, uint64, string_kind,
  localized_text, qualified_name, date_time, other_kind, DataValue, sample_type_of_kind,
}
use opc_ua_modules.MonitoredItem.State.{
  DomainSource, no_timestamp, server_time, source_time, local_time,
}
use opc_ua_modules.MonitoredItem.{response_error, is_supported, is_stamped, is_status_good}

-- The timestamp is there and not 0.
abbrev pub IsStamped : Option ℤ → Type 0
IsStamped t = (n : ℤ) × (t ≡ some n) × (n ≢ pos 0)

-- The timestamp that the domain's source asks for is there.
abbrev pub IsStampedFor : DomainSource → DataValue → Type 0
IsStampedFor no_timestamp v = Unit
IsStampedFor server_time v = IsStamped v.server_timestamp
IsStampedFor source_time v = IsStamped v.source_timestamp
IsStampedFor local_time v = Unit

abbrev pub is_other : Kind → Bool
is_other (other_kind n) = true
is_other k = false

-- The response has a good status or none, a value that is not empty, of a kind that has a sample
-- type, and the timestamp that the source of the domain asks for.
abbrev pub IsValid : DomainSource → DataValue → Type 0
IsValid source v =
    ((v.status ≡ none) ⊎ (v.status ≡ some 0))
    × (v.has_value ≡ true)
    × (v.is_empty ≡ false)
    × IsStampedFor source v
    × (is_other v.kind ≡ false)

is_stamped-IsStamped : (t : Option ℤ) → is_stamped t ≡ true → IsStamped t
is_stamped-IsStamped none h = absurd (cc)
is_stamped-IsStamped (some (pos n)) h =
    (pos n, refl, λ e. let z : n ≡ 0 = cc in absurd (ground (arith, z)))
is_stamped-IsStamped (some (negsuc n)) h = (negsuc n, refl, λ e. absurd (cc))

is_status_good-lem : (s : Option ℕ) → is_status_good s ≡ true → (s ≡ none) ⊎ (s ≡ some 0)
is_status_good-lem none h = inl refl
is_status_good-lem (some n) h = inr (ground arith)

response_error-IsStampedFor :
    (f : ℕ → String) (source : DomainSource) (v : DataValue)
    → response_error f source v ≡ none
    → IsStampedFor source v
unfolding response_error
response_error-IsStampedFor f no_timestamp v h = tt
response_error-IsStampedFor f server_time v h =
    is_stamped-IsStamped v.server_timestamp (ground arith)
response_error-IsStampedFor f source_time v h =
    is_stamped-IsStamped v.source_timestamp (ground arith)
response_error-IsStampedFor f local_time v h = tt

is_supported-is_other : (k : Kind) → is_supported k ≡ true → is_other k ≡ false
unfolding sample_type_of_kind
is_supported-is_other (other_kind n) h = absurd (cc)
is_supported-is_other float h = refl
is_supported-is_other double h = refl
is_supported-is_other sbyte h = refl
is_supported-is_other byte h = refl
is_supported-is_other int16 h = refl
is_supported-is_other uint16 h = refl
is_supported-is_other int32 h = refl
is_supported-is_other uint32 h = refl
is_supported-is_other int64 h = refl
is_supported-is_other uint64 h = refl
is_supported-is_other string_kind h = refl
is_supported-is_other localized_text h = refl
is_supported-is_other qualified_name h = refl
is_supported-is_other date_time h = refl

pub response_error-IsValid :
    (f : ℕ → String) (source : DomainSource) (v : DataValue)
    → response_error f source v ≡ none
    → is_supported v.kind ≡ true
    → IsValid source v
unfolding response_error
response_error-IsValid f source v h g = (
  is_status_good-lem v.status (ground arith),
  ground arith,
  ground arith,
  response_error-IsStampedFor f source v h,
  is_supported-is_other v.kind g,
)
