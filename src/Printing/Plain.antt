-- ===== src/Printing/Plain.antt =====
-- No printed text has a zero byte.
use libupsf.Prelude.{
  All, ℕ, zero, suc, ◌+◌, ◌/◌, ◌%◌, ◌≡◌, refl, Bool, true, false, ◌&&◌, List, [], ◌∷◌, ◌++◌, Option,
  none, some, ℤ, pos, negsuc, arith, ltb, ◌==◌, if◌then◌else◌, ◌>>=◌,
}
use libupsf.Text.{Bytes, until_nul}
use libupsf.Slots.{digits, show_int}
use libupsf.Messages.{Timestamp, MetaData, Maintenance, Endpoint, TransportEndpoint}
use libupsf.Names.{
  derived_state_names, maintenance_req_names, entry, name_of, upsf_derived_state_to_name,
  upsf_maintenance_req_to_name,
}
use Prim.Native.String.{String}
use libupsf.Printing.Common.{
  codes, texts, print_indexed, print_entries, print_metadata, print_maintenance,
}
use libupsf.Printing.Connection.{print_transport, print_endpoint, print_endpoints}

unfoldable pub is_plain : Bytes → Bool
is_plain [] = true
is_plain (c ∷ t) = if c == 0 then false else is_plain t

pub is_plain-append : (s t : Bytes) → is_plain (s ++ t) ≡ (is_plain s && is_plain t)
unfolding is_plain
is_plain-append [] t = refl
is_plain-append (c ∷ s) t = ground (arith, is_plain-append s t)

pub until_nul-plain : (t : Bytes) → is_plain t ≡ true → until_nul t ≡ t
unfolding is_plain until_nul
until_nul-plain [] h = refl
until_nul-plain (c ∷ t) h = ground (arith, until_nul-plain t)

pub is_plain-until_nul : (t : Bytes) → is_plain (until_nul t) ≡ true
unfolding is_plain until_nul
is_plain-until_nul [] = refl
is_plain-until_nul (c ∷ t) = ground (arith, is_plain-until_nul t)

is_plain_digit : (n : ℕ) → is_plain ((b'0' + n) ∷ []) ≡ true
unfolding is_plain
is_plain_digit n = ground arith

is_plain-digits : (fuel n : ℕ) → is_plain (digits fuel n) ≡ true
unfolding digits is_plain
is_plain-digits zero n = refl
is_plain-digits (suc fuel) n = ground (
  arith,
  is_plain-append (digits fuel (n / 10)) ((b'0' + n % 10) ∷ []),
  is_plain-digits fuel (n / 10),
)

pub is_plain-show_int : (n : ℤ) → is_plain (show_int n) ≡ true
unfolding show_int is_plain
is_plain-show_int (pos n) = is_plain-digits 10 n
is_plain-show_int (negsuc n) = is_plain-digits 10 (suc n)

pub ruleset plain_rules = (is_plain-append, is_plain-until_nul, is_plain-show_int)

-- A result has a property if it is defined.
abbrev pub Each : {A : Type 0} → (A → Type 0) → Option A → Type 0
Each P none = Unit
Each P (some a) = P a

-- A defined text has no zero byte.
abbrev pub IsPlain : Option Bytes → Type 0
IsPlain = Each (λ t. is_plain t ≡ true)

pub Each-bind :
    {A B : Type 0} (P : A → Type 0) (Q : B → Type 0) (o : Option A) (f : A → Option B)
    → Each P o
    → ((a : A) → P a → Each Q (f a))
    → Each Q (o >>= f)
Each-bind P Q none f h k = tt
Each-bind P Q (some a) f h k = k a h

is_plain-print_indexed :
    {A : Type 0} (print : A → Bytes) (i : ℕ) (xs : List A)
    → ((x : A) → is_plain (print x) ≡ true)
    → is_plain (print_indexed print i xs) ≡ true
unfolding print_indexed texts is_plain
is_plain-print_indexed print i [] h = refl
is_plain-print_indexed print i (x ∷ xs) h =
    simp (is_plain-append, is_plain-show_int, h x, is_plain-print_indexed print (suc i) xs h)

pub is_plain-print_entries :
    {V : Type 0} (print : V → Bytes) (m : List (Bytes × V))
    → ((v : V) → is_plain (print v) ≡ true)
    → is_plain (print_entries print m) ≡ true
unfolding print_entries texts is_plain
is_plain-print_entries print [] h = refl
is_plain-print_entries print ((k, v) ∷ m) h =
    simp (is_plain-append, is_plain-until_nul, h v, is_plain-print_entries print m h)

transport_plain : (t : TransportEndpoint) → is_plain (print_transport t) ≡ true
unfolding print_transport texts is_plain
transport_plain TransportEndpoint.unset = refl
transport_plain (TransportEndpoint.vtep v) = simp plain_rules
transport_plain (TransportEndpoint.l2vpn v) = simp plain_rules
transport_plain (TransportEndpoint.port_vlan v) = simp plain_rules

pub endpoint_plain : (m : Endpoint) → is_plain (print_endpoint m) ≡ true
unfolding print_endpoint texts is_plain
endpoint_plain m = simp (plain_rules, transport_plain m.transport_endpoint)

pub endpoints_plain : (es : List Endpoint) → is_plain (print_endpoints es) ≡ true
unfolding print_endpoints
endpoints_plain es = is_plain-print_indexed print_endpoint 0 es endpoint_plain

pub texts_plain : (xs : List Bytes) → is_plain (print_indexed until_nul 0 xs) ≡ true
texts_plain xs = is_plain-print_indexed until_nul 0 xs is_plain-until_nul

entry_plain :
    (names : List String) (i : ℕ)
    → All (λ s. is_plain (codes s) ≡ true) names
    → Each (λ s. is_plain (codes s) ≡ true) (entry names i)
unfolding entry
entry_plain [] i h = tt
entry_plain (s ∷ names) zero h = h.0
entry_plain (s ∷ names) (suc i) h = entry_plain names i h.1

pub name_plain :
    (names : List String) (max : ℕ) (n : ℤ)
    → All (λ s. is_plain (codes s) ≡ true) names
    → Each (λ s. is_plain (codes s) ≡ true) (name_of names max n)
unfolding name_of
name_plain names max (pos n) h = entry_plain names (if ltb n max then n else max) h
name_plain names max (negsuc n) h = tt

pub maintenance-IsPlain : (m : Maintenance) → IsPlain (print_maintenance m)
unfolding print_maintenance texts is_plain upsf_maintenance_req_to_name
maintenance-IsPlain m =
    Each-bind (λ s. is_plain (codes s) ≡ true) (λ t. is_plain t ≡ true) _ _
      (name_plain maintenance_req_names 3 m.maintenance_req (refl, (refl, (refl, (refl, tt)))))
      λ s h. simp (is_plain-append, h)

module _ (time : Timestamp → Bytes) (time_plain : (t : Timestamp) → is_plain (time t) ≡ true) where
  pub metadata-IsPlain : (m : MetaData) → IsPlain (print_metadata time m)
  unfolding print_metadata texts is_plain upsf_derived_state_to_name
  metadata-IsPlain m =
      Each-bind (λ s. is_plain (codes s) ≡ true) (λ t. is_plain t ≡ true) _ _
        (name_plain derived_state_names 6 m.derived_state
          (refl, (refl, (refl, (refl, (refl, (refl, (refl, tt))))))))
        λ s h. simp (plain_rules, h, time_plain)
