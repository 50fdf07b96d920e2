-- ===== src/Dhcp/Addr.antt =====
-- IPv4 addresses in internal/adapters/dhcpwindows/create.go: `parseIPv4`, and the functions on
-- addresses and masks at the file's end. A byte is a number below 256. Go's `netip` is no part of the
-- repository: its dotted form is written out as it is documented, four decimal numbers up to 255
-- without leading zeros, so that the operations on texts can be run.
use Prim.Native.Nat.{bit_and, bit_or}
use weave_adapters.Prelude.Text.{Text, is_blank}
use weave_adapters.Prelude.{
  ℕ, ◌+◌, ◌-◌, ◌*◌, ◌/◌, ◌%◌, ◌^◌, Bool, true, false, not, ◌&&◌, ◌||◌, Option, none, some, List, [],
  ◌∷◌, ◌++◌, ltb, leb, ◌==◌, if◌then◌else◌,
}

-- `netip.Addr`, of an IPv4 address
pub record Addr : Type 0 where
  pub b₀ : ℕ
  pub b₁ : ℕ
  pub b₂ : ℕ
  pub b₃ : ℕ

abbrev pub dot : ℕ
dot = 46

abbrev pub is_digit : ℕ → Bool
is_digit c = leb 48 c && leb c 57

-- the octet being read: its value, and whether it has a digit
pub record Octet : Type 0 where
  pub val : ℕ
  pub begun : Bool

abbrev pub no_digits : Octet
no_digits = record { val = 0; begun = false }

-- the four octets once the text ends, `fields` being those before the last
abbrev pub four : List ℕ → ℕ → Option Addr
four (a ∷ b ∷ c ∷ []) d = some (record { b₀ = a; b₁ = b; b₂ = c; b₃ = d })
four _ d = none

abbrev pub push_digit : ℕ → Octet → Option Octet
push_digit c o =
    if o.begun && o.val == 0
    then none
    else if ltb 255 (o.val * 10 + (c - 48))
    then none
    else some (record { val = o.val * 10 + (c - 48); begun = true })

abbrev pub is_full : List ℕ → Bool
is_full (a ∷ b ∷ c ∷ fs) = true
is_full _ = false

-- The parser's loop over the text. Go leaves `val` at 0 for an empty octet, and refuses one where
-- a dot stands first, last or behind another dot.
unfoldable pub fields : Text → List ℕ → Octet → Option Addr
fields [] fs o = four fs o.val
fields (c ∷ cs) fs o = elim (is_digit c) [
  | true ↦ elim (push_digit c o) [ none ↦ none | some p ↦ fields cs fs p ]
  | false ↦
      if not (c == dot)
      then none
      else if not o.begun || is_blank cs
      then none
      else if is_full fs
      then none
      else fields cs (fs ++ o.val ∷ []) no_digits
]

-- A text with a colon or a percent sign is an IPv6 address or none at all, and neither has a dot
-- and digits only, so `Is4` adds nothing.
unfoldable pub parse_ip_v4 : Text → Option Addr
parse_ip_v4 s = fields s [] no_digits

-- `Addr.String`
abbrev pub digit : ℕ → ℕ
digit n = 48 + n

abbrev pub append_decimal : ℕ → Text → Text
append_decimal n t =
    if ltb n 10
    then digit n ∷ t
    else if ltb n 100
    then digit (n / 10) ∷ digit (n % 10) ∷ t
    else digit (n / 100) ∷ digit (n / 10 % 10) ∷ digit (n % 10) ∷ t

unfoldable pub addr_string : Addr → Text
addr_string a =
    append_decimal a.b₀
      (dot ∷ append_decimal a.b₁ (dot ∷ append_decimal a.b₂ (dot ∷ append_decimal a.b₃ [])))

unfoldable pub network_addr : Addr → Addr → Addr
network_addr a m = record {
  b₀ = bit_and a.b₀ m.b₀;
  b₁ = bit_and a.b₁ m.b₁;
  b₂ = bit_and a.b₂ m.b₂;
  b₃ = bit_and a.b₃ m.b₃;
}

unfoldable pub network_of : Addr → Addr → Text
network_of a m = addr_string (network_addr a m)

-- `^m[i]` on a byte
abbrev pub complement : ℕ → ℕ
complement b = 255 - b

unfoldable pub broadcast_addr : Addr → Addr → Addr
broadcast_addr a m = record {
  b₀ = bit_or a.b₀ (complement m.b₀);
  b₁ = bit_or a.b₁ (complement m.b₁);
  b₂ = bit_or a.b₂ (complement m.b₂);
  b₃ = bit_or a.b₃ (complement m.b₃);
}

-- the address as a uint32
abbrev pub value : Addr → ℕ
value a = a.b₀ * 2 ^ 24 + a.b₁ * 2 ^ 16 + a.b₂ * 2 ^ 8 + a.b₃

-- `Addr.Less` on two IPv4 addresses
abbrev pub addr_less : Addr → Addr → Bool
addr_less a b = ltb (value a) (value b)

-- `==` on two addresses
unfoldable pub addr_eq : Addr → Addr → Bool
addr_eq a b = a.b₀ == b.b₀ && (a.b₁ == b.b₁ && (a.b₂ == b.b₂ && a.b₃ == b.b₃))

-- `^value` on a uint32
abbrev pub inverted : Addr → ℕ
inverted m = 2 ^ 32 - 1 - value m

unfoldable pub has_host_addresses : Addr → Bool
has_host_addresses m = leb 3 (inverted m)

unfoldable pub is_contiguous_mask : Addr → Bool
is_contiguous_mask m = not (value m == 0) && bit_and (inverted m) ((inverted m + 1) % 2 ^ 32) == 0
