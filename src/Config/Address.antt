-- ===== src/Config/Address.antt =====
-- src/config.rs: `subnet_base`, and IPv4 addresses as `std::net` reads and prints them.
use llmtune.Prelude.{
  ℕ, zero, suc, ◌+◌, ◌-◌, ◌*◌, ◌/◌, ◌%◌, ◌^◌, ◌==◌, leb, Option, none, some, [], ◌∷◌, ◌++◌, Text,
  codes, length, read_digits, show, split_once, if◌then◌else◌,
}
use Prim.Native.Nat.{min}

-- A number of one to three digits, up to 255, without a leading zero.
unfoldable pub octet : Text → Option ℕ
unfolding read_digits
octet [] = none
octet (c ∷ []) = read_digits 255 0 (c ∷ [])
octet (c ∷ d ∷ s) =
    if c == b'0' then none else if leb (length s) 1 then read_digits 255 0 (c ∷ d ∷ s) else none

abbrev from_octets : Option ℕ → Option ℕ → Option ℕ → Option ℕ → Option ℕ
from_octets none b c d = none
from_octets (some a) none c d = none
from_octets (some a) (some b) none d = none
from_octets (some a) (some b) (some c) none = none
from_octets (some a) (some b) (some c) (some d) = some (((a * 256 + b) * 256 + c) * 256 + d)

abbrev third_octet : Option ℕ → Option ℕ → Option (Text × Text) → Option ℕ
third_octet a b none = none
third_octet a b (some (c, d)) = from_octets a b (octet c) (octet d)

abbrev second_octet : Option ℕ → Option (Text × Text) → Option ℕ
second_octet a none = none
second_octet a (some (b, s)) = third_octet a (octet b) (split_once b'.' s)

abbrev first_octet : Option (Text × Text) → Option ℕ
first_octet none = none
first_octet (some (a, s)) = second_octet (octet a) (split_once b'.' s)

-- `parse::<Ipv4Addr>`; an address is its number of 32 bits.
unfoldable pub parse_v4 : Text → Option ℕ
unfolding octet split_once
parse_v4 s = first_octet (split_once b'.' s)

-- `Ipv4Addr::to_string`
unfoldable pub show_v4 : ℕ → Text
unfolding show
show_v4 n =
    show (n / 16_777_216 % 256)
    ++ (codes "."
        ++ (show (n / 65_536 % 256)
            ++ (codes "." ++ (show (n / 256 % 256) ++ (codes "." ++ show (n % 256))))))

-- `&` of two words of `w` bits.
unfoldable pub bit_and : ℕ → ℕ → ℕ → ℕ
bit_and zero a b = 0
bit_and (suc w) a b = a % 2 * (b % 2) + 2 * bit_and w (a / 2) (b / 2)

-- A left shift of a `u32` drops the bits above.
abbrev pub netmask : ℕ → ℕ
netmask prefix_len =
    if prefix_len == 0 then 0 else 4_294_967_295 * 2 ^ (32 - min prefix_len 32) % 2 ^ 32

unfoldable pub subnet_base : ℕ → ℕ → ℕ
unfolding bit_and
subnet_base ip prefix_len = bit_and 32 ip (netmask prefix_len)
