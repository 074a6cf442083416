-- ===== src/K8s/Nodes/Mac.antt =====
-- internal/k8s/utils.go: ipv4ToMac, with strconv.Atoi and the %02x of fmt, of Go's standard library.
use Prim.Native.Char.{code}
use Prim.Native.String.{String, [], ◌∷◌}
use bigip_kubernetes_gateway.Base.{
  ◌≡◌, refl, ℕ, zero, suc, ◌+◌, ◌-◌, ◌*◌, ◌/◌, ◌%◌, ◌^◌, Bool, true, false, ◌&&◌, Option, none,
  some, List, nat_eq, ltb, if◌then◌else◌,
}
use bigip_kubernetes_gateway.Base.Text.{split, ◌⧺◌}

is_digit : ℕ → Bool
is_digit c = ltb 47 c && ltb c 58

-- The value of a text of decimal digits.
digits_from : ℕ → String → Option ℕ
digits_from n [] = some n
digits_from n (c ∷ s) =
    let rest = digits_from (n * 10 + (code c - 48)) s in if is_digit (code c) then rest else none

-- A text that is no number reads as 0, and one out of range as the bound.
clipped : ℕ → Option ℕ → ℕ
clipped bound none = 0
clipped bound (some n) = if ltb bound n then bound else n

magnitude : ℕ → String → ℕ
unfolding digits_from clipped is_digit
magnitude bound [] = 0
magnitude bound (c ∷ s) = clipped bound (digits_from 0 (c ∷ s))

-- What Atoi leaves in the int: whether it is negative, and its magnitude.
atoi : String → Bool × ℕ
unfolding magnitude
atoi [] = (false, 0)
atoi (c ∷ s) =
    if nat_eq (code c) 45
    then (true, magnitude (2 ^ 63) s)
    else if nat_eq (code c) 43
    then (false, magnitude (2 ^ 63 - 1) s)
    else (false, magnitude (2 ^ 63 - 1) (c ∷ s))

hex_digit : ℕ → String
hex_digit d =
    if ltb d 10
    then (if nat_eq d 0
        then "0"
        else if nat_eq d 1
        then "1"
        else if nat_eq d 2
        then "2"
        else if nat_eq d 3
        then "3"
        else if nat_eq d 4
        then "4"
        else if nat_eq d 5
        then "5"
        else if nat_eq d 6
        then "6"
        else if nat_eq d 7
        then "7"
        else if nat_eq d 8
        then "8"
        else "9")
    else (if nat_eq d 10
        then "a"
        else if nat_eq d 11
        then "b"
        else if nat_eq d 12
        then "c"
        else if nat_eq d 13
        then "d"
        else if nat_eq d 14
        then "e"
        else "f")

-- Sixteen rounds are enough for a number below 2 ^ 64.
hex : ℕ → ℕ → String
unfolding hex_digit
hex zero n = ""
hex (suc f) n =
    let rest = hex f (n / 16) ⧺ hex_digit (n % 16) in if ltb n 16 then hex_digit n else rest

-- %02x: two places, padded by zeros; a sign takes a place.
hex_pad : Bool × ℕ → String
unfolding hex
hex_pad (negative, n) =
    if negative && ltb 0 n then "-" ⧺ hex 16 n else if ltb n 16 then "0" ⧺ hex 16 n else hex 16 n

mac_of_parts : List String → String
unfolding hex_pad atoi
mac_of_parts (List.◌∷◌ a (List.◌∷◌ b (List.◌∷◌ c (List.◌∷◌ d List.[])))) =
    "0a:0a:"
    ⧺ hex_pad (atoi a)
    ⧺ ":"
    ⧺ hex_pad (atoi b)
    ⧺ ":"
    ⧺ hex_pad (atoi c)
    ⧺ ":"
    ⧺ hex_pad (atoi d)
mac_of_parts _ = ""

unfoldable pub ipv4_to_mac : String → String
unfolding mac_of_parts split
ipv4_to_mac addr = mac_of_parts (split "." addr)

ipv4_to_mac_private : ipv4_to_mac "10.250.18.5" ≡ "0a:0a:0a:fa:12:05"
unfolding ipv4_to_mac
ipv4_to_mac_private = refl
